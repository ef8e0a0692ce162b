-- ===== src/Quantum/Packed.antt =====
-- Bit-packed solutions (crates/quantum-validation/src/packed.rs). A shift to the left is a product and to
-- the right a quotient by a power of two, `&` with low bits set is a remainder; an index out of range
-- is `trapped`.
pub mod Bits
pub mod Write
pub mod Read
pub mod RoundTrip
use Prim.Native.Nat.{bit_or}
use quip_validator.Prelude.{
  ℕ, zero, suc, ◌+◌, ◌*◌, ◌/◌, ◌%◌, ◌^◌, ◌==◌, ltb, leb, Bool, true, false, if◌then◌else◌, List, [],
  ◌∷◌, length, get_elem?, get_or, Option, none, some, Result, ok, err, ◌>>=◌, ◌>>◌, ok_or, ensure,
  sat_add, sat_mul, u32_max, u64_max, is_some,
}
use quip_validator.Prelude.Int.{ℤ, pos, negsuc}
use quip_validator.Quantum.Errors.{
  ValidationError, packed_solution_length_mismatch, invalid_spin_value, Fault, invalid, trapped,
}
use quip_validator.Quantum.Puzzle.{
  AllowedValueSpec, bits_per_value, decode_value, encode_value, as_u32,
}

abbrev pub or_invalid {ℓ} : {A : Type ℓ} → Result ValidationError A → Result Fault A
or_invalid (ok a) = ok a
or_invalid (err e) = err (invalid e)

-- The bytes of a number of values of some bits.
abbrev pub byte_len : ℕ → ℕ → ℕ
byte_len num_spins bits = sat_add u64_max (sat_mul u64_max num_spins bits) 7 / 8

unfoldable pub packed_solution_byte_len : ℕ → AllowedValueSpec → Result ValidationError ℕ
unfolding bits_per_value
packed_solution_byte_len num_spins spec =
    bits_per_value spec >>= λ bits. ok (byte_len num_spins bits)

-- `out[index] |= bits`
unfoldable pub or_at : ℕ → ℕ → List ℕ → Result Fault (List ℕ)
or_at index bits [] = err trapped
or_at zero bits (b ∷ bs) = ok (bit_or b bits ∷ bs)
or_at (suc index) bits (b ∷ bs) = or_at index bits bs >>= λ rest. ok (b ∷ rest)

-- One value of `bits` bits, in the place of its index.
unfoldable pub write_value : ℕ → ℕ → ℕ → List ℕ → Result Fault (List ℕ)
unfolding or_at
write_value bits index raw out =
    let offset : ℕ = index * bits in
    let shifted : ℕ = raw * 2 ^ (offset % 8) % 2 ^ 32 in
    or_at (offset / 8) (shifted % 256) out >>= λ out1.
    if ltb (offset / 8 + 1) (length out1)
    then or_at (offset / 8 + 1) (shifted / 256 % 256) out1
    else ok out1

unfoldable pub pack_indexed : AllowedValueSpec → ℕ → ℕ → List ℤ → List ℕ → Result Fault (List ℕ)
unfolding write_value encode_value
pack_indexed spec bits index [] out = ok out
pack_indexed spec bits index (spin ∷ spins) out = or_invalid (encode_value spin spec) >>= λ raw.
    write_value bits index raw out >>= λ out1. pack_indexed spec bits (suc index) spins out1

-- `out[index] = byte`
unfoldable pub set_at : ℕ → ℕ → List ℕ → Result Fault (List ℕ)
set_at index byte [] = err trapped
set_at zero byte (b ∷ bs) = ok (byte ∷ bs)
set_at (suc index) byte (b ∷ bs) = set_at index byte bs >>= λ rest. ok (b ∷ rest)

-- The four bytes of a word, the highest first.
unfoldable pub write_word : ℕ → ℕ → List ℕ → Result Fault (List ℕ)
unfolding set_at
write_word offset raw out = set_at offset (raw / 2 ^ 24 % 256) out >>= λ out1.
    set_at (offset + 1) (raw / 2 ^ 16 % 256) out1 >>= λ out2.
    set_at (offset + 2) (raw / 2 ^ 8 % 256) out2 >>= λ out3. set_at (offset + 3) (raw % 256) out3

unfoldable pub pack_continuous : ℕ → List ℤ → List ℕ → Result Fault (List ℕ)
unfolding write_word
pack_continuous index [] out = ok out
pack_continuous index (spin ∷ spins) out =
    write_word (index * 4) (as_u32 spin) out >>= λ out1. pack_continuous (suc index) spins out1

abbrev pub zeros : ℕ → List ℕ
zeros zero = []
zeros (suc n) = 0 ∷ zeros n

unfoldable pub pack_solution : List ℤ → AllowedValueSpec → Result Fault (List ℕ)
unfolding bits_per_value packed_solution_byte_len pack_indexed pack_continuous
pack_solution spins spec = or_invalid (bits_per_value spec) >>= λ bits.
    or_invalid (packed_solution_byte_len (length spins) spec) >>= λ len.
    if bits == 32
    then pack_continuous 0 spins (zeros len)
    else pack_indexed spec bits 0 spins (zeros len)

-- The bits of the value at an index.
unfoldable pub read_value : ℕ → ℕ → List ℕ → Result Fault ℕ
read_value bits index packed =
    let offset : ℕ = index * bits in
    ok_or (get_elem? packed (offset / 8)) trapped >>= λ b0.
    ok (bit_or b0 (get_or packed (offset / 8 + 1) 0 * 2 ^ 8) / 2 ^ (offset % 8) % 2 ^ bits)

-- The values from `index` on.
unfoldable pub decode_indexed : AllowedValueSpec → ℕ → List ℕ → ℕ → ℕ → Result Fault (List ℤ)
unfolding read_value decode_value
decode_indexed spec bits packed index zero = ok []
decode_indexed spec bits packed index (suc left) = read_value bits index packed >>= λ raw.
    or_invalid (decode_value spec raw) >>= λ value.
    decode_indexed spec bits packed (suc index) left >>= λ rest. ok (value ∷ rest)

-- A word from four bytes, the highest first.
unfoldable pub read_word : List ℕ → ℕ → Option ℕ
read_word packed offset =
    if ltb (offset + 3) (length packed)
    then some (
        get_or packed offset 0 * 2 ^ 24
        + get_or packed (offset + 1) 0 * 2 ^ 16
        + get_or packed (offset + 2) 0 * 2 ^ 8
        + get_or packed (offset + 3) 0)
    else none

unfoldable pub decode_continuous :
    AllowedValueSpec → ℕ → List ℕ → ℕ → ℕ → Result ValidationError (List ℤ)
unfolding read_word decode_value
decode_continuous spec num_spins packed index zero = ok []
decode_continuous spec num_spins packed index (suc left) =
    ok_or (read_word packed (index * 4))
      (packed_solution_length_mismatch (num_spins * 4) (length packed))
    >>= λ raw. decode_value spec raw >>= λ value.
        decode_continuous spec num_spins packed (suc index) left >>= λ rest. ok (value ∷ rest)

unfoldable pub unpack_solution : List ℕ → ℕ → AllowedValueSpec → Result Fault (List ℤ)
unfolding bits_per_value packed_solution_byte_len decode_indexed decode_continuous
unpack_solution packed num_spins spec = or_invalid (bits_per_value spec) >>= λ bits.
    or_invalid (packed_solution_byte_len num_spins spec) >>= λ expected.
    or_invalid (
      ensure (length packed == expected) (packed_solution_length_mismatch expected (length packed)))
    >> (if bits == 32
        then or_invalid (decode_continuous spec num_spins packed 0 num_spins)
        else decode_indexed spec bits packed 0 num_spins)

-- `signum`, or the zero that is refused.
unfoldable pub spin_signs_from : ℕ → List ℤ → Result ValidationError (List ℤ)
spin_signs_from index [] = ok []
spin_signs_from index (pos zero ∷ rest) = err (invalid_spin_value index (pos 0))
spin_signs_from index (pos (suc n) ∷ rest) =
    spin_signs_from (suc index) rest >>= λ signs. ok (pos 1 ∷ signs)
spin_signs_from index (negsuc n ∷ rest) =
    spin_signs_from (suc index) rest >>= λ signs. ok (negsuc 0 ∷ signs)

unfoldable pub spin_signs : List ℤ → Result ValidationError (List ℤ)
unfolding spin_signs_from
spin_signs milli = spin_signs_from 0 milli
