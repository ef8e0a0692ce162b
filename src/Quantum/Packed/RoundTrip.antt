-- ===== src/Quantum/Packed/RoundTrip.antt =====
-- A solution that is packed is unpacked to itself (crates/quantum-validation/src/packed.rs).
use quip_validator.Prelude.{
  ℕ, zero, suc, ◌+◌, ◌*◌, ◌/◌, ◌%◌, ◌^◌, ◌≤◌, ◌<◌, ◌==◌, ==_refl, ◌≡◌, refl, sym, ap, ◌∙◌, arith,
  true, false, List, [], ◌∷◌, All, length, ok, u64_max,
}
use quip_validator.Prelude.Int.{ℤ}
use quip_validator.Quantum.Puzzle.{
  AllowedValueSpec, bits_per_value, decode_value, encode_value, fits_i32,
}
use quip_validator.Quantum.Packed.{
  byte_len, packed_solution_byte_len, write_value, pack_indexed, zeros, pack_solution, read_value,
  decode_indexed, unpack_solution,
}
use quip_validator.Quantum.Puzzle.RoundTrip.{
  IsStored, encode_value_round_trip, indexed_bits, IsIndexed,
}
use quip_validator.Quantum.Packed.Bits.{value, pow_add}
use quip_validator.Quantum.Packed.Write.{AreBytes, Adds, write_value-Adds}
use quip_validator.Quantum.Packed.Read.{read_value_gives}
use native.Mathlib.Nat.{
  one-le-pow, div-div-eq-div-mul, add-mul-div_left, add-mul-mod_self_left, mod-eq_of_lt,
  div-eq_of_lt, mul-le-mul_left,
}

-- The codes of the spins, each in its bits, and each decoded to its spin.
abbrev Coded : AllowedValueSpec → ℕ → List ℤ → List ℕ → Type 0
Coded spec bits [] [] = Unit
Coded spec bits (s ∷ ss) (r ∷ rs) =
    (encode_value s spec ≡ ok r)
    × (r < 2 ^ bits)
    × (decode_value spec r ≡ ok s)
    × Coded spec bits ss rs
Coded spec bits [] (r ∷ rs) = ⊥
Coded spec bits (s ∷ ss) [] = ⊥

place_power : (index bits : ℕ) → 2 ^ (suc index * bits) ≡ 2 ^ (index * bits) * 2 ^ bits
place_power index bits =
    let same : suc index * bits ≡ index * bits + bits = omega arith in
    ap (λ e. 2 ^ e) same ∙ pow_add 2 (index * bits) bits

-- The next place holds the number so far.
next_place :
    (n index bits raw : ℕ)
    → n < 2 ^ (index * bits)
    → raw < 2 ^ bits
    → n + 2 ^ (index * bits) * raw < 2 ^ (suc index * bits)
next_place n index bits raw below fits =
    let more : 2 ^ (index * bits) * (raw + 1) ≤ 2 ^ (index * bits) * 2 ^ bits =
      mul-le-mul_left (2 ^ (index * bits)) (omega (arith, fits)) in
    omega (arith, place_power index bits, more, below)

module _ (spec : AllowedValueSpec) (bits : ℕ) (some_bits : 0 < bits) (narrow : bits ≤ 8) where
  pack_step :
      (index : ℕ) (s : ℤ) (ss : List ℤ) (r : ℕ) (out out1 out2 : List ℕ)
      → encode_value s spec ≡ ok r
      → write_value bits index r out ≡ ok out1
      → pack_indexed spec bits (suc index) ss out1 ≡ ok out2
      → pack_indexed spec bits index (s ∷ ss) out ≡ ok out2
  unfolding pack_indexed
  pack_step index s ss r out out1 out2 encoded wrote packed = rw (encoded, wrote) packed

  pack_indexed-Adds :
      (index : ℕ) (spins : List ℤ) (raws out : List ℕ)
      → Coded spec bits spins raws
      → AreBytes out
      → value 256 out < 2 ^ (index * bits)
      → (index + length spins) * bits ≤ 8 * length out
      → Adds out
          (2 ^ (index * bits) * value (2 ^ bits) raws)
          (pack_indexed spec bits index spins out)
  unfolding pack_indexed
  pack_indexed-Adds index [] [] out coded bytes below room = (out, refl, omega arith, bytes, refl)
  pack_indexed-Adds index (s ∷ ss) [] out coded bytes below room = absurd coded
  pack_indexed-Adds index [] (r ∷ rs) out coded bytes below room = absurd coded
  pack_indexed-Adds index (s ∷ ss) (r ∷ rs) out (encoded, fits, decoded, rest) bytes below room =
      let (out1, wrote, total, good, same) =
        write_value-Adds out bytes bits index r narrow fits below (omega (arith, room)) some_bits in
      let (out2, packed, total2, good2, same2) =
        pack_indexed-Adds (suc index) ss rs out1 rest good
          (omega (arith, total, next_place (value 256 out) index bits r below fits))
          (omega (arith, room, same)) in
      let power = ap (λ p. p * value (2 ^ bits) rs) (place_power index bits) in
      (
        out2,
        pack_step index s ss r out out1 out2 encoded wrote packed,
        omega (arith, total, total2, power),
        good2,
        same2 ∙ same,
      )

  decode_indexed_gives :
      (index : ℕ) (spins : List ℤ) (raws packed : List ℕ)
      → Coded spec bits spins raws
      → AreBytes packed
      → value 256 packed / 2 ^ (index * bits) ≡ value (2 ^ bits) raws
      → (index + length spins) * bits ≤ 8 * length packed
      → decode_indexed spec bits packed index (length spins) ≡ ok spins
  unfolding decode_indexed
  decode_indexed_gives index [] [] packed coded bytes is room = refl
  decode_indexed_gives index (s ∷ ss) [] packed coded bytes is room = absurd coded
  decode_indexed_gives index [] (r ∷ rs) packed coded bytes is room = absurd coded
  decode_indexed_gives index (s ∷ ss) (r ∷ rs) packed (encoded, fits, decoded, rest) bytes is room =
      let read : read_value bits index packed ≡ ok r =
        read_value_gives bits index packed bytes some_bits narrow (omega (arith, room))
        ∙ ap (λ z. ok (z % 2 ^ bits)) is
        ∙ ap ok (add-mul-mod_self_left r (2 ^ bits) (value (2 ^ bits) rs) ∙ mod-eq_of_lt fits) in
      let v : ℕ = value (2 ^ bits) rs in
      let next : value 256 packed / 2 ^ (suc index * bits) ≡ v =
        ap (λ p. value 256 packed / p) (place_power index bits)
        ∙ sym (div-div-eq-div-mul (value 256 packed) (2 ^ (index * bits)) (2 ^ bits))
        ∙ ap (λ z. z / 2 ^ bits) is
        ∙ omega
            (arith, add-mul-div_left r v (one-le-pow bits 2 (omega arith)), div-eq_of_lt fits) in
      let later =
        decode_indexed_gives (suc index) ss rs packed rest bytes next (omega (arith, room)) in
      rw (read, decoded, later) refl

value-zeros : (n : ℕ) → value 256 (zeros n) ≡ 0
value-zeros zero = refl
value-zeros (suc n) = omega (arith, value-zeros n)

zeros-AreBytes : (n : ℕ) → AreBytes (zeros n)
zeros-AreBytes zero = tt
zeros-AreBytes (suc n) = (omega arith, zeros-AreBytes n)

length-zeros : (n : ℕ) → length (zeros n) ≡ n
length-zeros zero = refl
length-zeros (suc n) = ap suc (length-zeros n)

module _ (spec : AllowedValueSpec) (spins : List ℤ) (bits : ℕ) {len : ℕ} (packed : List ℕ)
    (known : bits_per_value spec ≡ ok bits) (long : byte_len (length spins) bits ≡ len)
    (indexed : (bits == 32) ≡ false) where
  packs :
      pack_indexed spec bits 0 spins (zeros len) ≡ ok packed → pack_solution spins spec ≡ ok packed
  unfolding pack_solution packed_solution_byte_len
  packs wrote = rw (known, long, indexed) wrote

  unpacks :
      length packed ≡ len
      → decode_indexed spec bits packed 0 (length spins) ≡ ok spins
      → unpack_solution packed (length spins) spec ≡ ok spins
  unfolding unpack_solution packed_solution_byte_len
  unpacks same decoded = rw (known, long, same, ==_refl len, indexed) decoded

-- A solution of indexed values that are all coded.
Coded-round_trip :
    (spec : AllowedValueSpec) (spins : List ℤ) (raws : List ℕ) (bits : ℕ)
    → bits_per_value spec ≡ ok bits
    → 0 < bits
    → bits ≤ 8
    → length spins * bits + 7 ≤ u64_max
    → Coded spec bits spins raws
    → (packed : List ℕ) × (pack_solution spins spec ≡ ok packed)
      × (length packed ≡ (length spins * bits + 7) / 8)
      × (unpack_solution packed (length spins) spec ≡ ok spins)
Coded-round_trip spec spins raws bits known some_bits narrow small coded =
    let len : ℕ = (length spins * bits + 7) / 8 in
    let long : byte_len (length spins) bits ≡ len = ap (λ z. z / 8) (omega (arith, small)) in
    let indexed : (bits == 32) ≡ false = ground (arith, narrow) in
    let room : (0 + length spins) * bits ≤ 8 * length (zeros len) =
      omega (arith, length-zeros len) in
    let none : 0 * bits ≡ 0 = omega arith in
    let unit : 2 ^ (0 * bits) ≡ 1 = ap (λ e. 2 ^ e) none in
    let start : value 256 (zeros len) < 2 ^ (0 * bits) = omega (arith, unit, value-zeros len) in
    let (packed, wrote, total, good, same) =
      pack_indexed-Adds spec bits some_bits narrow 0 spins raws (zeros len) coded
        (zeros-AreBytes len) start room in
    let scale = ap (λ p. p * value (2 ^ bits) raws) unit in
    let whole : value 256 packed / 2 ^ (0 * bits) ≡ value (2 ^ bits) raws =
      ap (λ p. value 256 packed / p) unit ∙ omega (arith, total, scale, value-zeros len) in
    let decoded =
      decode_indexed_gives spec bits some_bits narrow 0 spins raws packed coded good whole
        (omega (arith, same, room)) in
    let exact : length packed ≡ len = same ∙ length-zeros len in
    (
      packed,
      packs spec spins bits packed known long indexed wrote,
      exact,
      unpacks spec spins bits packed known long indexed exact decoded,
    )

-- Every spin is a word of 32 bits that the specification encodes.
abbrev pub AreEncoded : AllowedValueSpec → List ℤ → Type 0
AreEncoded spec spins =
    All (λ v. (fits_i32 v ≡ true) × ((raw : ℕ) × (encode_value v spec ≡ ok raw))) spins

AreEncoded-Coded :
    (spec : AllowedValueSpec) (bits : ℕ) (spins : List ℤ)
    → IsStored spec
    → bits_per_value spec ≡ ok bits
    → AreEncoded spec spins
    → (raws : List ℕ) × Coded spec bits spins raws
AreEncoded-Coded spec bits [] stored known h = ([], tt)
AreEncoded-Coded spec bits (s ∷ ss) stored known ((word, (raw, encoded)), more) =
    let (raws, coded) = AreEncoded-Coded spec bits ss stored known more in
    let (decoded, fits) = encode_value_round_trip spec s stored word known encoded in
    (raw ∷ raws, (encoded, fits, decoded, coded))

-- For a stored set or integer range with a bit width, spins that it encodes, and a bit count that fits a
-- word: packing succeeds without an index out of range, it gives as many bytes as the bits fill, and
-- unpacking those bytes gives the spins back.
pub unpack_solution-pack_solution :
    (spec : AllowedValueSpec) (spins : List ℤ) {bits : ℕ}
    → IsIndexed spec
    → IsStored spec
    → bits_per_value spec ≡ ok bits
    → length spins * bits + 7 ≤ u64_max
    → AreEncoded spec spins
    → (packed : List ℕ) × (pack_solution spins spec ≡ ok packed)
      × (length packed ≡ (length spins * bits + 7) / 8)
      × (unpack_solution packed (length spins) spec ≡ ok spins)
unpack_solution-pack_solution spec spins {bits} indexed stored known small encoded =
    let (raws, coded) = AreEncoded-Coded spec bits spins stored known encoded in
    let (some_bits, narrow) = indexed_bits spec bits indexed stored known in
    Coded-round_trip spec spins raws bits known some_bits narrow small coded
