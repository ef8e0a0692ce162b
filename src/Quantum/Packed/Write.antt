-- ===== src/Quantum/Packed/Write.antt =====
-- A value that is written adds its bits to the number that the bytes are.
use Prim.Native.Nat.{bit_or}
use quip_validator.Prelude.{
  ℕ, zero, suc, ◌+◌, ◌*◌, ◌/◌, ◌%◌, ◌^◌, ◌≤◌, ◌<◌, ◌≡◌, refl, sym, ap, ◌∙◌, arith, List, [], ◌∷◌,
  length, get_or, All, Result, ok, Bool-cases, inl, inr, ltb, ltb→lt, true, false,
}
use quip_validator.Quantum.Errors.{Fault}
use quip_validator.Quantum.Packed.{or_at, write_value}
use quip_validator.Quantum.Packed.Bits.{
  value, digit_of, bit_or-field, bit_or-zero_left, low_field, pow_add, pow_bytes,
}
use native.Mathlib.Nat.{
  pow-zero, pow-succ', pow-le-pow_right, one-le-pow, div-lt_iff_lt-mul, div-div-eq-div-mul,
  add-mul-div_left, mul-le-mul_right,
}

abbrev pub AreBytes : List ℕ → Type 0
AreBytes bs = All (λ b. b < 256) bs

-- The bytes after a write that is a sum in its byte.
abbrev pub Adds : List ℕ → ℕ → Result Fault (List ℕ) → Type 0
Adds out sum r =
    (out1 : List ℕ) × (r ≡ ok out1)
    × (value 256 out1 ≡ value 256 out + sum)
    × AreBytes out1
    × (length out1 ≡ length out)

or_at-Adds :
    (index bits : ℕ) (out : List ℕ)
    → index < length out
    → AreBytes out
    → bit_or (get_or out index 0) bits ≡ get_or out index 0 + bits
    → get_or out index 0 + bits < 256
    → Adds out (256 ^ index * bits) (or_at index bits out)
unfolding or_at
or_at-Adds index bits [] inside bytes sum fits = absurd (omega (arith, inside))
or_at-Adds zero bits (b ∷ bs) inside bytes sum fits =
    ((b + bits) ∷ bs, ap (λ z. ok (z ∷ bs)) sum, omega (arith, pow-zero 256), (fits, bytes.1), refl)
or_at-Adds (suc index) bits (b ∷ bs) inside bytes sum fits =
    let (out1, wrote, total, good, same) =
      or_at-Adds index bits bs (omega (arith, inside)) bytes.1 sum fits in
    (
      b ∷ out1,
      rw wrote refl,
      omega (arith, total, ap (λ p. p * bits) (pow-succ' 256 index)),
      (bytes.0, good),
      ap suc same,
    )

small_power : (t : ℕ) → t < 8 → 2 ^ t ≤ 128
small_power t h = pow-le-pow_right {n = 2} (omega arith) {i = t} {j = 7} (omega (arith, h))

-- A value of `bits` bits, shifted inside its byte.
shifted_fits :
    (bits t room raw : ℕ) → raw < 2 ^ bits → bits + t ≤ room → raw * 2 ^ t + 2 ^ t ≤ 2 ^ room
shifted_fits bits t room raw fits le =
    let product : (raw + 1) * 2 ^ t ≤ 2 ^ bits * 2 ^ t =
      mul-le-mul_right (2 ^ t) (omega (arith, fits)) in
    let bound : 2 ^ (bits + t) ≤ 2 ^ room = pow-le-pow_right {n = 2} (omega arith) le in
    omega (arith, product, bound, pow_add 2 bits t)

-- Inside its byte `b`, a field adds to the bits below it.
field_adds :
    (t raw b : ℕ)
    → t < 8
    → b < 2 ^ t
    → (bit_or b (raw * 2 ^ t % 256) ≡ b + raw * 2 ^ t % 256) × (b + raw * 2 ^ t % 256 < 256)
field_adds t raw b small below =
    let (q, is, fits) = low_field t raw small in
    (rw is (bit_or-field t b q below), rw is (omega (arith, below, fits)))

module _ (bits index raw : ℕ) (out : List ℕ) where
  write_two :
      (out1 out2 : List ℕ)
      → raw * 2 ^ (index * bits % 8) % 2 ^ 32 ≡ raw * 2 ^ (index * bits % 8)
      → or_at (index * bits / 8) (raw * 2 ^ (index * bits % 8) % 256) out ≡ ok out1
      → ltb (index * bits / 8 + 1) (length out1) ≡ true
      → or_at (index * bits / 8 + 1) (raw * 2 ^ (index * bits % 8) / 256 % 256) out1 ≡ ok out2
      → write_value bits index raw out ≡ ok out2
  unfolding write_value
  write_two out1 out2 whole wrote inside wrote2 = rw (whole, wrote, inside) wrote2

  write_one :
      (out1 : List ℕ)
      → raw * 2 ^ (index * bits % 8) % 2 ^ 32 ≡ raw * 2 ^ (index * bits % 8)
      → or_at (index * bits / 8) (raw * 2 ^ (index * bits % 8) % 256) out ≡ ok out1
      → ltb (index * bits / 8 + 1) (length out1) ≡ false
      → write_value bits index raw out ≡ ok out1
  unfolding write_value
  write_one out1 whole wrote outside = rw (whole, wrote, outside) refl

join :
    (place low high shift raw up power : ℕ)
    → low + 256 * high ≡ raw * shift
    → up ≡ place * 256
    → power ≡ place * shift
    → place * low + up * high ≡ power * raw
join place low high shift raw up power parts is_up is_power =
    rw (is_up, is_power) (omega (arith, ap (λ x. place * x) parts))

-- The two bytes of a shifted value make up the value in the place of its offset.
bytes_sum :
    (offset raw : ℕ)
    → raw * 2 ^ (offset % 8) + 2 ^ (offset % 8) ≤ 2 ^ 16
    → 256 ^ (offset / 8) * (raw * 2 ^ (offset % 8) % 256)
        + 256 ^ (offset / 8 + 1) * (raw * 2 ^ (offset % 8) / 256 % 256)
      ≡ 2 ^ offset * raw
bytes_sum offset raw word =
    let low : ℕ = raw * 2 ^ (offset % 8) % 256 in
    let high : ℕ = raw * 2 ^ (offset % 8) / 256 % 256 in
    let parts : low + 256 * high ≡ raw * 2 ^ (offset % 8) =
      omega (arith, word, one-le-pow (offset % 8) 2 (omega arith)) in
    join (256 ^ (offset / 8)) low high (2 ^ (offset % 8)) raw (256 ^ (offset / 8 + 1)) (2 ^ offset)
      parts (pow_add 256 (offset / 8) 1) (pow_bytes offset)

high_none : (raw t : ℕ) → raw * 2 ^ t + 2 ^ t ≤ 2 ^ 8 → raw * 2 ^ t / 256 % 256 ≡ 0
high_none raw t top = omega (arith, top, one-le-pow t 2 (omega arith))

module _ (out : List ℕ) (bytes : AreBytes out) where
  -- The byte of the first free bit has the bits below it, and the bytes above are empty.
  first_free :
      (index t : ℕ)
      → value 256 out < 256 ^ index * 2 ^ t
      → t < 8
      → (get_or out index 0 ≡ value 256 out / 256 ^ index) × (get_or out index 0 < 2 ^ t)
  first_free index t below small =
      let high : value 256 out / 256 ^ index < 2 ^ t =
        (div-lt_iff_lt-mul (one-le-pow index 256 (omega arith))).1 (omega (arith, below)) in
      let digit = digit_of 256 out index (omega arith) bytes in
      let is : value 256 out / 256 ^ index % 256 ≡ value 256 out / 256 ^ index =
        omega (arith, high, small_power t small) in
      (digit ∙ is, rw (digit, is) high)

  -- The next byte is empty before the write, and after a write to the byte before it.
  next_empty :
      (index t low : ℕ) (out1 : List ℕ)
      → value 256 out < 256 ^ index * 2 ^ t
      → t < 8
      → get_or out index 0 + low < 256
      → value 256 out1 ≡ value 256 out + 256 ^ index * low
      → AreBytes out1
      → get_or out1 (index + 1) 0 ≡ 0
  next_empty index t low out1 below small fits total good =
      let here = (first_free index t below small).0 in
      let added : value 256 out1 / 256 ^ index ≡ value 256 out / 256 ^ index + low =
        ap (λ v. v / 256 ^ index) total
        ∙ add-mul-div_left (value 256 out) low (one-le-pow index 256 (omega arith)) in
      let up : value 256 out1 / 256 ^ (index + 1) ≡ value 256 out1 / 256 ^ index / 256 =
        ap (λ p. value 256 out1 / p) (pow_add 256 index 1)
        ∙ sym (div-div-eq-div-mul (value 256 out1) (256 ^ index) 256) in
      let digit = digit_of 256 out1 (index + 1) (omega arith) good in
      omega (arith, digit, up, added, here, fits)

  pub write_value-Adds :
      (bits index raw : ℕ)
      → bits ≤ 8
      → raw < 2 ^ bits
      → value 256 out < 2 ^ (index * bits)
      → index * bits + bits ≤ 8 * length out
      → 0 < bits
      → Adds out (2 ^ (index * bits) * raw) (write_value bits index raw out)
  write_value-Adds bits index raw narrow fits below room some_bits =
      let offset : ℕ = index * bits in
      let byte : ℕ = offset / 8 in
      let t : ℕ = offset % 8 in
      let small : t < 8 = omega arith in
      let power = pow_bytes offset in
      let free = first_free byte t (rw (← power) below) small in
      let word : raw * 2 ^ t + 2 ^ t ≤ 2 ^ 16 =
        shifted_fits bits t 16 raw fits (omega (arith, narrow)) in
      let whole : raw * 2 ^ t % 2 ^ 32 ≡ raw * 2 ^ t = omega (arith, word) in
      let field = field_adds t raw (get_or out byte 0) small free.1 in
      let first =
        or_at-Adds byte (raw * 2 ^ t % 256) out (omega (arith, room, some_bits)) bytes field.0
          field.1 in
      let (out1, wrote, total, good, same) = first in
      let empty =
        next_empty byte t (raw * 2 ^ t % 256) out1 (rw (← power) below) small field.1 total good in
      elim (Bool-cases (ltb (byte + 1) (length out1))) [
        | inl e ↦
            let high : bit_or 0 (raw * 2 ^ t / 256 % 256) ≡ 0 + raw * 2 ^ t / 256 % 256 =
              omega (arith, bit_or-zero_left (raw * 2 ^ t / 256 % 256)) in
            let (out2, wrote2, total2, good2, same2) =
              or_at-Adds (byte + 1) (raw * 2 ^ t / 256 % 256) out1 (ltb→lt _ _ e) good
                (rw empty high) (rw empty (omega arith)) in
            (
              out2,
              write_two bits index raw out out1 out2 whole wrote e wrote2,
              omega (arith, total, total2, bytes_sum offset raw word),
              good2,
              same2 ∙ same,
            )
        | inr e ↦
            let last : bits + t ≤ 8 = ground (arith, e, same, room) in
            let top = shifted_fits bits t 8 raw fits last in
            let none : 256 ^ (byte + 1) * (raw * 2 ^ t / 256 % 256) ≡ 0 =
              ap (λ h. 256 ^ (byte + 1) * h) (high_none raw t top) ∙ omega arith in
            (
              out1,
              write_one bits index raw out out1 whole wrote e,
              omega (arith, total, none, bytes_sum offset raw word),
              good,
              same,
            )
      ]
