-- ===== src/Quantum/Packed/Read.antt =====
-- A value that is read is a digit of the number that the bytes are.
use Prim.Native.Nat.{bit_or}
use quip_validator.Prelude.{
  ℕ, zero, suc, ◌+◌, ◌-◌, ◌*◌, ◌/◌, ◌%◌, ◌^◌, ◌≤◌, ◌<◌, ◌≡◌, refl, sym, ap, ◌∙◌, arith, List, [],
  ◌∷◌, length, get_elem?, get_or, some, ok,
}
use quip_validator.Quantum.Packed.{read_value}
use quip_validator.Quantum.Packed.Bits.{value, digit_of, bit_or-field, pow_add, pow_bytes}
use quip_validator.Quantum.Packed.Write.{AreBytes}
use native.Mathlib.Nat.{one-le-pow, div-div-eq-div-mul, add-mul-div_left, add-mul-mod_self_left}

get_elem?-inside : (xs : List ℕ) (i : ℕ) → i < length xs → get_elem? xs i ≡ some (get_or xs i 0)
get_elem?-inside [] i h = absurd (omega (arith, h))
get_elem?-inside (x ∷ xs) zero h = refl
get_elem?-inside (x ∷ xs) (suc i) h = get_elem?-inside xs i (omega (arith, h))

-- Sixteen bits are enough for a window of `bits` bits from bit `t` on.
window :
    (x t bits : ℕ)
    → t + bits ≤ 16
    → (x % 256 + x / 256 % 256 * 2 ^ 8) / 2 ^ t % 2 ^ bits ≡ x / 2 ^ t % 2 ^ bits
window x t bits room =
    let y : ℕ = x % 256 + x / 256 % 256 * 2 ^ 8 in
    let rest : ℕ = 2 ^ (16 - (t + bits)) * (x / 65536) in
    let power : 2 ^ 16 ≡ 2 ^ (t + bits) * 2 ^ (16 - (t + bits)) =
      ap (λ e. 2 ^ e) (split room) ∙ pow_add 2 (t + bits) (16 - (t + bits)) in
    let scaled = ap (λ p. p * (x / 65536)) power in
    let parts = ap (λ p. p * rest) (pow_add 2 t bits) in
    let whole : x ≡ y + 2 ^ t * (2 ^ bits * rest) = omega (arith, scaled, parts) in
    let shifted : x / 2 ^ t ≡ y / 2 ^ t + 2 ^ bits * rest =
      ap (λ z. z / 2 ^ t) whole
      ∙ add-mul-div_left y (2 ^ bits * rest) (one-le-pow t 2 (omega arith)) in
    sym (ap (λ z. z % 2 ^ bits) shifted ∙ add-mul-mod_self_left (y / 2 ^ t) (2 ^ bits) rest)
  where
    split : t + bits ≤ 16 → 16 ≡ t + bits + (16 - (t + bits))
    split h = omega (arith, h)

read_steps :
    (bits index : ℕ) (packed : List ℕ) {b0 b1 out : ℕ}
    → get_elem? packed (index * bits / 8) ≡ some (get_or packed (index * bits / 8) 0)
    → get_or packed (index * bits / 8) 0 ≡ b0
    → get_or packed (index * bits / 8 + 1) 0 ≡ b1
    → bit_or b0 (b1 * 2 ^ 8) ≡ b0 + b1 * 2 ^ 8
    → (b0 + b1 * 2 ^ 8) / 2 ^ (index * bits % 8) % 2 ^ bits ≡ out
    → read_value bits index packed ≡ ok out
unfolding read_value
read_steps bits index packed here first second sum window =
    rw (here, first, second, sum, window) refl

pub read_value_gives :
    (bits index : ℕ) (packed : List ℕ)
    → AreBytes packed
    → 0 < bits
    → bits ≤ 8
    → index * bits + bits ≤ 8 * length packed
    → read_value bits index packed ≡ ok (value 256 packed / 2 ^ (index * bits) % 2 ^ bits)
read_value_gives bits index packed bytes some_bits narrow room =
    let offset : ℕ = index * bits in
    let byte : ℕ = offset / 8 in
    let t : ℕ = offset % 8 in
    let n : ℕ = value 256 packed in
    let here = get_elem?-inside packed byte (omega (arith, room, some_bits)) in
    let first = digit_of 256 packed byte (omega arith) bytes in
    let second : get_or packed (byte + 1) 0 ≡ n / 256 ^ byte / 256 % 256 =
      digit_of 256 packed (byte + 1) (omega arith) bytes
      ∙ ap (λ p. n / p % 256) (pow_add 256 byte 1)
      ∙ ap (λ z. z % 256) (sym (div-div-eq-div-mul n (256 ^ byte) 256)) in
    let sum : bit_or (n / 256 ^ byte % 256) (n / 256 ^ byte / 256 % 256 * 2 ^ 8)
        ≡ n / 256 ^ byte % 256 + n / 256 ^ byte / 256 % 256 * 2 ^ 8 =
      bit_or-field 8 (n / 256 ^ byte % 256) (n / 256 ^ byte / 256 % 256) (omega arith) in
    let quotient : n / 256 ^ byte / 2 ^ t ≡ n / 2 ^ offset =
      div-div-eq-div-mul n (256 ^ byte) (2 ^ t) ∙ ap (λ p. n / p) (sym (pow_bytes offset)) in
    read_steps bits index packed here first second (sum)
      (window (n / 256 ^ byte) t bits (omega (arith, narrow)) ∙ ap (λ z. z % 2 ^ bits) quotient)
