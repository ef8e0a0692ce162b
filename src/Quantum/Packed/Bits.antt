-- ===== src/Quantum/Packed/Bits.antt =====
-- Bits of natural numbers: `|` of a number and a field above it is a sum, and the digits of a
-- number in a base.
use Prim.Native.Nat.{bit_or, bit_or-bitwise, digits, max}
use quip_validator.Prelude.{
  ℕ, zero, suc, ◌+◌, ◌*◌, ◌/◌, ◌%◌, ◌^◌, ◌≤◌, ◌<◌, ◌≡◌, refl, sym, ap, ◌∙◌, arith, List, [], ◌∷◌,
  All, get_or,
}
use native.Mathlib.Nat.{
  pow-suc, pow-zero, pow-succ', div-div-eq-div-mul, zero-div, zero-mod, div-one, mod-eq_of_lt,
  div-eq_of_lt, add-mul-mod_self_left, add-mul-div_left,
}

digits_of_zero : (n b : ℕ) → digits (λ y. y) max n 0 b ≡ b
digits_of_zero zero b = refl
digits_of_zero (suc n) b = refl

digits_field :
    (k n a q : ℕ) → a < 2 ^ k → a ≤ n → digits (λ y. y) max n a (q * 2 ^ k) ≡ a + q * 2 ^ k
digits_field k n zero q fits le = omega (arith, digits_of_zero n (q * 2 ^ k))
digits_field zero n (suc a) q fits le = absurd (omega (arith, fits))
digits_field (suc k) zero (suc a) q fits le = absurd (omega (arith, le))
digits_field (suc k) (suc n) (suc a) q fits le =
    let twice : q * 2 ^ suc k ≡ 2 * (q * 2 ^ k) = omega (arith, ap (λ p. q * p) (pow-suc 2 k)) in
    let half : q * 2 ^ suc k / 2 ≡ q * 2 ^ k = omega (arith, twice) in
    let even : q * 2 ^ suc k % 2 ≡ 0 = omega (arith, twice) in
    let rest =
      digits_field k n (suc a / 2) q (omega (arith, fits, pow-suc 2 k)) (omega (arith, le)) in
    rw (half, even, rest) (omega (arith, twice))

-- `a | (q << k)`, when `a` has `k` bits.
pub bit_or-field : (k a q : ℕ) → a < 2 ^ k → bit_or a (q * 2 ^ k) ≡ a + q * 2 ^ k
bit_or-field k a q fits = simp bit_or-bitwise (digits_field k a a q fits (omega arith))

-- The number that a list of digits writes, the lowest first.
abbrev pub value : ℕ → List ℕ → ℕ
value base [] = 0
value base (d ∷ ds) = d + base * value base ds

pub digit_of :
    (base : ℕ) (ds : List ℕ) (k : ℕ)
    → 0 < base
    → All (λ d. d < base) ds
    → get_or ds k 0 ≡ value base ds / base ^ k % base
digit_of base [] k positive h = rw (zero-div (base ^ k)) (sym (zero-mod base))
digit_of base (d ∷ ds) zero positive h =
    let low : (d + base * value base ds) % base ≡ d =
      add-mul-mod_self_left d base (value base ds) ∙ mod-eq_of_lt h.0 in
    rw (pow-zero base, div-one (d + base * value base ds)) (sym low)
digit_of base (d ∷ ds) (suc k) positive h =
    let high : (d + base * value base ds) / base ≡ value base ds =
      omega (arith, add-mul-div_left d (value base ds) positive, div-eq_of_lt h.0) in
    let more : (d + base * value base ds) / base ^ suc k ≡ value base ds / base ^ k =
      ap (λ z. (d + base * value base ds) / z) (pow-succ' base k)
      ∙ sym (div-div-eq-div-mul (d + base * value base ds) base (base ^ k))
      ∙ ap (λ z. z / base ^ k) high in
    rw more (digit_of base ds k positive h.1)

pub bit_or-zero_left : (b : ℕ) → bit_or 0 b ≡ b
bit_or-zero_left b = simp bit_or-bitwise (digits_of_zero 0 b)

pub pow_add : (a m n : ℕ) → a ^ (m + n) ≡ a ^ m * a ^ n
pow_add a m zero =
    let same : m + 0 ≡ m = omega arith in
    ap (λ e. a ^ e) same ∙ omega (arith, ap (λ p. a ^ m * p) (pow-zero a))
pow_add a m (suc n) =
    let same : m + suc n ≡ suc (m + n) = omega arith in
    ap (λ e. a ^ e) same
    ∙ pow-suc a (m + n)
    ∙ omega (arith, ap (λ p. p * a) (pow_add a m n), ap (λ p. a ^ m * p) (pow-suc a n))

pub pow_mul : (a m n : ℕ) → a ^ (n * m) ≡ (a ^ m) ^ n
pow_mul a m zero =
    let none : 0 * m ≡ 0 = omega arith in ap (λ e. a ^ e) none ∙ pow-zero a ∙ sym (pow-zero (a ^ m))
pow_mul a m (suc n) =
    let one_more : suc n * m ≡ n * m + m = omega arith in
    ap (λ e. a ^ e) one_more
    ∙ pow_add a (n * m) m
    ∙ ap (λ p. p * a ^ m) (pow_mul a m n)
    ∙ sym (pow-suc (a ^ m) n)

-- Whole bytes and the bits inside one.
pub pow_bytes : (offset : ℕ) → 2 ^ offset ≡ 256 ^ (offset / 8) * 2 ^ (offset % 8)
pow_bytes offset =
    let parts : offset ≡ offset / 8 * 8 + offset % 8 = omega arith in
    ap (λ e. 2 ^ e) parts
    ∙ pow_add 2 (offset / 8 * 8) (offset % 8)
    ∙ ap (λ p. p * 2 ^ (offset % 8)) (pow_mul 2 8 (offset / 8))

-- The part of a shifted byte that stays in its byte.
pub low_field :
    (t raw : ℕ) → t < 8 → (q : ℕ) × (raw * 2 ^ t % 256 ≡ q * 2 ^ t) × (q * 2 ^ t + 2 ^ t ≤ 256)
low_field zero raw h = (raw % 256, omega arith, omega arith)
low_field (suc zero) raw h = (raw % 128, omega arith, omega arith)
low_field (suc (suc zero)) raw h = (raw % 64, omega arith, omega arith)
low_field (suc (suc (suc zero))) raw h = (raw % 32, omega arith, omega arith)
low_field (suc (suc (suc (suc zero)))) raw h = (raw % 16, omega arith, omega arith)
low_field (suc (suc (suc (suc (suc zero))))) raw h = (raw % 8, omega arith, omega arith)
low_field (suc (suc (suc (suc (suc (suc zero)))))) raw h = (raw % 4, omega arith, omega arith)
low_field (suc (suc (suc (suc (suc (suc (suc zero))))))) raw h = (raw % 2, omega arith, omega arith)
low_field (suc (suc (suc (suc (suc (suc (suc (suc t)))))))) raw h = absurd (omega (arith, h))
