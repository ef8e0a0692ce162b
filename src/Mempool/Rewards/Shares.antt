-- ===== src/Mempool/Rewards/Shares.antt =====
-- One solver's weighted share, without the saturation, and its bounds.
use native.Mathlib.Nat.{
  div-add-mod, div-add-mod', mod-lt, mul-le-mul, mul-le-mul_left, le_trans, add-le-add,
}
use quip_validator.Prelude.{
  ℕ, ◌+◌, ◌-◌, ◌*◌, ◌/◌, ◌%◌, ◌≤◌, ◌<◌, ◌^◌, ◌≡◌, ap, arith, u128_max, sat_mul,
}
use quip_validator.Mempool.Rewards.{weighted_share}

abbrev pub exact_share : ℕ → ℕ → ℕ → ℕ
exact_share reward total_weight weight =
    reward / total_weight * weight + reward % total_weight * weight / total_weight

-- The parts of a share, as the quotient and the remainder split a reward.
pub exact_share-mul-le : (reward t w : ℕ) → t * exact_share reward t w ≤ reward * w
exact_share-mul-le reward t w =
    let split : t * (reward / t) + reward % t ≡ reward = div-add-mod reward t in
    let scaled : (t * (reward / t) + reward % t) * w ≡ reward * w = ap (λ (x : ℕ). x * w) split in
    let part : t * (reward % t * w / t) + reward % t * w % t ≡ reward % t * w =
      div-add-mod (reward % t * w) t in
    omega arith

mul-le-cancel : (t a b : ℕ) → 0 < t → t * a ≤ t * b → a ≤ b
mul-le-cancel t a b p h = grind arith

-- A weight of at most the total gives at most the reward.
pub exact_share-le : (reward t w : ℕ) → 0 < t → w ≤ t → exact_share reward t w ≤ reward
exact_share-le reward t w p h =
    mul-le-cancel t (exact_share reward t w) reward p
      (omega (arith, exact_share-mul-le reward t w, bound))
  where
    bound : reward * w ≤ t * reward
    bound = grind arith

-- The products that the code multiplies out stay below the reward, or below the square of the
-- total weight.
share-parts :
    (reward t w : ℕ) → 0 < t → w ≤ t → (reward / t * w ≤ reward) × (reward % t * w ≤ t * t)
share-parts reward t w p h = (
  le_trans (mul-le-mul_left (reward / t) h) (omega (arith, div-add-mod' reward t)),
  mul-le-mul (omega (arith, mod-lt reward p)) h,
)

-- With a total weight of a word's half, nothing saturates.
pub weighted_share-exact :
    (reward t w : ℕ)
    → reward ≤ u128_max
    → 0 < t
    → t < 2 ^ 64
    → w ≤ t
    → weighted_share reward t w ≡ exact_share reward t w
unfolding weighted_share
weighted_share-exact reward t w fits p small h =
    let (whole, part) = share-parts reward t w p h in
    let square : t * t ≤ (2 ^ 64 - 1) * (2 ^ 64 - 1) =
      mul-le-mul {n₂ = 2 ^ 64 - 1} {m₂ = 2 ^ 64 - 1} (omega arith) (omega arith) in
    let all : reward / t * w + reward % t * w / t ≤ reward = exact_share-le reward t w p h in
    let m1 : sat_mul u128_max (reward / t) w ≡ reward / t * w = omega arith in
    let m2 : sat_mul u128_max (reward % t) w ≡ reward % t * w = omega arith in
    rw (m1, m2) (omega arith)

div_mono : (t a b : ℕ) → a ≤ b → a / t ≤ b / t
div_mono t a b h = grind arith

-- A larger weight earns at least as much.
pub exact_share_mono : (reward t v w : ℕ) → v ≤ w → exact_share reward t v ≤ exact_share reward t w
exact_share_mono reward t v w h =
    add-le-add (mul-le-mul_left (reward / t) h)
      (div_mono t (reward % t * v) (reward % t * w) (mul-le-mul_left (reward % t) h))
