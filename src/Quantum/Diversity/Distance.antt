-- ===== src/Quantum/Diversity/Distance.antt =====
-- The distance is symmetric, blind to a global flip, and at most half the length.
use quip_validator.Prelude.{
  ℕ, ◌+◌, ◌*◌, ◌≤◌, ◌≡◌, refl, ap₂, arith, Bool, true, if◌then◌else◌, ◌⊎◌, List, [], ◌∷◌, length,
  min,
}
use quip_validator.Prelude.Int.{ℤ, neg_ℤ, ◌==ℤ◌}
use quip_validator.Quantum.Spins.{is_spin, validate_spins}
use quip_validator.Quantum.Energy.Flip.{flip, pos_part-neg_ℤ, neg_part-neg_ℤ}
use quip_validator.Quantum.Diversity.{direct, inverted, symmetric_hamming_validated}

direct_comm : (a b : List ℤ) → direct a b ≡ direct b a
unfolding direct
direct_comm [] [] = refl
direct_comm [] (y ∷ b) = refl
direct_comm (x ∷ a) [] = refl
direct_comm (x ∷ a) (y ∷ b) = ground (arith, direct_comm a b)

-- How the comparison with a negation moves.
neg-eq_comm : (x y : ℤ) → (x ==ℤ neg_ℤ y) ≡ (y ==ℤ neg_ℤ x)
neg-eq_comm x y =
    ground (arith, pos_part-neg_ℤ x, neg_part-neg_ℤ x, pos_part-neg_ℤ y, neg_part-neg_ℤ y)

neg-eq_left : (x y : ℤ) → (neg_ℤ x ==ℤ y) ≡ (x ==ℤ neg_ℤ y)
neg-eq_left x y =
    ground (arith, pos_part-neg_ℤ x, neg_part-neg_ℤ x, pos_part-neg_ℤ y, neg_part-neg_ℤ y)

neg-eq_both : (x y : ℤ) → (neg_ℤ x ==ℤ neg_ℤ y) ≡ (x ==ℤ y)
neg-eq_both x y =
    ground (arith, pos_part-neg_ℤ x, neg_part-neg_ℤ x, pos_part-neg_ℤ y, neg_part-neg_ℤ y)

-- One step of a counter.
count_step :
    {s t : Bool} {m n : ℕ} → s ≡ t → m ≡ n → (if s then 0 else 1) + m ≡ (if t then 0 else 1) + n
count_step p q = ap₂ (λ (t : Bool) (k : ℕ). (if t then 0 else 1) + k) p q

inverted_comm : (a b : List ℤ) → inverted a b ≡ inverted b a
unfolding inverted
inverted_comm [] [] = refl
inverted_comm [] (y ∷ b) = refl
inverted_comm (x ∷ a) [] = refl
inverted_comm (x ∷ a) (y ∷ b) = count_step (neg-eq_comm x y) (inverted_comm a b)

-- The distance does not depend on the order of its arguments.
pub symmetric_hamming_validated_comm :
    (a b : List ℤ) → symmetric_hamming_validated a b ≡ symmetric_hamming_validated b a
unfolding symmetric_hamming_validated
symmetric_hamming_validated_comm a b = ap₂ min (direct_comm a b) (inverted_comm a b)

direct-flip : (a b : List ℤ) → direct (flip a) b ≡ inverted a b
unfolding direct inverted
direct-flip [] b = refl
direct-flip (x ∷ a) [] = refl
direct-flip (x ∷ a) (y ∷ b) = count_step (neg-eq_left x y) (direct-flip a b)

inverted-flip : (a b : List ℤ) → inverted (flip a) b ≡ direct a b
unfolding direct inverted
inverted-flip [] b = refl
inverted-flip (x ∷ a) [] = refl
inverted-flip (x ∷ a) (y ∷ b) = count_step (neg-eq_both x y) (inverted-flip a b)

-- Flipping every spin of a solution leaves its distance to every other as it is.
pub symmetric_hamming_validated-flip :
    (a b : List ℤ) → symmetric_hamming_validated (flip a) b ≡ symmetric_hamming_validated a b
unfolding symmetric_hamming_validated
symmetric_hamming_validated-flip a b = omega (arith, direct-flip a b, inverted-flip a b)

-- On valid spins each position differs from one of the two.
direct-add-inverted :
    (a b : List ℤ)
    → validate_spins a ≡ true
    → validate_spins b ≡ true
    → length a ≡ length b
    → direct a b + inverted a b ≡ length a
unfolding direct inverted validate_spins is_spin neg_ℤ
direct-add-inverted [] b va vb l = omega arith
direct-add-inverted (x ∷ a) [] va vb l = absurd (omega arith)
direct-add-inverted (x ∷ a) (y ∷ b) va vb l = ground (arith, direct-add-inverted a b)

-- The distance of two valid solutions of one length is at most half that length.
pub symmetric_hamming_validated-le :
    (a b : List ℤ)
    → validate_spins a ≡ true
    → validate_spins b ≡ true
    → length a ≡ length b
    → 2 * symmetric_hamming_validated a b ≤ length a
unfolding symmetric_hamming_validated
symmetric_hamming_validated-le a b va vb l = omega (arith, direct-add-inverted a b va vb l)

direct-zero : (a b : List ℤ) → length a ≡ length b → direct a b ≡ 0 → a ≡ b
unfolding direct
direct-zero [] [] l h = refl
direct-zero [] (y ∷ b) l h = absurd (omega arith)
direct-zero (x ∷ a) [] l h = absurd (omega arith)
direct-zero (x ∷ a) (y ∷ b) l h =
    ap₂ {C = List ℤ} (λ u v. u ∷ v) (ground arith) (direct-zero a b (omega arith) (omega arith))

inverted-zero : (a b : List ℤ) → length a ≡ length b → inverted a b ≡ 0 → a ≡ flip b
unfolding inverted
inverted-zero [] [] l h = refl
inverted-zero [] (y ∷ b) l h = absurd (omega arith)
inverted-zero (x ∷ a) [] l h = absurd (omega arith)
inverted-zero (x ∷ a) (y ∷ b) l h =
    ap₂ {C = List ℤ} (λ u v. u ∷ v) (ground arith) (inverted-zero a b (omega arith) (omega arith))

-- Two solutions of one length have distance 0 only if they are equal or each other's flip.
pub symmetric_hamming_validated-zero :
    (a b : List ℤ)
    → length a ≡ length b
    → symmetric_hamming_validated a b ≡ 0
    → (a ≡ b) ⊎ (a ≡ flip b)
unfolding symmetric_hamming_validated
symmetric_hamming_validated-zero a b l h = ground (arith, direct-zero a b l, inverted-zero a b l)
