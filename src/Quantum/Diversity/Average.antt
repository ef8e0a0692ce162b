-- ===== src/Quantum/Diversity/Average.antt =====
-- The diversity of a set: it is at most 500, since a distance is at most half a length.
use native.Mathlib.Nat.{mul-le-mul_left, div-add-mod}
use quip_validator.Prelude.{
  ℕ, suc, ◌+◌, ◌*◌, ◌/◌, ◌%◌, ◌^◌, ◌≤◌, ◌<◌, ◌≡◌, refl, ap, sym, ◌∙◌, arith, true, not, ◌==◌, leb,
  Bool-cases, inl, inr, List, [], ◌∷◌, length, Result, ok, err, ensure, u64_max, >>=-eq-ok,
  >>-eq-ok, >>-ok_left, ensure-eq-ok,
}
use native.Mathlib.Decide.{dec_lt}
use quip_validator.Prelude.Int.{ℤ}
use quip_validator.Quantum.Errors.{ValidationError, trapped, milli_scale, round_div_u64}
use quip_validator.Quantum.Spins.{
  validate_spins, validate_solution_set, ensure_valid_spins, ensure_valid_spins_iff,
}
use quip_validator.Quantum.Diversity.{
  distances_to, total_distance, pair_count, average, calculate_diversity,
  ensure_valid_solution_inputs, first_fault, lift,
}
use quip_validator.Quantum.Diversity.Distance.{symmetric_hamming_validated-le}

-- Solutions of `n` valid spins each.
abbrev pub AreValid : ℕ → List (List ℤ) → Type 0
AreValid n [] = Unit
AreValid n (s ∷ ss) = (length s ≡ n) × (validate_spins s ≡ true) × AreValid n ss

validate_solution_set-AreValid :
    (n : ℕ) (ss : List (List ℤ)) → validate_solution_set n ss ≡ true → AreValid n ss
unfolding validate_solution_set
validate_solution_set-AreValid n [] h = tt
validate_solution_set-AreValid n (s ∷ ss) h = ground (arith, validate_solution_set-AreValid n ss)

AreValid-validate_solution_set :
    (n : ℕ) (ss : List (List ℤ)) → AreValid n ss → validate_solution_set n ss ≡ true
unfolding validate_solution_set
AreValid-validate_solution_set n [] h = refl
AreValid-validate_solution_set n (s ∷ ss) h =
    ground (arith, AreValid-validate_solution_set n ss h.2)

-- The quick check and the walk agree: a set that fails the first has a fault.
first_fault-AreValid : (n : ℕ) (ss : List (List ℤ)) → first_fault n ss ≡ ok tt → AreValid n ss
unfolding first_fault
first_fault-AreValid n [] h = tt
first_fault-AreValid n (s ∷ ss) h =
    let rest = >>-eq-ok (ensure (length s == n) _) _ h in
    let later = >>-eq-ok (ensure_valid_spins s) _ rest in
    let size = ensure-eq-ok (length s == n) _ (>>-ok_left (ensure (length s == n) _) _ h) in
    let spins = (ensure_valid_spins_iff s).0 (>>-ok_left (ensure_valid_spins s) _ rest) in
    (ground arith, spins, first_fault-AreValid n ss later)

distances_to-le :
    (n : ℕ) (a : List ℤ) (ss : List (List ℤ))
    → length a ≡ n
    → validate_spins a ≡ true
    → AreValid n ss
    → 2 * distances_to a ss ≤ length ss * n
unfolding distances_to
distances_to-le n a [] l v h = omega arith
distances_to-le n a (s ∷ ss) l v h =
    omega (
      arith,
      symmetric_hamming_validated-le a s v h.1 (l ∙ sym h.0),
      distances_to-le n a ss l v h.2,
    )

total_distance-le :
    (n : ℕ) (ss : List (List ℤ)) → AreValid n ss → 2 * total_distance ss ≤ pair_count ss * n
unfolding total_distance pair_count
total_distance-le n [] h = omega arith
total_distance-le n (s ∷ ss) h =
    omega (arith, distances_to-le n s ss h.0 h.1 h.2, total_distance-le n ss h.2)

quotient-le : (q k d : ℕ) → 0 < d → d * q ≤ k * d + d / 2 → q ≤ k
quotient-le q k d p h = elim (dec_lt k q) [
  | yes lt ↦ absurd (let more : d * suc k ≤ d * q = mul-le-mul_left d lt in omega arith)
  | no ge ↦ omega arith
]

-- Rounding to the nearest keeps a bound that is a whole multiple.
round_div_u64-le : (k a d : ℕ) → 0 < d → a ≤ k * d → round_div_u64 a d ≤ k
unfolding round_div_u64
round_div_u64-le k a d p h =
    let sum : ℕ = (a + d / 2) % 2 ^ 64 in
    let split : d * (sum / d) + sum % d ≡ sum = div-add-mod sum d in
    quotient-le (sum / d) k d p (omega arith)

average-le :
    (total pairs n : ℕ) {v : ℕ} → 2 * total ≤ pairs * n → average total pairs n ≡ ok v → v ≤ 500
unfolding average
average-le total pairs n {v} h r =
    let checked = >>-eq-ok (ensure (leb (total * milli_scale) u64_max) _) _ r in
    let sized = >>-eq-ok (ensure (leb (pairs * n) u64_max) _) _ checked in
    let nonzero =
      ensure-eq-ok (not (pairs * n == 0)) trapped
        (>>-ok_left (ensure (not (pairs * n == 0)) trapped) _ sized) in
    let value = >>-eq-ok (ensure (not (pairs * n == 0)) trapped) _ sized in
    let rounded =
      round_div_u64-le 500 (total * milli_scale) (pairs * n) (ground arith) (omega arith) in
    let same : round_div_u64 (total * milli_scale) (pairs * n) % 2 ^ 32 ≡ v = cc in omega arith

ensure_valid_solution_inputs-AreValid :
    (a : List ℤ) (ss : List (List ℤ)) {n : ℕ}
    → ensure_valid_solution_inputs a ss ≡ ok n
    → (n ≡ length a) × AreValid (length a) (a ∷ ss)
unfolding ensure_valid_solution_inputs
ensure_valid_solution_inputs-AreValid a ss h =
    elim (Bool-cases (validate_solution_set (length a) (a ∷ ss))) [
      | inl good ↦
          let same = rw good at h in (cc, validate_solution_set-AreValid (length a) (a ∷ ss) good)
      | inr bad ↦
          let walked = rw bad at h in
          (
            cc (>>-eq-ok (first_fault (length a) (a ∷ ss)) _ walked),
            first_fault-AreValid (length a) (a ∷ ss)
                (>>-ok_left (first_fault (length a) (a ∷ ss)) _ walked),
          )
    ]

pub lift-eq-ok : {A : Type 0} (r : Result ValidationError A) {a : A} → lift r ≡ ok a → r ≡ ok a
lift-eq-ok (ok a) h = cc
lift-eq-ok (err e) h = cc

-- The milli diversity of any set of solutions that is accepted is at most 500.
pub calculate_diversity-le : (ss : List (List ℤ)) {v : ℕ} → calculate_diversity ss ≡ ok v → v ≤ 500
unfolding calculate_diversity
calculate_diversity-le [] h = ground arith
calculate_diversity-le (a ∷ []) h = ground arith
calculate_diversity-le (a ∷ b ∷ rest) {v} h =
    let (n, inputs, averaged) = >>=-eq-ok (lift (ensure_valid_solution_inputs a (b ∷ rest))) _ h in
    let (size, valid) = ensure_valid_solution_inputs-AreValid a (b ∷ rest) (lift-eq-ok _ inputs) in
    average-le (total_distance (a ∷ b ∷ rest)) (pair_count (a ∷ b ∷ rest)) n {v = v}
      (rw size (total_distance-le (length a) (a ∷ b ∷ rest) valid)) averaged

inputs-ok :
    (a : List ℤ) (ss : List (List ℤ))
    → validate_solution_set (length a) (a ∷ ss) ≡ true
    → ensure_valid_solution_inputs a ss ≡ ok (length a)
unfolding ensure_valid_solution_inputs
inputs-ok a ss h = rw h

average-ok :
    (total pairs n : ℕ)
    → total * milli_scale ≤ u64_max
    → pairs * n ≤ u64_max
    → 0 < pairs * n
    → average total pairs n ≡ ok (round_div_u64 (total * milli_scale) (pairs * n) % 2 ^ 32)
unfolding average
average-ok total pairs n a b c = ground arith

pair_count-pos : (a b : List ℤ) (rest : List (List ℤ)) → 0 < pair_count (a ∷ b ∷ rest)
unfolding pair_count
pair_count-pos a b rest = omega arith

mul-pos : (a b : ℕ) → 0 < a → 0 < b → 0 < a * b
mul-pos a b p q = grind arith

-- Solutions of one positive length and valid spins, whose number of pairs times that length times
-- 1000 fits a `u64`, have a diversity: no error and no trap.
pub calculate_diversity_total :
    (n : ℕ) (ss : List (List ℤ))
    → 0 < n
    → AreValid n ss
    → pair_count ss * n * milli_scale ≤ u64_max
    → (v : ℕ) × (calculate_diversity ss ≡ ok v)
unfolding calculate_diversity
calculate_diversity_total n [] p h few = (0, refl)
calculate_diversity_total n (a ∷ []) p h few = (0, refl)
calculate_diversity_total n (a ∷ b ∷ rest) p h few =
    let ss = a ∷ b ∷ rest in
    let checked : validate_solution_set (length a) ss ≡ true =
      rw h.0 (AreValid-validate_solution_set n ss h) in
    let inputs : ensure_valid_solution_inputs a (b ∷ rest) ≡ ok (length a) =
      inputs-ok a (b ∷ rest) checked in
    let size : pair_count ss * length a ≡ pair_count ss * n =
      ap (λ (k : ℕ). pair_count ss * k) h.0 in
    let half = total_distance-le n ss h in
    let some_pair : 0 < pair_count ss * n = mul-pos (pair_count ss) n (pair_count-pos a b rest) p in
    (
      round_div_u64 (total_distance ss * milli_scale) (pair_count ss * length a) % 2 ^ 32,
      rw inputs (
          average-ok (total_distance ss) (pair_count ss) (length a) (omega arith) (omega arith)
            (omega arith)),
    )
