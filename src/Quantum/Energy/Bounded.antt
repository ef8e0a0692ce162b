-- ===== src/Quantum/Energy/Bounded.antt =====
-- With `i32` fields and couplings, no more than a `u32` counts, the checked sums never overflow: a
-- valid solution on a valid topology always has an energy.
use quip_validator.Prelude.{
  ℕ, zero, suc, ◌+◌, ◌*◌, ◌^◌, ◌≤◌, ◌<◌, ◌≡◌, refl, arith, true, List, [], ◌∷◌, length, Option,
  none, some, is_some, ok, u32_max,
}
use quip_validator.Prelude.Int.{ℤ, pos, negsuc, pos_part, neg_part, ◌+ℤ◌, ◌*ℤ◌}
use quip_validator.Quantum.Spins.{is_spin, validate_spins, ensure_valid_spins_iff}
use quip_validator.Quantum.Topology.{
  TopologyIndex, EdgesKnown, len, position, new_index, new_index-known,
}
use quip_validator.Quantum.Energy.{
  spin_at, checked_add, validate_shape_lengths, add_fields, add_couplings,
  energy_of_solution_indexed, energy_of_solution,
}

-- The magnitude of an integer.
abbrev pub magnitude : ℤ → ℕ
magnitude a = pos_part a + neg_part a

-- The values of an `i32`, as far as magnitudes tell.
abbrev pub FitI32 : List ℤ → Type 0
FitI32 [] = Unit
FitI32 (a ∷ as') = (magnitude a ≤ 2 ^ 31) × FitI32 as'

magnitude-mul-spin : (a s : ℤ) → magnitude s ≤ 1 → magnitude (a *ℤ s) ≤ magnitude a
unfolding ◌*ℤ◌
magnitude-mul-spin a (pos zero) h = ground arith
magnitude-mul-spin a (pos (suc zero)) h = ground arith
magnitude-mul-spin a (pos (suc (suc n))) h = absurd (omega arith)
magnitude-mul-spin a (negsuc zero) h = ground arith
magnitude-mul-spin a (negsuc (suc n)) h = absurd (omega arith)

magnitude-spin_at :
    (solution : List ℤ) (p : ℕ)
    → validate_spins solution ≡ true
    → magnitude (spin_at solution p) ≤ 1
unfolding validate_spins is_spin
magnitude-spin_at [] p h = omega arith
magnitude-spin_at (s ∷ ss) zero h = ground arith
magnitude-spin_at (s ∷ ss) (suc p) h = ground (arith, magnitude-spin_at ss p)

checked_add-fits :
    (a b : ℤ)
    → magnitude a + magnitude b < 2 ^ 63
    → (checked_add a b ≡ ok (a +ℤ b)) × (magnitude (a +ℤ b) ≤ magnitude a + magnitude b)
unfolding checked_add ◌+ℤ◌
checked_add-fits a b h = (ground arith, ground arith)

module _ (solution : List ℤ) (valid : validate_spins solution ≡ true) where
  add_fields-fits :
      (p : ℕ) (energy : ℤ) (h : List ℤ) (bound : ℕ)
      → FitI32 h
      → magnitude energy + length h * 2 ^ 31 ≤ bound
      → bound < 2 ^ 63
      → (e : ℤ) × (add_fields solution p energy h ≡ ok e) × (magnitude e ≤ bound)
  unfolding add_fields
  add_fields-fits p energy [] bound f m b = (energy, refl, omega arith)
  add_fields-fits p energy (field ∷ h) bound f m b =
      let small =
        magnitude-mul-spin field (spin_at solution p) (magnitude-spin_at solution p valid) in
      let (added, grown) = checked_add-fits energy (field *ℤ spin_at solution p) (omega arith) in
      rw added (
        add_fields-fits (suc p) (energy +ℤ field *ℤ spin_at solution p) h bound f.1 (omega arith) b)

  add_couplings-fits :
      (t : TopologyIndex) (energy : ℤ) (es : List (ℕ × ℕ)) (js : List ℤ) (bound : ℕ)
      → EdgesKnown t es
      → FitI32 js
      → magnitude energy + length js * 2 ^ 31 ≤ bound
      → bound < 2 ^ 63
      → (e : ℤ) × (add_couplings t solution energy es js ≡ ok e) × (magnitude e ≤ bound)
  unfolding add_couplings
  add_couplings-fits t energy [] js bound k f m b = (energy, refl, omega arith)
  add_couplings-fits t energy (x ∷ es) [] bound k f m b = (energy, refl, omega arith)
  add_couplings-fits t energy (x ∷ es) (c ∷ js) bound k f m b =
      let (u, eu) = known (position x.0 t) k.0 in
      let (v, ev) = known (position x.1 t) k.1 in
      let first = magnitude-mul-spin c (spin_at solution u) (magnitude-spin_at solution u valid) in
      let second =
        magnitude-mul-spin (c *ℤ spin_at solution u) (spin_at solution v)
          (magnitude-spin_at solution v valid) in
      let term : ℤ = c *ℤ spin_at solution u *ℤ spin_at solution v in
      let (added, grown) = checked_add-fits energy term (omega arith) in
      rw (eu, ev, added) (add_couplings-fits t (energy +ℤ term) es js bound k.2 f.1 (omega arith) b)
    where
      known : (o : Option ℕ) → is_some o ≡ true → (p : ℕ) × (o ≡ some p)
      known none h = absurd (cc)
      known (some p) h = (p, refl)

shape-ok :
    (solution h : List ℤ) (edges : List (ℕ × ℕ)) (j : List ℤ) (n : ℕ)
    → 0 < n
    → length solution ≡ n
    → length h ≡ n
    → length j ≡ length edges
    → validate_shape_lengths solution h edges j n ≡ ok tt
unfolding validate_shape_lengths
shape-ok solution h edges j n p ls lh lj = ground arith

indexed-ok :
    (solution h : List ℤ) (edges : List (ℕ × ℕ)) (j : List ℤ) (t : TopologyIndex) (e e' : ℤ)
    → validate_shape_lengths solution h edges j (len t) ≡ ok tt
    → validate_spins solution ≡ true
    → add_fields solution 0 (pos 0) h ≡ ok e
    → add_couplings t solution e edges j ≡ ok e'
    → energy_of_solution_indexed solution h edges j t ≡ ok e'
unfolding energy_of_solution_indexed
indexed-ok solution h edges j t e e' shape valid fields couplings =
    rw (shape, (ensure_valid_spins_iff solution).1 valid, fields) couplings

-- A solution of valid spins, with fields and couplings of at most 2 ^ 31 in magnitude, whose
-- lengths fit a topology that builds, is not empty and has at most `u32_max` nodes and edges
-- together, is scored without an error.
pub energy_of_solution_total :
    (solution h : List ℤ) (edges : List (ℕ × ℕ)) (j : List ℤ) (nodes : List ℕ) {t : TopologyIndex}
    → new_index nodes edges ≡ ok t
    → 0 < length nodes
    → length nodes + length edges ≤ u32_max
    → length solution ≡ length nodes
    → length h ≡ length nodes
    → length j ≡ length edges
    → validate_spins solution ≡ true
    → FitI32 h
    → FitI32 j
    → (e : ℤ) × (energy_of_solution solution h edges j nodes ≡ ok e)
unfolding energy_of_solution
energy_of_solution_total solution h edges j nodes {t} built some_node few ls lh lj valid fh fj =
    let (size, known) = new_index-known nodes edges built in
    let (e, fields, small) =
      add_fields-fits solution valid 0 (pos 0) h (length h * 2 ^ 31) fh (omega arith)
        (omega arith) in
    let (e', couplings, _) =
      add_couplings-fits solution valid t e edges j (length h * 2 ^ 31 + length j * 2 ^ 31) known fj
        (omega arith) (omega arith) in
    let scored : energy_of_solution_indexed solution h edges j t ≡ ok e' =
      indexed-ok solution h edges j t e e'
        (shape-ok solution h edges j (len t) (omega arith) (omega arith) (omega arith) lj) valid
        fields couplings in
    let outer : validate_shape_lengths solution h edges j (length nodes) ≡ ok tt =
      shape-ok solution h edges j (length nodes) some_node ls lh lj in
    (e', finish outer scored)
  where
    finish :
        {e' : ℤ}
        → validate_shape_lengths solution h edges j (length nodes) ≡ ok tt
        → energy_of_solution_indexed solution h edges j t ≡ ok e'
        → energy_of_solution solution h edges j nodes ≡ ok e'
    finish outer scored = rw (outer, built) scored
