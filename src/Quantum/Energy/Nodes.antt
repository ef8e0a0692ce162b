-- ===== src/Quantum/Energy/Nodes.antt =====
-- The energy in terms of the nodes, without an index (crates/quantum-validation/src/energy.rs).
use quip_validator.Prelude.{
  ℕ, suc, ◌+◌, ◌==◌, ◌≡◌, refl, ap, ◌∙◌, arith, true, false, if◌then◌else◌, List, [], ◌∷◌, contains,
  length, All, some, ok, Option-cases, Bool-cases, inl, inr, >>=-eq-ok, >>-eq-ok,
}
use quip_validator.Prelude.Int.{ℤ, pos, ◌+ℤ◌, ◌*ℤ◌}
use quip_validator.Quantum.Topology.{TopologyIndex, new_index, position}
use quip_validator.Quantum.Topology.Numbering.{place_from, place_from-contains, new_index-numbers}
use quip_validator.Quantum.Energy.{spin_at, validate_shape_lengths, energy_of_solution}
use quip_validator.Quantum.Energy.Exact.{
  field_sum, pair_term, coupling_sum, energy_of_solution_indexed-exact,
}

-- The spin that a solution gives to a node, found by walking along the list of nodes.
unfoldable pub node_spin : List ℤ → List ℕ → ℕ → ℤ
node_spin [] nodes k = pos 0
node_spin (s ∷ solution) [] k = pos 0
node_spin (s ∷ solution) (n ∷ nodes) k = if n == k then s else node_spin solution nodes k

-- The sum over the edges of the coupling and the spins of both ends.
unfoldable pub edge_sum : List ℤ → List ℕ → List (ℕ × ℕ) → List ℤ → ℤ
unfolding node_spin
edge_sum solution nodes [] j = pos 0
edge_sum solution nodes (e ∷ es) [] = pos 0
edge_sum solution nodes (e ∷ es) (coupling ∷ j) =
    coupling *ℤ node_spin solution nodes e.0 *ℤ node_spin solution nodes e.1
    +ℤ edge_sum solution nodes es j

place_from-spin :
    (at k : ℕ) (solution : List ℤ) (nodes : List ℕ) (p : ℕ)
    → place_from at k nodes ≡ some p
    → (i : ℕ) × (p ≡ at + i) × (node_spin solution nodes k ≡ spin_at solution i)
unfolding place_from node_spin
place_from-spin at k solution [] p h = absurd (cc)
place_from-spin at k solution (n ∷ nodes) p h = elim (Bool-cases (n == k)) [
  | inl here ↦
      let found : some at ≡ some p = rw here at h in
      (0, (let same : at ≡ p = cc in omega (arith, same)), first solution here)
  | inr on ↦
      let (i, place, spin) = place_from-spin (suc at) k (rest solution) nodes p (rw on at h) in
      (suc i, omega (arith, place), next solution on i spin)
]
  where
    rest : List ℤ → List ℤ
    rest [] = []
    rest (s ∷ ss) = ss

    first : (ss : List ℤ) → (n == k) ≡ true → node_spin ss (n ∷ nodes) k ≡ spin_at ss 0
    first [] here = refl
    first (s ∷ ss) here = rw here refl

    next :
        (ss : List ℤ)
        → (n == k) ≡ false
        → (i : ℕ) → node_spin (rest ss) nodes k ≡ spin_at (rest ss) i
        → node_spin ss (n ∷ nodes) k ≡ spin_at ss (suc i)
    next [] on i spin = refl
    next (s ∷ ss) on i spin = rw on spin

module _ (solution : List ℤ) (nodes : List ℕ) (t : TopologyIndex)
    (place : (k : ℕ) → position k t ≡ place_from 0 k nodes) where
  position-spin :
      (k : ℕ)
      → contains k nodes ≡ true
      → (p : ℕ) × (position k t ≡ some p) × (node_spin solution nodes k ≡ spin_at solution p)
  position-spin k listed = elim (Option-cases (place_from 0 k nodes)) [
    | inl missing ↦ absurd (ground (arith, place_from-contains 0 k nodes, missing, listed))
    | inr (p, found) ↦
        let (i, same, spin) = place_from-spin 0 k solution nodes p found in
        let at_p : i ≡ p = omega (arith, same) in
        (p, place k ∙ found, spin ∙ ap (spin_at solution) at_p)
  ]

  coupling_sum-edges :
      (edges : List (ℕ × ℕ)) (j : List ℤ)
      → All (λ e. (contains e.0 nodes ≡ true) × (contains e.1 nodes ≡ true)) edges
      → coupling_sum t solution edges j ≡ edge_sum solution nodes edges j
  unfolding coupling_sum pair_term edge_sum
  coupling_sum-edges [] j known = refl
  coupling_sum-edges (e ∷ es) [] known = refl
  coupling_sum-edges (e ∷ es) (coupling ∷ j) (ends, known) =
      let (u, at_u, spin_u) = position-spin e.0 ends.0 in
      let (v, at_v, spin_v) = position-spin e.1 ends.1 in
      rw (at_u, at_v, spin_u, spin_v)
        (ap (λ (x : ℤ). coupling *ℤ spin_at solution u *ℤ spin_at solution v +ℤ x)
          (coupling_sum-edges es j known))

-- The energy that is scored from a list of nodes is the sum, over unbounded integers, of the fields
-- with their spins and, over the edges, of the coupling and the spins of the two nodes that it joins.
pub energy_of_solution-exact :
    (solution h : List ℤ) (edges : List (ℕ × ℕ)) (j : List ℤ) (nodes : List ℕ) {e : ℤ}
    → energy_of_solution solution h edges j nodes ≡ ok e
    → e ≡ field_sum solution 0 h +ℤ edge_sum solution nodes edges j
unfolding energy_of_solution
energy_of_solution-exact solution h edges j nodes r =
    let (t, built, scored) =
      >>=-eq-ok (new_index nodes edges) _
        (>>-eq-ok (validate_shape_lengths solution h edges j (length nodes)) _ r) in
    let (place, distinct, size, known) = new_index-numbers nodes edges built in
    energy_of_solution_indexed-exact solution h edges j t scored
    ∙ ap (λ (x : ℤ). field_sum solution 0 h +ℤ x)
        (coupling_sum-edges solution nodes t place edges j known)
