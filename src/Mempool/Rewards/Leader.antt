-- ===== src/Mempool/Rewards/Leader.antt =====
-- The first of the ranked set is the best energy seen, and the leader's energy only improves.
use quip_validator.Prelude.{
  ℕ, zero, suc, ◌<◌, ◌≡◌, refl, arith, true, ◌==◌, List, [], ◌∷◌, ◌++◌, some, head?, Bool-cases,
  inl, inr,
}
use quip_validator.Prelude.Int.{ℤ, ◌≤ℤ◌, leb_ℤ, ltb_ℤ}
use quip_validator.Mempool.Types.{RankedSolver}
use quip_validator.Mempool.Rewards.{
  ranks, improve, insert_by_energy, sort_by_energy, merge_candidate, update_ranked_solvers,
}
use quip_validator.Mempool.Rewards.Ranking.{AtLeast, IsSorted, sort-IsSorted}

AtLeast-insert :
    (v : ℤ) (c : RankedSolver) (es : List RankedSolver)
    → AtLeast v (insert_by_energy c es)
    → (v ≤ℤ c.energy_milli) × AtLeast v es
unfolding insert_by_energy
AtLeast-insert v c [] l = (l.0, tt)
AtLeast-insert v c (e ∷ es) l = ground (arith, AtLeast-insert v c es)

AtLeast-sort : (v : ℤ) (es : List RankedSolver) → AtLeast v (sort_by_energy es) → AtLeast v es
unfolding sort_by_energy
AtLeast-sort v [] l = tt
AtLeast-sort v (e ∷ es) l =
    let (first, rest) = AtLeast-insert v e (sort_by_energy es) l in (first, AtLeast-sort v es rest)

AtLeast-improve :
    (v : ℤ) (c : RankedSolver) (es : List RankedSolver)
    → AtLeast v (improve c es)
    → AtLeast v es × (ranks c.solver es ≡ true → v ≤ℤ c.energy_milli)
unfolding improve ranks
AtLeast-improve v c [] l = (tt, λ h. cc)
AtLeast-improve v c (e ∷ es) l = ground (arith, AtLeast-improve v c es)

AtLeast-append :
    (v : ℤ) (c : RankedSolver) (es : List RankedSolver)
    → AtLeast v (es ++ c ∷ [])
    → AtLeast v es × (v ≤ℤ c.energy_milli)
AtLeast-append v c [] l = (tt, l.0)
AtLeast-append v c (e ∷ es) l = ground (arith, AtLeast-append v c es l.1)

AtLeast-merge :
    (v : ℤ) (c : RankedSolver) (es : List RankedSolver)
    → AtLeast v (merge_candidate c es)
    → AtLeast v es × (v ≤ℤ c.energy_milli)
unfolding merge_candidate
AtLeast-merge v c es l = ground (arith, AtLeast-improve v c es, AtLeast-append v c es)

insert-cons :
    (c : RankedSolver) (es : List RankedSolver)
    → (e : RankedSolver) × (rest : List RankedSolver) × (insert_by_energy c es ≡ e ∷ rest)
unfolding insert_by_energy
insert-cons c [] = (c, [], refl)
insert-cons c (e ∷ es) = elim (Bool-cases (leb_ℤ c.energy_milli e.energy_milli)) [
  | inl le ↦ (c, e ∷ es, rw le)
  | inr gt ↦ (e, insert_by_energy c es, rw gt)
]

sort-cons :
    (e : RankedSolver) (es : List RankedSolver)
    → (x : RankedSolver) × (rest : List RankedSolver) × (sort_by_energy (e ∷ es) ≡ x ∷ rest)
unfolding sort_by_energy
sort-cons e es = insert-cons e (sort_by_energy es)

append-cons :
    (c : RankedSolver) (es : List RankedSolver)
    → (x : RankedSolver) × (rest : List RankedSolver) × (es ++ c ∷ [] ≡ x ∷ rest)
append-cons c [] = (c, [], refl)
append-cons c (e ∷ es) = (e, es ++ c ∷ [], refl)

improve-cons :
    (c : RankedSolver) (es : List RankedSolver)
    → ranks c.solver es ≡ true
    → (x : RankedSolver) × (rest : List RankedSolver) × (improve c es ≡ x ∷ rest)
unfolding improve ranks
improve-cons c [] h = cc
improve-cons c (e ∷ es) h = elim (Bool-cases (e.solver == c.solver)) [
  | inl same ↦ elim (Bool-cases (ltb_ℤ c.energy_milli e.energy_milli)) [
    | inl lt ↦ (c, es, rw (same, lt))
    | inr ge ↦ (e, es, rw (same, ge))
  ]
  | inr other ↦ (e, improve c es, rw other)
]

merge-cons :
    (c : RankedSolver) (es : List RankedSolver)
    → (x : RankedSolver) × (rest : List RankedSolver) × (merge_candidate c es ≡ x ∷ rest)
unfolding merge_candidate
merge-cons c es = elim (Bool-cases (ranks c.solver es)) [
  | inl old ↦ rw old (improve-cons c es old)
  | inr new ↦ rw new (append-cons c es)
]

-- With room for one entry the updated set has a leader, whose energy is at most the candidate's and
-- at most that of every entry ranked before.
pub update_ranked_solvers_leads :
    (current : List RankedSolver) (c : RankedSolver) (limit : ℕ)
    → 0 < limit
    → (leader : RankedSolver) × (head? (update_ranked_solvers current c limit) ≡ some leader)
      × (leader.energy_milli ≤ℤ c.energy_milli)
      × AtLeast leader.energy_milli current
unfolding update_ranked_solvers
update_ranked_solvers_leads current c zero h = elim h [ ]
update_ranked_solvers_leads current c (suc n) h =
    let (m, ms, em) = merge-cons c current in
    let (x, rest, ex) = sort-cons m ms in
    let sorted : sort_by_energy (merge_candidate c current) ≡ x ∷ rest = rw em ex in
    let order : IsSorted (x ∷ rest) = rw sorted at (sort-IsSorted (merge_candidate c current)) in
    let least : AtLeast x.energy_milli (sort_by_energy (merge_candidate c current)) =
      rw sorted (omega arith, order.0) in
    let (old, new) = AtLeast-merge x.energy_milli c current (AtLeast-sort x.energy_milli _ least) in
    (x, rw sorted, new, old)
