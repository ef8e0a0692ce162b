-- ===== src/Mempool/Rewards/Ranking.antt =====
-- The ranked set of an order: sorted by energy, one entry for each solver, bounded, led by the best.
use quip_validator.Prelude.{
  ℕ, zero, suc, ◌≤◌, ◌≡◌, refl, arith, false, ◌||◌, ◌==◌, List, [], ◌∷◌, ◌++◌, length, take,
  length-take-le, Bool-cases, inl, inr,
}
use quip_validator.Prelude.Int.{ℤ, ◌≤ℤ◌, leb_ℤ}
use quip_validator.Mempool.Types.{RankedSolver}
use quip_validator.Mempool.Rewards.{
  ranks, improve, insert_by_energy, sort_by_energy, merge_candidate, update_ranked_solvers,
}

-- Every entry has at least this energy.
abbrev pub AtLeast : ℤ → List RankedSolver → Type 0
AtLeast v [] = Unit
AtLeast v (e ∷ es) = (v ≤ℤ e.energy_milli) × AtLeast v es

abbrev pub IsSorted : List RankedSolver → Type 0
IsSorted [] = Unit
IsSorted (e ∷ es) = AtLeast e.energy_milli es × IsSorted es

-- No solver is ranked twice.
abbrev pub IsDistinct : List RankedSolver → Type 0
IsDistinct [] = Unit
IsDistinct (e ∷ es) = (ranks e.solver es ≡ false) × IsDistinct es

AtLeast-mono : (a b : ℤ) (es : List RankedSolver) → a ≤ℤ b → AtLeast b es → AtLeast a es
AtLeast-mono a b [] h l = tt
AtLeast-mono a b (e ∷ es) h l = (omega arith, AtLeast-mono a b es h l.1)

insert-AtLeast :
    (v : ℤ) (c : RankedSolver) (es : List RankedSolver)
    → v ≤ℤ c.energy_milli
    → AtLeast v es
    → AtLeast v (insert_by_energy c es)
unfolding insert_by_energy
insert-AtLeast v c [] h l = (h, tt)
insert-AtLeast v c (e ∷ es) h l = ground (arith, insert-AtLeast v c es h l.1)

insert-IsSorted :
    (c : RankedSolver) (es : List RankedSolver) → IsSorted es → IsSorted (insert_by_energy c es)
unfolding insert_by_energy
insert-IsSorted c [] s = (tt, tt)
insert-IsSorted c (e ∷ es) s = elim (Bool-cases (leb_ℤ c.energy_milli e.energy_milli)) [
  | inl le ↦
      rw le ((ground arith, AtLeast-mono c.energy_milli e.energy_milli es (ground arith) s.0), s)
  | inr gt ↦ rw gt (insert-AtLeast e.energy_milli c es (ground arith) s.0, insert-IsSorted c es s.1)
]

pub sort-IsSorted : (es : List RankedSolver) → IsSorted (sort_by_energy es)
unfolding sort_by_energy
sort-IsSorted [] = tt
sort-IsSorted (e ∷ es) = insert-IsSorted e (sort_by_energy es) (sort-IsSorted es)

take-AtLeast : (v : ℤ) (n : ℕ) (es : List RankedSolver) → AtLeast v es → AtLeast v (take n es)
take-AtLeast v zero es h = tt
take-AtLeast v (suc n) [] h = tt
take-AtLeast v (suc n) (e ∷ es) h = (h.0, take-AtLeast v n es h.1)

take-IsSorted : (n : ℕ) (es : List RankedSolver) → IsSorted es → IsSorted (take n es)
take-IsSorted zero es h = tt
take-IsSorted (suc n) [] h = tt
take-IsSorted (suc n) (e ∷ es) h = (take-AtLeast e.energy_milli n es h.0, take-IsSorted n es h.1)

-- Which solvers are ranked, under each step of an update.
ranks-insert :
    (k : ℕ) (c : RankedSolver) (es : List RankedSolver)
    → ranks k (insert_by_energy c es) ≡ (c.solver == k || ranks k es)
unfolding ranks insert_by_energy
ranks-insert k c [] = refl
ranks-insert k c (e ∷ es) = ground (arith, ranks-insert k c es)

ranks-sort : (k : ℕ) (es : List RankedSolver) → ranks k (sort_by_energy es) ≡ ranks k es
unfolding ranks sort_by_energy
ranks-sort k [] = refl
ranks-sort k (e ∷ es) = ground (arith, ranks-insert k e (sort_by_energy es), ranks-sort k es)

ranks-improve :
    (k : ℕ) (c : RankedSolver) (es : List RankedSolver) → ranks k (improve c es) ≡ ranks k es
unfolding ranks improve
ranks-improve k c [] = refl
ranks-improve k c (e ∷ es) = ground (arith, ranks-improve k c es)

ranks-append :
    (k : ℕ) (c : RankedSolver) (es : List RankedSolver)
    → ranks k (es ++ c ∷ []) ≡ (ranks k es || c.solver == k)
unfolding ranks
ranks-append k c [] = ground arith
ranks-append k c (e ∷ es) = ground (arith, ranks-append k c es)

ranks-take : (k n : ℕ) (es : List RankedSolver) → ranks k es ≡ false → ranks k (take n es) ≡ false
unfolding ranks
ranks-take k zero es h = refl
ranks-take k (suc n) [] h = refl
ranks-take k (suc n) (e ∷ es) h = ground (arith, ranks-take k n es)

insert-IsDistinct :
    (c : RankedSolver) (es : List RankedSolver)
    → ranks c.solver es ≡ false
    → IsDistinct es
    → IsDistinct (insert_by_energy c es)
unfolding insert_by_energy ranks
insert-IsDistinct c [] h d = (refl, tt)
insert-IsDistinct c (e ∷ es) h d =
    ground (arith, insert-IsDistinct c es, ranks-insert e.solver c es)

sort-IsDistinct : (es : List RankedSolver) → IsDistinct es → IsDistinct (sort_by_energy es)
unfolding sort_by_energy
sort-IsDistinct [] d = tt
sort-IsDistinct (e ∷ es) d =
    insert-IsDistinct e (sort_by_energy es) (rw (ranks-sort e.solver es) d.0)
      (sort-IsDistinct es d.1)

improve-IsDistinct :
    (c : RankedSolver) (es : List RankedSolver) → IsDistinct es → IsDistinct (improve c es)
unfolding improve
improve-IsDistinct c [] d = tt
improve-IsDistinct c (e ∷ es) d =
    ground (arith, improve-IsDistinct c es d.1, ranks-improve e.solver c es)

append-IsDistinct :
    (c : RankedSolver) (es : List RankedSolver)
    → ranks c.solver es ≡ false
    → IsDistinct es
    → IsDistinct (es ++ c ∷ [])
unfolding ranks
append-IsDistinct c [] h d = (refl, tt)
append-IsDistinct c (e ∷ es) h d =
    ground (arith, append-IsDistinct c es, ranks-append e.solver c es)

take-IsDistinct : (n : ℕ) (es : List RankedSolver) → IsDistinct es → IsDistinct (take n es)
take-IsDistinct zero es d = tt
take-IsDistinct (suc n) [] d = tt
take-IsDistinct (suc n) (e ∷ es) d = (ranks-take e.solver n es d.0, take-IsDistinct n es d.1)

merge-IsDistinct :
    (c : RankedSolver) (es : List RankedSolver) → IsDistinct es → IsDistinct (merge_candidate c es)
unfolding merge_candidate
merge-IsDistinct c es d = ground (arith, improve-IsDistinct c es d, append-IsDistinct c es)

-- An update of a ranked set with one entry for each solver is sorted by energy, keeps one entry for
-- each solver, and holds at most `limit` entries.
pub update_ranked_solvers-IsRanked :
    (current : List RankedSolver) (c : RankedSolver) (limit : ℕ)
    → IsDistinct current
    → let next = update_ranked_solvers current c limit in
      IsSorted next × IsDistinct next × (length next ≤ limit)
unfolding update_ranked_solvers
update_ranked_solvers-IsRanked current c limit d = (
  take-IsSorted limit _ (sort-IsSorted (merge_candidate c current)),
  take-IsDistinct limit _ (sort-IsDistinct _ (merge-IsDistinct c current d)),
  length-take-le limit _,
)
