-- ===== src/Mempool/Selection.antt =====
-- Diverse selection from the best vector (pallets/quantum-compute-mempool/src/selection.rs). The arrays
-- `chosen` and `distances` go along the solutions, one `Candidate` for each index.
pub mod Distinct
pub mod Complete
use quip_validator.Prelude.{
  ℕ, zero, suc, ◌+◌, ◌-◌, ltb, Bool, true, false, if◌then◌else◌, List, [], ◌∷◌, ◌++◌, map, length,
  get_or, min, max, Option, none, some, Result, ok, err, ◌>>=◌, ◌>>◌, ensure, ok_or, u32_max,
}
use quip_validator.Prelude.Int.{ℤ}
use quip_validator.Quantum.Errors.{ValidationError, Fault, invalid, trapped}
use quip_validator.Quantum.Diversity.{symmetric_hamming, lift}

pub record Candidate : Type 0 where
  pub spins : List ℤ
  pub chosen : Bool
  pub distance : ℕ

-- The candidate to take next: its index and its distance to the selected set.
abbrev pub Next : Type 0
Next = Option (ℕ × ℕ)

unfoldable pub better : ℕ → ℕ → Next → Next
better index distance none = some (index, distance)
better index distance (some (i, d)) = if ltb d distance then some (index, distance) else some (i, d)

-- One pass of the inner loop's body.
unfoldable pub visit : List ℤ → ℕ → Candidate → Next → Result ValidationError (Candidate × Next)
visit last index c next =
    if c.chosen
    then ok (c, next)
    else (symmetric_hamming c.spins last >>= λ d.
        ok (record c { distance = min c.distance d }, better index (min c.distance d) next))

unfoldable pub scan :
    List ℤ → ℕ → List Candidate → Next → Result ValidationError (List Candidate × Next)
scan last index [] next = ok ([], next)
scan last index (c ∷ cs) next =
    visit last index c next >>= λ v. scan last (suc index) cs v.1 >>= λ r. ok (v.0 ∷ r.0, r.1)

-- `chosen[index] = true`
unfoldable pub mark : ℕ → List Candidate → List Candidate
mark i [] = []
mark zero (c ∷ cs) = record c { chosen = true } ∷ cs
mark (suc i) (c ∷ cs) = c ∷ mark i cs

-- The outer loop: each round selects one more, so it is counted by the rounds that are left.
-- An index past the vectors is out of bounds.
unfoldable pub rounds : List (List ℤ) → ℕ → ℕ → List ℕ → List Candidate → Result Fault (List ℕ)
rounds solutions zero last selected cs = ok selected
rounds solutions (suc k) last selected cs =
    ensure (ltb last (length solutions)) trapped
    >> (lift (scan (get_or solutions last []) 0 cs none) >>= λ r. ok_or r.1 trapped >>= λ next.
        rounds solutions k next.0 (selected ++ next.0 ∷ []) (mark next.0 r.0))

unfoldable pub candidates : List (List ℤ) → List Candidate
candidates = map λ s. record { spins = s; chosen = false; distance = u32_max }

-- The number of vectors to select.
unfoldable pub goal : ℕ → List (List ℤ) → ℕ
goal target solutions = min (max target 1) (length solutions)

-- `chosen[best]` is an index out of bounds where `best` is.
unfoldable pub select_from_best : List (List ℤ) → ℕ → ℕ → Result Fault (List ℕ)
select_from_best solutions best target =
    ensure (ltb best (length solutions)) trapped
    >> rounds solutions (goal target solutions - 1) best (best ∷ [])
        (mark best (candidates solutions))
