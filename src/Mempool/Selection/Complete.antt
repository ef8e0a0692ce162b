-- ===== src/Mempool/Selection/Complete.antt =====
-- On valid vectors the selection always succeeds: the `expect` of the code is never reached.
use quip_validator.Prelude.{
  ltb, ℕ, zero, suc, ◌+◌, ◌-◌, ◌≤◌, ◌<◌, ◌≡◌, refl, ◌∙◌, arith, true, false, if◌then◌else◌, List,
  [], ◌∷◌, ◌++◌, length, get_or, min, max, none, some, is_some, ok, Bool-cases, inl, inr,
}
use quip_validator.Prelude.Int.{ℤ}
use quip_validator.Quantum.Spins.{validate_spins, ensure_valid_spins_iff}
use quip_validator.Quantum.Diversity.{symmetric_hamming, symmetric_hamming_validated}
use quip_validator.Quantum.Diversity.Average.{AreValid}
use quip_validator.Mempool.Selection.{
  Candidate, Next, better, visit, scan, mark, rounds, candidates, goal, select_from_best,
}
use quip_validator.Mempool.Selection.Distinct.{
  taken, Found, scan-Found, visit-old, visit-new, taken-mark, taken-candidates,
}

symmetric_hamming-ok :
    (n : ℕ) (a b : List ℤ)
    → length a ≡ n
    → length b ≡ n
    → validate_spins a ≡ true
    → validate_spins b ≡ true
    → symmetric_hamming a b ≡ ok (symmetric_hamming_validated a b)
unfolding symmetric_hamming
symmetric_hamming-ok n a b la lb va vb =
    ground (arith, (ensure_valid_spins_iff a).1 va, (ensure_valid_spins_iff b).1 vb)

-- The candidates hold valid vectors of `n` spins.
abbrev pub AreReady : ℕ → List Candidate → Type 0
AreReady n [] = Unit
AreReady n (c ∷ cs) = (length c.spins ≡ n) × (validate_spins c.spins ≡ true) × AreReady n cs

-- How many are left to take.
abbrev pub left : List Candidate → ℕ
left [] = 0
left (c ∷ cs) = (if c.chosen then 0 else 1) + left cs

better-some : (index d : ℕ) (next : Next) → is_some (better index d next) ≡ true
unfolding better
better-some index d none = refl
better-some index d (some (i, e)) = ground arith

-- A visit that succeeds: what it makes of the candidate, and that a free one yields a choice.
record Visits (index : ℕ) (last : List ℤ) (c : Candidate) (next : Next) : Type 0 where
  c' : Candidate
  next' : Next
  result : visit last index c next ≡ ok (c', next')
  spins : c'.spins ≡ c.spins
  chosen : c'.chosen ≡ c.chosen
  keeps : is_some next ≡ true → is_some next' ≡ true
  finds : c.chosen ≡ false → is_some next' ≡ true

visit-Visits :
    (n index : ℕ) (last : List ℤ) (c : Candidate) (next : Next)
    → length last ≡ n
    → validate_spins last ≡ true
    → length c.spins ≡ n
    → validate_spins c.spins ≡ true
    → Visits index last c next
visit-Visits n index last c next l v lc vc = elim (Bool-cases c.chosen) [
  | inl old ↦ record {
    c' = c;
    next' = next;
    result = visit-old last index c next old;
    spins = refl;
    chosen = refl;
    keeps = λ h. h;
    finds = λ h. absurd (cc);
  }
  | inr new ↦
      let d : ℕ = symmetric_hamming_validated c.spins last in
      record {
        c' = record c { distance = min c.distance d };
        next' = better index (min c.distance d) next;
        result =
            visit-new last index c next new
            ∙ rw (symmetric_hamming-ok n c.spins last lc l vc v) refl;
        spins = refl;
        chosen = refl;
        keeps = λ h. better-some index (min c.distance d) next;
        finds = λ h. better-some index (min c.distance d) next;
      }
]

record Scans (n k : ℕ) (last : List ℤ) (cs : List Candidate) (next : Next) : Type 0 where
  cs' : List Candidate
  next' : Next
  result : scan last k cs next ≡ ok (cs', next')
  ready : AreReady n cs'
  same_left : left cs' ≡ left cs
  keeps : is_some next ≡ true → is_some next' ≡ true
  finds : 0 < left cs → is_some next' ≡ true

scan-Scans :
    (n k : ℕ) (last : List ℤ) (cs : List Candidate) (next : Next)
    → length last ≡ n
    → validate_spins last ≡ true
    → AreReady n cs
    → Scans n k last cs next
unfolding scan
scan-Scans n k last [] next l v a = record {
  cs' = [];
  next' = next;
  result = refl;
  ready = tt;
  same_left = refl;
  keeps = λ h. h;
  finds = λ h. absurd (omega arith);
}
scan-Scans n k last (c ∷ cs) next l v a =
    step (visit-Visits n k last c next l v a.0 a.1)
      (λ mid. scan-Scans n (suc k) last cs mid l v a.2)
  where
    step :
        Visits k last c next
        → ((mid : Next) → Scans n (suc k) last cs mid)
        → Scans n k last (c ∷ cs) next
    step w rest =
        let s : Scans n (suc k) last cs w.next' = rest w.next' in
        record {
          cs' = w.c' ∷ s.cs';
          next' = s.next';
          result = rw (w.result, s.result) refl;
          ready = (rw w.spins a.0, rw w.spins a.1, s.ready);
          same_left = rw (w.chosen, s.same_left) refl;
          keeps = λ h. s.keeps (w.keeps h);
          finds = λ h. elim (Bool-cases c.chosen) [
            | inl old ↦ s.finds (ground arith)
            | inr new ↦ s.keeps (w.finds new)
          ];
        }

mark-AreReady : (n i : ℕ) (cs : List Candidate) → AreReady n cs → AreReady n (mark i cs)
unfolding mark
mark-AreReady n i [] a = tt
mark-AreReady n zero (c ∷ cs) a = a
mark-AreReady n (suc i) (c ∷ cs) a = (a.0, a.1, mark-AreReady n i cs a.2)

left-mark : (i : ℕ) (cs : List Candidate) → taken cs i ≡ false → left (mark i cs) + 1 ≡ left cs
unfolding mark
left-mark i [] h = cc
left-mark zero (c ∷ cs) h = ground arith
left-mark (suc i) (c ∷ cs) h = omega (arith, left-mark i cs h)

get_or-AreValid :
    (n i : ℕ) (ss : List (List ℤ))
    → AreValid n ss
    → i < length ss
    → (length (get_or ss i []) ≡ n) × (validate_spins (get_or ss i []) ≡ true)
get_or-AreValid n i [] v h = elim h [ ]
get_or-AreValid n zero (s ∷ ss) v h = (v.0, v.1)
get_or-AreValid n (suc i) (s ∷ ss) v h = get_or-AreValid n i ss v.2 (omega arith)

Found-free : (cs : List Candidate) (i d : ℕ) → Found 0 cs none (some (i, d)) → taken cs i ≡ false
Found-free cs i d (inl p) = absurd (cc)
Found-free cs i d (inr (j, p, free)) = let same : i ≡ j = ground arith in rw same free

is_some-split : (next : Next) → is_some next ≡ true → (i : ℕ) × (d : ℕ) × (next ≡ some (i, d))
is_some-split none h = absurd (cc)
is_some-split (some (i, d)) h = (i, d, refl)

module _ (n : ℕ) (solutions : List (List ℤ)) (valid : AreValid n solutions) where
  rounds_total :
      (k last : ℕ) (selected : List ℕ) (cs : List Candidate)
      → last < length solutions
      → AreReady n cs
      → ((j : ℕ) → taken cs j ≡ false → j < length solutions)
      → k ≤ left cs
      → (r : List ℕ) × (rounds solutions k last selected cs ≡ ok r)
  unfolding rounds
  rounds_total zero last selected cs p a b h = (selected, refl)
  rounds_total (suc k) last selected cs p a b h =
      let spins = get_or-AreValid n last solutions valid p in
      step (scan-Scans n 0 (get_or solutions last []) cs none spins.0 spins.1 a)
        (λ next cs'. rounds_total k next (selected ++ next ∷ []) cs')
    where
      step :
          Scans n 0 (get_or solutions last []) cs none
          → ((next : ℕ) (cs' : List Candidate)
              → next < length solutions
              → AreReady n cs'
              → ((j : ℕ) → taken cs' j ≡ false → j < length solutions)
              → k ≤ left cs'
              → (r : List ℕ) × (rounds solutions k next (selected ++ next ∷ []) cs' ≡ ok r))
          → (r : List ℕ) × (rounds solutions (suc k) last selected cs ≡ ok r)
      step s rest =
          let (i, d, e) = is_some-split s.next' (s.finds (omega arith)) in
          let (flags, found) =
            scan-Found (get_or solutions last []) 0 cs none s.cs' s.next' s.result in
          let free : taken cs i ≡ false = Found-free cs i d (rw e at found) in
          let (r, run) =
            rest i (mark i s.cs') (b i free) (mark-AreReady n i s.cs' s.ready)
              (λ j m. b j (ground (arith, taken-mark i j s.cs', flags j)))
              (omega (arith, left-mark i s.cs' (flags i ∙ free), s.same_left)) in
          let inside : ltb last (length solutions) ≡ true = ground (arith, p) in
          (r, rw (inside, s.result, e) run)

candidates-AreReady : (n : ℕ) (ss : List (List ℤ)) → AreValid n ss → AreReady n (candidates ss)
unfolding candidates
candidates-AreReady n [] v = tt
candidates-AreReady n (s ∷ ss) v = (v.0, v.1, candidates-AreReady n ss v.2)

left-candidates : (ss : List (List ℤ)) → left (candidates ss) ≡ length ss
unfolding candidates
left-candidates [] = refl
left-candidates (s ∷ ss) = omega (arith, left-candidates ss)

taken-candidates_within :
    (i : ℕ) (ss : List (List ℤ)) → i < length ss → taken (candidates ss) i ≡ false
unfolding candidates
taken-candidates_within i [] h = elim h [ ]
taken-candidates_within zero (s ∷ ss) h = refl
taken-candidates_within (suc i) (s ∷ ss) h = taken-candidates_within i ss (omega arith)

-- Vectors of valid spins and one length always have a selection from a best index in range: no error,
-- and neither the `expect` nor the indexing of the code traps.
pub select_from_best_total :
    (n : ℕ) (solutions : List (List ℤ)) (best target : ℕ)
    → AreValid n solutions
    → best < length solutions
    → (r : List ℕ) × (select_from_best solutions best target ≡ ok r)
unfolding select_from_best goal
select_from_best_total n solutions best target valid h =
    let cs = candidates solutions in
    let rest = left-mark best cs (taken-candidates_within best solutions h) in
    let (r, run) =
      rounds_total n solutions valid (min (max target 1) (length solutions) - 1) best (best ∷ [])
        (mark best cs) h (mark-AreReady n best cs (candidates-AreReady n solutions valid))
        (λ j m. taken-candidates solutions j (ground (arith, taken-mark best j cs)))
        (omega (arith, rest, left-candidates solutions)) in
    (r, ground (arith, run))
