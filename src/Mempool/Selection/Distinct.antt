-- ===== src/Mempool/Selection/Distinct.antt =====
-- What is selected: the best first, no index twice, and exactly as many as asked for.
use quip_validator.Prelude.{
  ℕ, zero, suc, ◌+◌, ◌<◌, ◌==◌, ltb, ◌≡◌, refl, ap, sym, ◌∙◌, arith, Bool, true, false, ◌||◌, List,
  [], ◌∷◌, ◌++◌, length, length-append, get_or, min, max, head?, contains, AreDistinct,
  contains-append, Option, none, some, ok, ◌>>=◌, ensure, ok_or, >>=-elim, >>-eq-ok, >>-ok_left,
  ensure-eq-ok, ok_or-eq-ok, Bool-cases, inl, inr, ◌⊎◌,
}
use quip_validator.Prelude.Int.{ℤ}
use quip_validator.Quantum.Errors.{trapped}
use quip_validator.Quantum.Diversity.{symmetric_hamming, lift}
use quip_validator.Quantum.Diversity.Average.{lift-eq-ok}
use quip_validator.Mempool.Selection.{
  Candidate, Next, better, visit, scan, mark, rounds, candidates, goal, select_from_best,
}

-- Whether an index is taken; one out of range counts as taken.
abbrev pub taken : List Candidate → ℕ → Bool
taken [] j = true
taken (c ∷ cs) zero = c.chosen
taken (c ∷ cs) (suc j) = taken cs j

pub append-AreDistinct :
    (x : ℕ) (xs : List ℕ) → contains x xs ≡ false → AreDistinct xs → AreDistinct (xs ++ x ∷ [])
append-AreDistinct x [] h d = (refl, tt)
append-AreDistinct x (y ∷ xs) h d =
    ground (arith, append-AreDistinct x xs, contains-append y xs (x ∷ []))

pub taken-mark : (i j : ℕ) (cs : List Candidate) → taken (mark i cs) j ≡ (i == j || taken cs j)
unfolding mark
taken-mark i j [] = ground arith
taken-mark zero zero (c ∷ cs) = refl
taken-mark zero (suc j) (c ∷ cs) = ground arith
taken-mark (suc i) zero (c ∷ cs) = ground arith
taken-mark (suc i) (suc j) (c ∷ cs) = ground (arith, taken-mark i j cs)

abbrev pub index_of : Next → Option ℕ
index_of none = none
index_of (some (i, d)) = some i

better-index :
    (index d : ℕ) (next : Next)
    → (index_of (better index d next) ≡ index_of next)
      ⊎ (index_of (better index d next) ≡ some index)
unfolding better
better-index index d none = inr refl
better-index index d (some (i, e)) = ground arith

pub visit-old :
    (last : List ℤ) (index : ℕ) (c : Candidate) (next : Next)
    → c.chosen ≡ true
    → visit last index c next ≡ ok (c, next)
unfolding visit
visit-old last index c next h = ground arith

pub visit-new :
    (last : List ℤ) (index : ℕ) (c : Candidate) (next : Next)
    → c.chosen ≡ false
    → visit last index c next ≡ (
        symmetric_hamming c.spins last >>= λ d.
        ok (record c { distance = min c.distance d }, better index (min c.distance d) next))
unfolding visit
visit-new last index c next h = ground arith

-- What is brought on to a visit or a scan: the same index, or one that is free.
abbrev pub Picks : Bool → ℕ → Next → Next → Type 0
Picks flag index next next' =
    (index_of next' ≡ index_of next) ⊎ ((flag ≡ false) × (index_of next' ≡ some index))

visit-index :
    (last : List ℤ) (index : ℕ) (c : Candidate) (next : Next) (c' : Candidate) (next' : Next)
    → visit last index c next ≡ ok (c', next')
    → (c'.chosen ≡ c.chosen) × Picks c.chosen index next next'
visit-index last index c next c' next' h = elim (Bool-cases c.chosen) [
  | inl old ↦ ground (arith, visit-old last index c next old)
  | inr new ↦
      >>=-elim (symmetric_hamming c.spins last) _ (sym (visit-new last index c next new) ∙ h)
        (λ d e r. ground (arith, better-index index (min c.distance d) next))
]

-- What a scan from index `k` on finds: the one that was brought, or a free one.
abbrev pub Found : ℕ → List Candidate → Next → Next → Type 0
Found k cs next next' =
    (index_of next' ≡ index_of next)
    ⊎ ((i : ℕ) × (index_of next' ≡ some (k + i)) × (taken cs i ≡ false))

Found-cons :
    (k : ℕ) (c : Candidate) (cs : List Candidate) (next mid next' : Next)
    → Picks c.chosen k next mid
    → Found (suc k) cs mid next'
    → Found k (c ∷ cs) next next'
Found-cons k c cs next mid next' (inl p) (inl q) = inl (q ∙ p)
Found-cons k c cs next mid next' (inr p) (inl q) = inr (0, q ∙ p.1 ∙ ap some (omega arith), p.0)
Found-cons k c cs next mid next' p (inr (i, q, free)) = inr (suc i, q ∙ ap some (omega arith), free)

pub scan-Found :
    (last : List ℤ) (k : ℕ) (cs : List Candidate) (next : Next) (cs' : List Candidate)
    (next' : Next)
    → scan last k cs next ≡ ok (cs', next')
    → ((j : ℕ) → taken cs' j ≡ taken cs j) × Found k cs next next'
unfolding scan
scan-Found last k [] next cs' next' h = (λ j. ground arith, ground arith)
scan-Found last k (c ∷ cs) next cs' next' h = >>=-elim (visit last k c next) _ h (λ v ev h1.
    >>=-elim (scan last (suc k) cs v.1) _ h1 (λ w ew h2.
      let (flag, picks) = visit-index last k c next v.0 v.1 ev in
      let (flags, found) = scan-Found last (suc k) cs v.1 w.0 w.1 ew in
      let same : (v.0 ∷ w.0 ≡ cs') × (w.1 ≡ next') = ground arith in
      (
        rw (← same.0) (λ j. taken-cons j v.0 c w.0 cs flag flags),
        rw (← same.1) (Found-cons k c cs next v.1 w.1 picks found),
      )))
  where
    taken-cons :
        (j : ℕ) (a b : Candidate) (as' bs : List Candidate)
        → a.chosen ≡ b.chosen
        → ((i : ℕ) → taken as' i ≡ taken bs i)
        → taken (a ∷ as') j ≡ taken (b ∷ bs) j
    taken-cons zero a b as' bs e es = e
    taken-cons (suc j) a b as' bs e es = es j

-- The selected indices are taken, and what is not taken is in range.
record Tracks (n : ℕ) (selected : List ℕ) (cs : List Candidate) : Type 0 where
  marked : (j : ℕ) → contains j selected ≡ true → taken cs j ≡ true
  in_range : (j : ℕ) → taken cs j ≡ false → j < n

Tracks-step :
    (n i : ℕ) (selected : List ℕ) (cs cs' : List Candidate)
    → Tracks n selected cs
    → ((j : ℕ) → taken cs' j ≡ taken cs j)
    → Tracks n (selected ++ i ∷ []) (mark i cs')
Tracks-step n i selected cs cs' t same = record {
  marked = λ j h.
      ground (arith, taken-mark i j cs', same j, t.marked j, contains-append j selected (i ∷ []));
  in_range = λ j h. t.in_range j (ground (arith, taken-mark i j cs', same j));
}

-- A run of the loop: distinct indices in range, behind those that it began with.
record Selects (n k : ℕ) (selected r : List ℕ) : Type 0 where
  pub distinct : AreDistinct r
  pub bounded : (j : ℕ) → contains j r ≡ true → j < n
  pub counted : length r ≡ length selected + k
  pub first : head? r ≡ head? selected

head?-append : (x : ℕ) (xs ys : List ℕ) → head? ((x ∷ xs) ++ ys) ≡ some x
head?-append x xs ys = refl

rounds-Selects :
    (n : ℕ) (solutions : List (List ℤ)) (k last x : ℕ) (selected : List ℕ) (cs : List Candidate)
    (r : List ℕ)
    → Tracks n (x ∷ selected) cs
    → AreDistinct (x ∷ selected)
    → ((j : ℕ) → contains j (x ∷ selected) ≡ true → j < n)
    → rounds solutions k last (x ∷ selected) cs ≡ ok r
    → Selects n k (x ∷ selected) r
unfolding rounds
rounds-Selects n solutions zero last x selected cs r t d b h =
    let same : x ∷ selected ≡ r = cc in
    rw (← same) (record { distinct = d; bounded = b; counted = omega arith; first = refl })
rounds-Selects n solutions (suc k) last x selected cs r t d b h =
    >>=-elim (lift (scan (get_or solutions last []) 0 cs none)) _
      (>>-eq-ok (ensure (ltb last (length solutions)) trapped) _ h)
      (λ v ev h1. >>=-elim (ok_or v.1 trapped) _ h1 (λ next en h2.
        let (flags, found) =
          scan-Found (get_or solutions last []) 0 cs none v.0 v.1 (lift-eq-ok _ ev) in
        let free : taken cs next.0 ≡ false =
          found-free next.0 next.1 cs v.1 (ok_or-eq-ok v.1 trapped en) found in
        let fresh : contains next.0 (x ∷ selected) ≡ false = ground (arith, t.marked next.0) in
        let ih =
          rounds-Selects n solutions k next.0 x (selected ++ next.0 ∷ []) (mark next.0 v.0) r
            (Tracks-step n next.0 (x ∷ selected) cs v.0 t flags)
            (append-AreDistinct next.0 (x ∷ selected) fresh d)
            (λ j m. grow j next.0 (x ∷ selected) m (b j) (t.in_range next.0 free)) h2 in
        record {
          distinct = ih.distinct;
          bounded = ih.bounded;
          counted = omega (arith, ih.counted, length-append selected (next.0 ∷ []));
          first = ih.first;
        }))
  where
    found-free :
        (i d : ℕ) (cs : List Candidate) (next : Next)
        → next ≡ some (i, d)
        → Found 0 cs none next
        → taken cs i ≡ false
    found-free i d cs next e (inl p) = absurd (cc (ap index_of e))
    found-free i d cs next e (inr (j, p, free)) =
        let here : some i ≡ some (0 + j) = sym (ap index_of e) ∙ p in
        let same : i ≡ j = ground arith in rw same free

    grow :
        (j i : ℕ) (xs : List ℕ)
        → contains j (xs ++ i ∷ []) ≡ true
        → (contains j xs ≡ true → j < n)
        → i < n
        → j < n
    grow j i xs m old new = ground (arith, contains-append j xs (i ∷ []))

pub taken-candidates :
    (solutions : List (List ℤ)) (j : ℕ)
    → taken (candidates solutions) j ≡ false
    → j < length solutions
unfolding candidates
taken-candidates [] j h = cc
taken-candidates (s ∷ ss) zero h = omega arith
taken-candidates (s ∷ ss) (suc j) h = omega (arith, taken-candidates ss j h)

-- A selection starts with the best vector, names no vector twice and none that is not there, and has
-- the size asked for: the target, at least one, at most all.
pub select_from_best-Selects :
    (solutions : List (List ℤ)) (best target : ℕ) (r : List ℕ)
    → select_from_best solutions best target ≡ ok r
    → AreDistinct r
      × ((j : ℕ) → contains j r ≡ true → j < length solutions)
      × (length r ≡ min (max target 1) (length solutions))
      × (head? r ≡ some best)
unfolding select_from_best goal
select_from_best-Selects solutions best target r h =
    let present =
      ensure-eq-ok (ltb best (length solutions)) trapped
        (>>-ok_left (ensure (ltb best (length solutions)) trapped) _ h) in
    let run = >>-eq-ok (ensure (ltb best (length solutions)) trapped) _ h in
    let s =
      rounds-Selects (length solutions) solutions _ best best [] (mark best (candidates solutions))
        r
        (record {
          marked = λ j m. ground (arith, taken-mark best j (candidates solutions));
          in_range = λ j m.
              taken-candidates solutions j
                (ground (arith, taken-mark best j (candidates solutions)));
        })
        (refl, tt) (λ j m. ground arith) run in
    (s.distinct, s.bounded, ground (arith, s.counted), s.first)
