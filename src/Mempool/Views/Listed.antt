-- ===== src/Mempool/Views/Listed.antt =====
-- What the view of the open orders lists (pallets/quantum-compute-mempool/src/lib.rs, `open_order_ids`).
use mathlib.Core.Path.{subst}
use quip_validator.Prelude.{
  ℕ, zero, suc, ◌≤◌, ◌<◌, ◌==◌, ==→eq, ◌≡◌, refl, ap, sym, ◌∙◌, arith, leb, leb→le, ltb→lt, ◌&&◌,
  &&-split, ◌||◌, Bool, true, List, [], ◌∷◌, length, take, contains, if◌then◌else◌, length-take-le,
  All, All-take, Option, none, some, min, Bool-cases, inl, inr, ◌⊎◌,
}
use quip_validator.Mempool.Types.{JobOrder, OrderStatus, opened, expired, closed}
use quip_validator.Mempool.Lifecycle.{effective_expiry, is_expired}
use quip_validator.Mempool.Finalise.{is_opened}
use quip_validator.Mempool.Invariant.{Inv}
use quip_validator.Mempool.State.{Config, State}
use quip_validator.Mempool.Views.{
  is_after, insert_id, sort_unstable, accepts, keep_open, open_order_ids,
}

abbrev pub IsAscending : List ℕ → Type 0
IsAscending [] = Unit
IsAscending (x ∷ xs) = All (λ y. x ≤ y) xs × IsAscending xs

All-insert_id : (P : ℕ → Type 0) (x : ℕ) (xs : List ℕ) → P x → All P xs → All P (insert_id x xs)
unfolding insert_id
All-insert_id P x [] p h = (p, tt)
All-insert_id P x (y ∷ ys) p h = elim (Bool-cases (leb x y)) [
  | inl le ↦ rw le (p, h)
  | inr gt ↦ rw gt (h.0, All-insert_id P x ys p h.1)
]

All-le : (x y : ℕ) (xs : List ℕ) → x ≤ y → All (λ z. y ≤ z) xs → All (λ z. x ≤ z) xs
All-le x y [] h a = tt
All-le x y (z ∷ zs) h a = (omega (arith, a.0), All-le x y zs h a.1)

insert_id-IsAscending : (x : ℕ) (xs : List ℕ) → IsAscending xs → IsAscending (insert_id x xs)
unfolding insert_id
insert_id-IsAscending x [] h = (tt, tt)
insert_id-IsAscending x (y ∷ ys) h = elim (Bool-cases (leb x y)) [
  | inl le ↦ rw le ((leb→le x y le, All-le x y ys (leb→le x y le) h.0), h)
  | inr gt ↦
      rw gt
        (All-insert_id (λ z. y ≤ z) x ys (ground (arith, gt)) h.0, insert_id-IsAscending x ys h.1)
]

sort_unstable-IsAscending : (xs : List ℕ) → IsAscending (sort_unstable xs)
unfolding sort_unstable
sort_unstable-IsAscending [] = tt
sort_unstable-IsAscending (x ∷ xs) =
    insert_id-IsAscending x (sort_unstable xs) (sort_unstable-IsAscending xs)

contains-insert_id :
    (k x : ℕ) (xs : List ℕ) → contains k (insert_id x xs) ≡ (x == k || contains k xs)
unfolding insert_id
contains-insert_id k x [] = refl
contains-insert_id k x (y ∷ ys) = let rest = contains-insert_id k x ys in ground (arith, rest)

contains-sort_unstable : (k : ℕ) (xs : List ℕ) → contains k (sort_unstable xs) ≡ contains k xs
unfolding sort_unstable
contains-sort_unstable k [] = refl
contains-sort_unstable k (x ∷ xs) =
    contains-insert_id k x (sort_unstable xs) ∙ ap (λ b. x == k || b) (contains-sort_unstable k xs)

take-IsAscending : (n : ℕ) (xs : List ℕ) → IsAscending xs → IsAscending (take n xs)
take-IsAscending zero xs h = tt
take-IsAscending (suc n) [] h = tt
take-IsAscending (suc n) (x ∷ xs) h = (All-take (λ y. x ≤ y) n xs h.0, take-IsAscending n xs h.1)

All-contains : (P : ℕ → Type 0) (k : ℕ) (xs : List ℕ) → All P xs → contains k xs ≡ true → P k
All-contains P k [] h listed = absurd (cc)
All-contains P k (x ∷ xs) h listed = elim (Bool-cases (x == k)) [
  | inl here ↦ subst P (==→eq x k here) h.0
  | inr on ↦ All-contains P k xs h.1 (ground (arith, on, listed))
]

contains-take : (k n : ℕ) (xs : List ℕ) → contains k (take n xs) ≡ true → contains k xs ≡ true
contains-take k zero xs h = absurd (cc)
contains-take k (suc n) [] h = h
contains-take k (suc n) (x ∷ xs) h = let rest = contains-take k n xs in ground (arith, rest, h)

-- What a cut of an ascending list leaves out is not before anything that it keeps.
take-keeps-or-fills :
    (k n : ℕ) (xs : List ℕ)
    → IsAscending xs
    → contains k xs ≡ true
    → (contains k (take n xs) ≡ true) ⊎ ((length (take n xs) ≡ n) × All (λ y. y ≤ k) (take n xs))
take-keeps-or-fills k zero xs up h = inr (refl, tt)
take-keeps-or-fills k (suc n) [] up h = absurd (cc)
take-keeps-or-fills k (suc n) (x ∷ xs) up h = elim (Bool-cases (x == k)) [
  | inl here ↦ inl (rw here refl)
  | inr on ↦
      let later : contains k xs ≡ true = ground (arith, on, h) in
      elim (take-keeps-or-fills k n xs up.1 later) [
        | inl kept ↦ inl (rw (on, kept) refl)
        | inr (full, before) ↦
            inr (ap suc full, (All-contains (λ y. x ≤ y) k xs up.0 later, before))
      ]
]

opened_of : (status : OrderStatus) → is_opened status ≡ true → status ≡ opened
opened_of opened h = refl
opened_of expired h = absurd (cc)
opened_of closed h = absurd (cc)

-- One id more, with the test of it and the test of the one that is looked for.
step :
    (id k : ℕ) (mine its listed : Bool) (kept : List ℕ)
    → (id ≡ k → mine ≡ its)
    → contains k kept ≡ (listed && its)
    → contains k (if mine then id ∷ kept else kept) ≡ ((id == k || listed) && its)
step id k mine its listed kept alike h = elim (Bool-cases (id == k)) [
  | inl here ↦ let same = alike (==→eq id k here) in ground (arith, here, same, h)
  | inr on ↦ ground (arith, on, h)
]

-- An id past the cursor.
abbrev pub After : Option ℕ → ℕ → Type 0
After none id = Unit
After (some cursor) id = cursor < id

is_after-After :
    (start : Option ℕ) (id : ℕ)
    → (is_after start id ≡ true → After start id) × (After start id → is_after start id ≡ true)
is_after-After none id = ((λ h. tt), λ h. refl)
is_after-After (some cursor) id = ((λ h. ltb→lt cursor id h), λ h. ground (arith, h))

module _ (c : Config) {B : Type 0} (start_after : Option ℕ) (s : State B) where
  -- An order that is stored, opened and before its effective expiry.
  abbrev pub IsRunning : JobOrder → Type 0
  IsRunning order =
      (order.status ≡ opened)
      × (s.block_number
          < effective_expiry c.last_block order.created_at order.first_solution_at order.timing)

  abbrev pub IsEligible : ℕ → Type 0
  IsEligible id =
      After start_after id × (order : JobOrder) × (s.job_orders id ≡ some order) × IsRunning order

  running :
      (order : JobOrder)
      → (accepts c (some order) s ≡ true → IsRunning order)
        × (IsRunning order → accepts c (some order) s ≡ true)
  unfolding is_expired
  running order = (
    (λ h.
        let (is, early) = &&-split (is_opened order.status) _ h in
        (opened_of order.status is, ground (arith, early))),
    λ (is, early). rw is (ground (arith, early)),
  )

  eligible :
      (id : ℕ)
      → ((is_after start_after id && accepts c (s.job_orders id) s) ≡ true → IsEligible id)
        × (IsEligible id → (is_after start_after id && accepts c (s.job_orders id) s) ≡ true)
  eligible id = (
    (λ h.
        let (past, fits) = &&-split (is_after start_after id) _ h in
        let (order, stored, runs) = found (s.job_orders id) fits in
        ((is_after-After start_after id).0 past, order, stored, runs)),
    λ (past, order, stored, runs).
        rw ((is_after-After start_after id).1 past, stored) ((running order).1 runs),
  )
    where
      found :
          (o : Option JobOrder)
          → accepts c o s ≡ true
          → (order : JobOrder) × (o ≡ some order) × IsRunning order
      found none h = absurd (cc)
      found (some order) h = (order, refl, (running order).0 h)

  contains-keep_open :
      (k : ℕ) (ids : List ℕ)
      → contains k (keep_open c start_after ids s)
        ≡ (contains k ids && (is_after start_after k && accepts c (s.job_orders k) s))
  unfolding keep_open
  contains-keep_open k [] = refl
  contains-keep_open k (id ∷ ids) =
      let rest = contains-keep_open k ids in
      let alike : id ≡ k
          → (is_after start_after id && accepts c (s.job_orders id) s)
            ≡ (is_after start_after k && accepts c (s.job_orders k) s) =
        ap (λ i. is_after start_after i && accepts c (s.job_orders i) s) in
      step id k _ _ (contains k ids) (keep_open c start_after ids s) alike rest

  -- In a state of the invariant, if the iteration visits exactly the keys of a map, the view of the open
  -- orders is in ascending order, has at most `limit` and at most 1000 ids, and lists only ids past the
  -- cursor of stored orders that are opened and before their effective expiry; and it lists each such id,
  -- unless it is full and lists nothing that comes after that id.
  pub open_order_ids_pages :
      ((ids : List ℕ) (k : ℕ) → contains k (c.iteration ids) ≡ contains k ids)
      → Inv s
      → (limit : ℕ)
      → let ids = open_order_ids c start_after limit s in
        IsAscending ids
        × (length ids ≤ min limit 1000)
        × ((id : ℕ) → contains id ids ≡ true → IsEligible id)
        × ((id : ℕ)
            → IsEligible id
            → (contains id ids ≡ true) ⊎ ((length ids ≡ min limit 1000) × All (λ y. y ≤ id) ids))
  unfolding open_order_ids
  open_order_ids_pages visits inv limit =
      let kept : List ℕ = keep_open c start_after (c.iteration s.open_orders) s in
      let up : IsAscending (sort_unstable kept) = sort_unstable-IsAscending kept in
      let is : (k : ℕ)
          → contains k (sort_unstable kept) ≡ (
              contains k s.open_orders
              && (is_after start_after k && accepts c (s.job_orders k) s)) =
        λ k.
          contains-sort_unstable k kept
          ∙ (contains-keep_open k (c.iteration s.open_orders)
              ∙ ap (λ b. b && (is_after start_after k && accepts c (s.job_orders k) s))
                  (visits s.open_orders k)) in
      (
        take-IsAscending (min limit 1000) (sort_unstable kept) up,
        length-take-le (min limit 1000) (sort_unstable kept),
        (λ id h.
            (eligible id).0
              (&&-split (contains id s.open_orders) _
                (sym (is id) ∙ contains-take id (min limit 1000) (sort_unstable kept) h)).1),
        λ id fits. take-keeps-or-fills id (min limit 1000) (sort_unstable kept) up (
            is id
            ∙ (let listed = open_listed id fits in
                let passes = (eligible id).1 fits in rw (listed, passes) refl)),
      )
    where
      open_listed : (id : ℕ) → IsEligible id → contains id s.open_orders ≡ true
      open_listed id (past, order, stored, (is, early)) = inv.indexed id ∙ (rw (stored, is) refl)
