-- ===== src/Emission/Schedule/Routes.antt =====
-- What valid routes give: different subnets, and shares that sum to the whole.
use quip_validator.Prelude.{
  All, ℕ, ◌+◌, ◌≤◌, ◌==◌, ◌≡◌, refl, arith, Bool, true, false, List, [], ◌∷◌, contains, put,
  if◌then◌else◌, Bool-cases, inl, inr, ==→eq,
}
use quip_validator.Emission.Schedule.{
  Config, Route, billion, check_routes, check_nonempty, valid_routes,
}

abbrev pub ids : List Route → List ℕ
ids [] = []
ids ((id, share) ∷ rs) = id ∷ ids rs

abbrev pub shares : List Route → ℕ
shares [] = 0
shares ((id, share) ∷ rs) = share + shares rs

abbrev pub IsDistinct : List Route → Type 0
IsDistinct [] = Unit
IsDistinct ((id, share) ∷ rs) = (contains id (ids rs) ≡ false) × IsDistinct rs

-- No id of the routes was seen.
abbrev pub AreNew : List ℕ → List Route → Type 0
AreNew seen [] = Unit
AreNew seen ((id, share) ∷ rs) = (contains id seen ≡ false) × AreNew seen rs

AreNew-tail : (k : ℕ) (seen : List ℕ) (rs : List Route) → AreNew (k ∷ seen) rs → AreNew seen rs
AreNew-tail k seen [] h = tt
AreNew-tail k seen ((id, share) ∷ rs) h = (ground (arith, h.0), AreNew-tail k seen rs h.1)

AreNew-head :
    (k : ℕ) (seen : List ℕ) (rs : List Route) → AreNew (k ∷ seen) rs → contains k (ids rs) ≡ false
AreNew-head k seen [] h = refl
AreNew-head k seen ((id, share) ∷ rs) h =
    let rest : contains k (ids rs) ≡ false = AreNew-head k seen rs h.1 in ground (arith, h.0, rest)

check_routes_gives :
    (seen : List ℕ) (sum : ℕ) (rs : List Route)
    → check_routes seen sum rs ≡ true
    → (sum + shares rs ≡ billion) × IsDistinct rs × AreNew seen rs
unfolding check_routes
check_routes_gives seen sum [] h = (ground (arith, h), tt, tt)
check_routes_gives seen sum ((id, share) ∷ rs) h =
    let rest = check_routes_gives (id ∷ seen) (sum + share) rs (ground (arith, h)) in
    (
      omega (arith, rest.0),
      (AreNew-head id seen rs rest.2, rest.1),
      (ground (arith, h), AreNew-tail id seen rs rest.2),
    )

check_nonempty_gives :
    (rs : List Route) (enabled : Bool)
    → check_nonempty rs enabled ≡ true
    → (shares rs ≤ billion) × IsDistinct rs
unfolding check_nonempty
check_nonempty_gives [] enabled h = (omega arith, tt)
check_nonempty_gives (r ∷ rs) enabled h =
    let parts = check_routes_gives [] 0 (r ∷ rs) h in (omega (arith, parts.0), parts.1)

pub valid_routes_gives :
    (c : Config) (rs : List Route) (enabled : Bool)
    → valid_routes c rs enabled ≡ true
    → (shares rs ≤ billion) × IsDistinct rs
unfolding valid_routes
valid_routes_gives c rs enabled h = check_nonempty_gives rs enabled (ground (arith, h))

-- What the routed subnets hold in all.
abbrev pub sum_of : (ℕ → ℕ) → List Route → ℕ
sum_of f [] = 0
sum_of f ((id, share) ∷ rs) = f id + sum_of f rs

sum_of-put_other :
    (f : ℕ → ℕ) (k v : ℕ) (rs : List Route)
    → contains k (ids rs) ≡ false
    → sum_of (put f k v) rs ≡ sum_of f rs
sum_of-put_other f k v [] h = refl
sum_of-put_other f k v ((id, share) ∷ rs) h =
    let rest : sum_of (put f k v) rs ≡ sum_of f rs =
      sum_of-put_other f k v rs (ground (arith, h)) in
    ground (arith, h, rest)

-- More to one of the subnets is more in all.
pub sum_of-put :
    (f : ℕ → ℕ) (k a : ℕ) (rs : List Route)
    → IsDistinct rs
    → contains k (ids rs) ≡ true
    → sum_of (put f k (f k + a)) rs ≡ sum_of f rs + a
sum_of-put f k a [] d h = absurd (cc)
sum_of-put f k a ((id, share) ∷ rs) d h = elim (Bool-cases (id == k)) [
  | inl e ↦
      let same : id ≡ k = ==→eq id k e in
      let rest : sum_of (put f k (f k + a)) rs ≡ sum_of f rs =
        sum_of-put_other f k (f k + a) rs (ground (arith, same, d.0)) in
      ground (arith, rest, e, same)
  | inr e ↦
      let rest : sum_of (put f k (f k + a)) rs ≡ sum_of f rs + a =
        sum_of-put f k a rs d.1 (ground (arith, h, e)) in
      ground (arith, rest, e)
]

ids_contain_more :
    (k : ℕ) (rs rest : List Route)
    → All (λ r. contains r.0 (ids rs) ≡ true) rest
    → All (λ r. contains r.0 (k ∷ ids rs) ≡ true) rest
ids_contain_more k rs [] h = tt
ids_contain_more k rs (r ∷ rest) h = (ground (arith, h.0), ids_contain_more k rs rest h.1)

-- The ids of the routes contain each route's.
pub ids_contain : (rs : List Route) → All (λ r. contains r.0 (ids rs) ≡ true) rs
ids_contain [] = tt
ids_contain ((id, share) ∷ rs) = (ground arith, ids_contain_more id rs rs (ids_contain rs))

-- The share of a subnet, nothing for one without a route.
abbrev pub share_of : ℕ → List Route → ℕ
share_of k [] = 0
share_of k ((id, share) ∷ rs) = let rest = share_of k rs in if id == k then share else rest

shares_found_more :
    (id share : ℕ) (rs rest : List Route)
    → contains id (ids rest) ≡ false
    → All (λ r. share_of r.0 rs ≡ r.1) rest
    → All (λ r. share_of r.0 ((id, share) ∷ rs) ≡ r.1) rest
shares_found_more id share rs [] new h = tt
shares_found_more id share rs (r ∷ rest) new h =
    let head = h.0 in
    (ground (arith, new, head), shares_found_more id share rs rest (ground (arith, new)) h.1)

-- Under different ids each route's share is its subnet's.
pub shares_found : (rs : List Route) → IsDistinct rs → All (λ r. share_of r.0 rs ≡ r.1) rs
shares_found [] d = tt
shares_found ((id, share) ∷ rs) d =
    (ground arith, shares_found_more id share rs rs d.0 (shares_found rs d.1))
