-- ===== src/Emission/Paced/Owed.antt =====
-- What the schedule owes a subnet is issued, or the failure is reported.
use quip_validator.Prelude.{
  All, ℕ, ◌+◌, ◌-◌, ◌≤◌, ◌<◌, ◌==◌, ◌||◌, ◌≡◌, refl, arith, Bool, true, false, List, [], ◌∷◌, ◌++◌,
  some, ok, err, ◌⊎◌, inl, inr, Bool-cases,
}
use quip_validator.Emission.Schedule.{Config, Route, entitlement}
use quip_validator.Emission.State.{Currency, State, Error, Event, funding_failed, Outcome}
use quip_validator.Emission.Issue.{
  fund_subnet, or_report, accrue_one, accrue_each, accrue_total, accrue_from, accrue,
}
use quip_validator.Emission.Invariant.{fund_subnet_gives}

-- An event says that the subnet could not be funded.
unfoldable pub reports : ℕ → List Event → Bool
reports subnet [] = false
reports subnet (funding_failed k amount e ∷ es) = k == subnet || reports subnet es
reports subnet (_ ∷ es) = reports subnet es

reports-append :
    (k : ℕ) (xs ys : List Event) → reports k (xs ++ ys) ≡ (reports k xs || reports k ys)
unfolding reports
reports-append k [] ys = refl
reports-append k (x ∷ xs) ys = let rest = reports-append k xs ys in ground (arith, rest)

-- The counters and the reports only grow.
abbrev Grows : {B : Type 0} → State B → State B → Type 0
Grows s s1 =
    ((k : ℕ) → s.subnet_issued k ≤ s1.subnet_issued k)
    × ((k : ℕ) → reports k s.events ≡ true → reports k s1.events ≡ true)

abbrev pub Settled : {B : Type 0} → Config → ℕ → State B → Route → Type 0
Settled c total s r = (c.mul_floor r.1 total ≤ s.subnet_issued r.0) ⊎ (reports r.0 s.events ≡ true)

reports_still :
    (k : ℕ) (xs : List Event) (e : Event) → reports k xs ≡ true → reports k (xs ++ e ∷ []) ≡ true
reports_still k xs e h = rw (reports-append k xs (e ∷ []), h) refl

module _ {B : Type 0} (c : Config) (cur : Currency B) where
  -- Funding adds the amount to the subnet's counter, and takes no report away.
  fund_subnet-Grows :
      (subnet amount : ℕ) (s s1 : State B)
      → fund_subnet cur c subnet amount s ≡ ok s1
      → Grows s s1 × (s1.subnet_issued subnet ≡ s.subnet_issued subnet + amount)
  fund_subnet-Grows subnet amount s s1 h =
      let (s1_is, fits) = fund_subnet_gives c s.routes cur subnet amount s s1 h in
      rw s1_is (((λ k. ground arith), (λ k. reports_still k s.events _)), ground arith)

  reported :
      (subnet amount : ℕ) (s : State B) (e : Error)
      → reports subnet (s.events ++ funding_failed subnet amount e ∷ []) ≡ true
  unfolding reports
  reported subnet amount s e =
      let split = reports-append subnet s.events (funding_failed subnet amount e ∷ []) in
      ground (arith, split)

  or_report_settles :
      (subnet amount target : ℕ) (s : State B) (r : Outcome B)
      → target ≤ s.subnet_issued subnet + amount
      → ((s1 : State B)
          → r ≡ ok s1
          → Grows s s1 × (s1.subnet_issued subnet ≡ s.subnet_issued subnet + amount))
      → Grows s (or_report subnet amount s r)
        × ((target ≤ (or_report subnet amount s r).subnet_issued subnet)
            ⊎ (reports subnet (or_report subnet amount s r).events ≡ true))
  unfolding or_report
  or_report_settles subnet amount target s (ok s1) enough h =
      let (grows, funded) = h s1 refl in (grows, inl (omega (arith, enough, funded)))
  or_report_settles subnet amount target s (err e) enough h =
      (((λ k. omega arith), (λ k. reports_still k s.events _)), inr (reported subnet amount s e))

  accrue_one_settles :
      (total : ℕ) (r : Route) (s : State B)
      → Grows s (accrue_one cur c total r s) × Settled c total (accrue_one cur c total r s) r
  unfolding accrue_one
  accrue_one_settles total (subnet, share) s =
      let target : ℕ = c.mul_floor share total in
      let amount : ℕ = target - s.subnet_issued subnet in
      elim (Bool-cases (amount == 0)) [
        | inl e ↦ rw e (((λ k. omega arith), (λ k h. h)), inl (ground (arith, e)))
        | inr e ↦ rw e (
            or_report_settles subnet amount target s (fund_subnet cur c subnet amount s)
              (omega arith) (λ s1. fund_subnet-Grows subnet amount s s1))
      ]

  Settled-Grows :
      (total : ℕ) (r : Route) (s s1 : State B)
      → Grows s s1
      → Settled c total s r
      → Settled c total s1 r
  Settled-Grows total r s s1 g (inl paid) = let more = g.0 r.0 in inl (omega (arith, paid, more))
  Settled-Grows total r s s1 g (inr said) = inr (g.1 r.0 said)

  accrue_each_settles :
      (total : ℕ) (rest : List Route) (s : State B)
      → Grows s (accrue_each cur c total rest s)
        × All (Settled c total (accrue_each cur c total rest s)) rest
  unfolding accrue_each
  accrue_each_settles total [] s = (((λ k. omega arith), (λ k h. h)), tt)
  accrue_each_settles total (r ∷ rest) s =
      let s1 : State B = accrue_one cur c total r s in
      let (grows, settled) = accrue_one_settles total r s in
      let (more, all) = accrue_each_settles total rest s1 in
      (
        (
          (λ k. let a = grows.0 k in let b = more.0 k in omega (arith, a, b)),
          (λ k h. more.1 k (grows.1 k h)),
        ),
        (Settled-Grows total r s1 (accrue_each cur c total rest s1) more settled, all),
      )

  -- Once an enabled, anchored controller with no event yet has accrued, for a clock that is not zero and
  -- an entitlement that does not overflow, every routed subnet was issued at least its share of the
  -- entitlement, or an event reports that it could not be funded.
  pub accrue_settles :
      (now start total : ℕ) (s : State B)
      → s.events ≡ []
      → s.enabled ≡ true
      → 0 < now
      → s.start_at ≡ some start
      → entitlement c (now - start) ≡ some total
      → All (Settled c total (accrue cur c now s)) s.routes
  unfolding accrue accrue_from accrue_total
  accrue_settles now start total s fresh on positive at due =
      let running : (now == 0) ≡ false = ground (arith, positive) in
      let accrued : accrue cur c now s ≡ accrue_each cur c total s.routes s =
        rw (on, running, at, due) refl in
      rw accrued (accrue_each_settles total s.routes s).1
