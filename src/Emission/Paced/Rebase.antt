-- ===== src/Emission/Paced/Rebase.antt =====
-- Issuance around the upgrade: it pauses at the upgrade, and resumes within two seconds.
use quip_validator.Prelude.{
  All, List, [], ◌∷◌, leb, ◌⊎◌, inl, inr, refl, Bool-cases, ℕ, ◌+◌, ◌-◌, ◌*◌, ◌/◌, ◌≤◌, ◌<◌, ◌==◌,
  ◌≡◌, ap, ◌∙◌, arith, true, false, some, ok, min, u64_max, u128_max,
}
use quip_validator.Emission.Schedule.{Config, Route, year_seconds, entitlement}
use quip_validator.Emission.Schedule.Exact.{entitlement_total}
use quip_validator.Emission.State.{State, Currency}
use quip_validator.Emission.Issue.{accrue_one, accrue_each, accrue_total, accrue_from, accrue}
use quip_validator.Emission.Paced.Owed.{Settled, reports, accrue_settles}
use quip_validator.Emission.Upgrade.{
  storage_version, rebase_from, rebased, rebased_start, anchor, on_runtime_upgrade,
}
use native.Mathlib.Nat.{mul-div-le, lt-mul-div-succ}

-- Where the schedule has emitted `issued`, to the second.
emitted :
    (annual issued elapsed : ℕ)
    → annual * elapsed ≤ issued * year_seconds
    → issued * year_seconds < annual * (elapsed + 1)
    → (annual * elapsed / year_seconds ≤ issued)
      × (issued + annual / year_seconds ≤ annual * (elapsed + 2) / year_seconds)
emitted annual issued elapsed low high = (omega (arith, low), omega (arith, high))

-- By the anchor of the upgrade, the entitlement is at most what was issued, and two seconds later at
-- least what was issued and one second's emission.
rebased_start_gives :
    {B : Type 0} (c : Config) (now start : ℕ) (s : State B)
    → ((a b d : ℕ) → 0 < d → a * b / d ≤ u128_max → c.multiply_down a b d ≡ some (a * b / d))
    → 0 < c.annual_emission
    → s.enabled ≡ true
    → s.start_at ≡ some start
    → 0 < s.scheduled_issued
    → s.scheduled_issued * year_seconds / c.annual_emission ≤ min u64_max now
    → s.scheduled_issued * year_seconds + 2 * c.annual_emission ≤ u128_max
    → (later : ℕ) × (before : ℕ) × (after : ℕ) × (rebased_start c now s ≡ ok (some later))
      × (entitlement c (now - later) ≡ some before)
      × (entitlement c (now + 2 - later) ≡ some after)
      × (before ≤ s.scheduled_issued)
      × (s.scheduled_issued + c.annual_emission / year_seconds ≤ after)
unfolding rebased_start rebased rebase_from
rebased_start_gives c now start s down positive on at issued fits small =
    let annual : ℕ = c.annual_emission in
    let elapsed : ℕ = s.scheduled_issued * year_seconds / annual in
    let low : annual * elapsed ≤ s.scheduled_issued * year_seconds = mul-div-le _ annual in
    let high : s.scheduled_issued * year_seconds < annual * (elapsed + 1) =
      lt-mul-div-succ _ positive in
    let first = entitlement_total c elapsed (omega (arith, low, small)) in
    let second = entitlement_total c (elapsed + 2) (omega (arith, low, small)) in
    let quotient = down s.scheduled_issued year_seconds annual positive (omega (arith, fits)) in
    let some_issued : (s.scheduled_issued == 0) ≡ false = ground (arith, issued) in
    let anchored : rebased_start c now s ≡ ok (some (now - elapsed)) =
      rw (at, on, some_issued, quotient) (ap (λ e. ok (some (now - e))) (omega (arith, fits))) in
    let sums = emitted annual s.scheduled_issued elapsed low high in
    (
      now - elapsed,
      annual * elapsed / year_seconds,
      annual * (elapsed + 2) / year_seconds,
      anchored,
      ap (entitlement c) (omega (arith, fits)) ∙ first,
      ap (entitlement c) (omega (arith, fits)) ∙ second,
      sums.0,
      sums.1,
    )

-- A subnet's counter is at its share of what was issued, or past it by less than its share of one
-- second's emission.
abbrev pub IsEven : Config → ℕ → (ℕ → ℕ) → Route → Type 0
IsEven c issued counters r =
    (c.mul_floor r.1 issued ≤ counters r.0)
    × (counters r.0 < c.mul_floor r.1 (issued + c.annual_emission / year_seconds))

-- A subnet was funded, or an event says that it could not be.
abbrev pub Resumed : {B : Type 0} → (ℕ → ℕ) → State B → Route → Type 0
Resumed counters s r = (counters r.0 < s.subnet_issued r.0) ⊎ (reports r.0 s.events ≡ true)

module _ {B : Type 0} (c : Config) (cur : Currency B)
    (monotone : (p x y : ℕ) → x ≤ y → c.mul_floor p x ≤ c.mul_floor p y) where
  -- Where every counter covers its share, an accrual funds nothing.
  accrue_each-idle :
      (total issued : ℕ) (routes : List Route) (s : State B)
      → total ≤ issued
      → All (IsEven c issued s.subnet_issued) routes
      → accrue_each cur c total routes s ≡ s
  unfolding accrue_each accrue_one
  accrue_each-idle total issued [] s low even = refl
  accrue_each-idle total issued ((subnet, share) ∷ rest) s low ((covered, close), even) =
      let due : (c.mul_floor share total - s.subnet_issued subnet == 0) ≡ true =
        ground (arith, monotone share total issued low, covered) in
      rw due (accrue_each-idle total issued rest s low even)

  accrue-idle :
      (now start total : ℕ) (s : State B)
      → s.enabled ≡ true
      → s.start_at ≡ some start
      → entitlement c (now - start) ≡ some total
      → accrue_each cur c total s.routes s ≡ s
      → accrue cur c now s ≡ s
  unfolding accrue accrue_from accrue_total
  accrue-idle now start total s on at due idle = elim (Bool-cases (now == 0)) [
    | inl first ↦ rw (on, first) refl
    | inr later ↦
        let same : accrue cur c now s ≡ accrue_each cur c total s.routes s =
          rw (on, later, at, due) refl in
        same ∙ idle
  ]

  resumed :
      (total issued : ℕ) (routes : List Route) (counters : ℕ → ℕ) (s : State B)
      → issued + c.annual_emission / year_seconds ≤ total
      → All (IsEven c issued counters) routes
      → All (Settled c total s) routes
      → All (Resumed counters s) routes
  resumed total issued [] counters s high even settled = tt
  resumed total issued (r ∷ rest) counters s high ((covered, close), even) (here, settled) =
      (one here, resumed total issued rest counters s high even settled)
    where
      one : Settled c total s r → Resumed counters s r
      one (inl paid) =
          let more = monotone r.1 _ total high in inl (omega (arith, paid, close, more))
      one (inr said) = inr said

-- The upgrade of an enabled, anchored controller of an older version that has issued something and has
-- no event yet, where each subnet's counter is at its share of what was issued or past it by less
-- than its share of one second's emission: an accrual at the clock of the upgrade changes nothing, and
-- one that is two seconds later funds every routed subnet, or reports that it could not. The duration
-- that the issuance stands for is not longer than the clock, fits 64 bits and is computed without
-- overflow, and `mul_floor` is monotone.
pub on_runtime_upgrade_resumes :
    {B : Type 0} (c : Config) (cur : Currency B) (now start : ℕ) (s : State B)
    → ((p x y : ℕ) → x ≤ y → c.mul_floor p x ≤ c.mul_floor p y)
    → ((a b d : ℕ) → 0 < d → a * b / d ≤ u128_max → c.multiply_down a b d ≡ some (a * b / d))
    → 0 < c.annual_emission
    → s.enabled ≡ true
    → s.start_at ≡ some start
    → s.version < storage_version
    → s.events ≡ []
    → 0 < s.scheduled_issued
    → s.scheduled_issued * year_seconds / c.annual_emission ≤ min u64_max now
    → s.scheduled_issued * year_seconds + 2 * c.annual_emission ≤ u128_max
    → All (IsEven c s.scheduled_issued s.subnet_issued) s.routes
    → let upgraded = on_runtime_upgrade c now s in
      (accrue cur c now upgraded ≡ upgraded)
      × All (Resumed s.subnet_issued (accrue cur c (now + 2) upgraded)) s.routes
unfolding on_runtime_upgrade anchor
on_runtime_upgrade_resumes {B = B} c cur now start s monotone down positive on at old fresh issued
      fits small even =
    let (later, before, after, anchored, first, second, low, high) =
      rebased_start_gives c now start s down positive on at issued fits small in
    let older : leb storage_version s.version ≡ false = ground (arith, old) in
    let s1 : State B = record s { start_at = some later; version = storage_version } in
    let is : on_runtime_upgrade c now s ≡ s1 = rw (older, anchored) refl in
    let idle = accrue_each-idle c cur monotone before s.scheduled_issued s.routes s1 low even in
    let settled =
      accrue_settles c cur (now + 2) later after s1 fresh on (omega arith) refl second in
    rw is (
      accrue-idle c cur monotone now later before s1 on refl first idle,
      resumed c cur monotone after s.scheduled_issued s.routes s.subnet_issued
          (accrue cur c (now + 2) s1) high even settled,
    )
