-- ===== src/Emission/Invariant.antt =====
-- The counters of the emission controller add up, in every run from a genesis it accepts
-- (pallets/emission-controller/src/lib.rs).
pub mod Runs
pub mod Upgrade
use quip_validator.Prelude.{
  ℕ, ◌+◌, ◌-◌, ◌*◌, ◌≤◌, ◌==◌, ◌||◌, leb, ltb, leb→le, ◌≡◌, refl, sym, ap, ◌∙◌, arith, Bool, true,
  false, List, [], ◌∷◌, ◌++◌, Option, none, some, Result, ok, err, put, checked_add, u128_max,
  contains, if◌then◌else◌, Ensures, Ensures->>=, Ensures->>, Ensures-ok, >>=-elim, >>-eq-ok,
  >>-ok_left, ensure-eq-ok, ok_or-eq-ok, ok_or, ensure, min,
}
use quip_validator.Emission.Schedule.{Config, Route, valid_routes}
use quip_validator.Emission.Schedule.Routes.{
  ids, sum_of, IsDistinct, sum_of-put, valid_routes_gives,
}
use quip_validator.Emission.State.{
  Currency, State, GenesisConfig, Fault, Error, Outcome, Event, reward_unavailable, deposit_event,
  subnet_funded, faucet_minted,
}
use quip_validator.Emission.Issue.{deposit_exact, fund_subnet, mint_faucet, pay, settle_reward}
use quip_validator.Emission.Upgrade.{
  build, sum_issued, try_state, anchor, rebased_start, on_runtime_upgrade,
}

-- The routes are valid, the faucet is within its budget, and the counters of the routed subnets sum
-- to the one for the schedule.
pub record Sound {B : Type 0} (c : Config) (rs : List Route) (s : State B) : Type 0 where
  pub routes_are : s.routes ≡ rs
  pub valid : valid_routes c rs s.enabled ≡ true
  pub within_budget : s.faucet_issued ≤ s.faucet_budget
  pub summed : sum_of s.subnet_issued rs ≡ s.scheduled_issued
  pub bounded : s.scheduled_issued ≤ u128_max

sum_issued_total :
    (issued : ℕ → ℕ) (total : ℕ) (rs : List Route)
    → total + sum_of issued rs ≤ u128_max
    → sum_issued issued total rs ≡ ok (total + sum_of issued rs)
unfolding sum_issued
sum_issued_total issued total [] h = ground arith
sum_issued_total issued total ((id, share) ∷ rs) h =
    let rest = sum_issued_total issued (total + issued id) rs (omega (arith, h)) in
    let fits : checked_add u128_max total (issued id) ≡ some (total + issued id) =
      ground (arith, h) in
    rw (fits, rest) (ap ok (omega arith))

module _ {B : Type 0} (c : Config) (rs : List Route) where
  pub Sound-try_state : (s : State B) → Sound c rs s → try_state c s ≡ ok tt
  unfolding try_state
  Sound-try_state s v =
      let total = sum_issued_total s.subnet_issued 0 rs (omega (arith, v.summed, v.bounded)) in
      rw (v.routes_are, v.valid, total) (ground (arith, v.within_budget, v.summed))

  -- Only the balances changed.
  abbrev SameButBank : State B → State B → Type 0
  SameButBank s s1 = s1 ≡ record s { bank = s1.bank }

  -- A write to the balances alone.
  Sound-bank : (s s1 : State B) → Sound c rs s → SameButBank s s1 → Sound c rs s1
  Sound-bank s s1 v e = rw e (record {
    routes_are = v.routes_are;
    valid = v.valid;
    within_budget = v.within_budget;
    summed = v.summed;
    bounded = v.bounded;
  })

  module _ (cur : Currency B) where
    pub deposit_exact_keeps :
        (who amount : ℕ) (s s1 : State B)
        → deposit_exact cur who amount s ≡ ok s1
        → SameButBank s s1
    unfolding deposit_exact
    deposit_exact_keeps who amount s s1 h = ground (arith, h)

    -- Funding adds the amount to both counters, which have room for it.
    pub fund_subnet_gives :
        (subnet amount : ℕ) (s s1 : State B)
        → fund_subnet cur c subnet amount s ≡ ok s1
        → (s1 ≡ record s {
          subnet_issued = put s.subnet_issued subnet (s.subnet_issued subnet + amount);
          scheduled_issued = s.scheduled_issued + amount;
          events = s.events ++ subnet_funded subnet amount ∷ [];
          bank = s1.bank;
        })
          × (s.scheduled_issued + amount ≤ u128_max)
    unfolding fund_subnet
    fund_subnet_gives subnet amount s s1 h =
        >>=-elim (ok_or (checked_add u128_max (s.subnet_issued subnet) amount) Error.overflow) _ h
          (λ next e rest.
            >>=-elim (ok_or (checked_add u128_max s.scheduled_issued amount) Error.overflow) _ rest
              (λ total t last.
                >>=-elim (deposit_exact cur (c.pot subnet) amount s) _ last (λ s2 d stored.
                  let kept = deposit_exact_keeps (c.pot subnet) amount s s2 d in
                  let s1_is : s1
                      ≡ deposit_event (subnet_funded subnet amount) (record s2 {
                        subnet_issued = put s2.subnet_issued subnet next;
                        scheduled_issued = total;
                      }) =
                    cc in
                  let issued : next ≡ s.subnet_issued subnet + amount = ground (arith, e) in
                  let summed : total ≡ s.scheduled_issued + amount = ground (arith, t) in
                  (rw (s1_is, kept, issued, summed) refl, ground (arith, t)))))

    pub fund_subnet-Sound :
        (subnet amount : ℕ) (s s1 : State B)
        → contains subnet (ids rs) ≡ true
        → Sound c rs s
        → fund_subnet cur c subnet amount s ≡ ok s1
        → Sound c rs s1
    fund_subnet-Sound subnet amount s s1 routed v h =
        let (s1_is, fits) = fund_subnet_gives subnet amount s s1 h in
        rw s1_is (record {
          routes_are = v.routes_are;
          valid = v.valid;
          within_budget = v.within_budget;
          summed = omega (
            arith,
            sum_of-put s.subnet_issued subnet amount rs
                (valid_routes_gives c rs s.enabled v.valid).1 routed,
            v.summed,
          );
          bounded = fits;
        })

    -- A mint adds the amount to the faucet's counter, within its budget.
    pub mint_faucet_gives :
        (who amount : ℕ) (s s1 : State B)
        → mint_faucet cur who amount s ≡ ok s1
        → (s1 ≡ record s {
          faucet_issued = s.faucet_issued + amount;
          events = s.events ++ faucet_minted who amount ∷ [];
          bank = s1.bank;
        })
          × (s.faucet_issued + amount ≤ s.faucet_budget)
    unfolding mint_faucet
    mint_faucet_gives who amount s s1 h =
        >>=-elim (ok_or (checked_add u128_max s.faucet_issued amount) Error.overflow) _
          (>>-eq-ok (ensure (ltb 0 amount) Error.zero_amount) _ h)
          (λ next e rest.
            >>=-elim (deposit_exact cur who amount s) _
              (>>-eq-ok (ensure (leb next s.faucet_budget) Error.budget_exceeded) _ rest)
              (λ s2 d stored.
                let kept = deposit_exact_keeps who amount s s2 d in
                let s1_is : s1
                    ≡ deposit_event (faucet_minted who amount)
                        (record s2 { faucet_issued = next }) =
                  cc in
                let minted : next ≡ s.faucet_issued + amount = ground (arith, e) in
                let fits : leb next s.faucet_budget ≡ true =
                  ensure-eq-ok (leb next s.faucet_budget) Error.budget_exceeded
                    (>>-ok_left (ensure (leb next s.faucet_budget) Error.budget_exceeded) _ rest) in
                (rw (s1_is, kept, minted) refl, ground (arith, fits, minted))))

    pub mint_faucet-Sound :
        (who amount : ℕ) (s s1 : State B)
        → Sound c rs s
        → mint_faucet cur who amount s ≡ ok s1
        → Sound c rs s1
    mint_faucet-Sound who amount s s1 v h =
        let (s1_is, fits) = mint_faucet_gives who amount s s1 h in
        rw s1_is (record {
          routes_are = v.routes_are;
          valid = v.valid;
          within_budget = fits;
          summed = v.summed;
          bounded = v.bounded;
        })

    -- A reward writes an event and the balances.
    pub pay_gives :
        (subnet who requested : ℕ) (s : State B)
        → (events : List Event) × (bank : B) × ((pay cur c subnet who requested s).1
            ≡ record s { events = events; bank = bank })
    unfolding pay settle_reward
    pay_gives subnet who requested s =
        let pot : ℕ = c.pot subnet in
        let amount : ℕ = min requested (cur.free_balance pot s.bank - cur.minimum_balance) in
        chosen amount (amount == 0 || pot == who) (cur.transfer pot who amount s.bank)
      where
        chosen :
            (amount : ℕ) (b : Bool) (moved : Option B)
            → (events : List Event) × (bank : B) × ((if b
                  then (0, deposit_event (reward_unavailable subnet who requested none) s)
                  else settle_reward subnet who requested amount s moved).1
                ≡ record s { events = events; bank = bank })
        chosen amount true moved = (_, _, refl)
        chosen amount false none = (_, _, refl)
        chosen amount false (some bank) = (_, _, refl)
