-- ===== src/Emission/Invariant/Runs.antt =====
-- Every call, and every run, of the emission controller keeps its counters sound
-- (pallets/emission-controller/src/lib.rs).
use quip_validator.Prelude.{
  All, ℕ, ◌-◌, ◌==◌, leb, ◌≡◌, refl, arith, Bool, true, false, List, [], ◌∷◌, Option, none, some,
  Result, ok, err, contains, if◌then◌else◌, inl, inr, Bool-cases,
}
use quip_validator.Emission.Schedule.{Config, Route, valid_routes, entitlement}
use quip_validator.Emission.Schedule.Routes.{ids, ids_contain, sum_of}
use quip_validator.Emission.State.{Currency, State, GenesisConfig, Fault, Outcome, Event}
use quip_validator.Emission.Issue.{
  fund_subnet, or_report, accrue_one, accrue_each, accrue_total, accrue_from, accrue, on_initialize,
  mint_faucet, pay,
}
use quip_validator.Emission.Upgrade.{
  storage_version, build, try_state, anchor, rebased_start, on_runtime_upgrade,
}
use quip_validator.Emission.Machine.{Call, starts_block, upgrades, mints, pays, step, run}
use quip_validator.Emission.Invariant.{
  Sound, Sound-try_state, fund_subnet-Sound, mint_faucet-Sound, pay_gives,
}

sum_of-zero : (rs : List Route) → sum_of (λ subnet. 0) rs ≡ 0
sum_of-zero [] = refl
sum_of-zero ((id, share) ∷ rs) = omega (arith, sum_of-zero rs)

module _ {B : Type 0} (c : Config) (rs : List Route) where
  -- Writes to what the counters do not read.
  Sound-free :
      (s : State B) (start : Option ℕ) (version : ℕ) (events : List Event) (bank : B)
      → Sound c rs s
      → Sound c rs (record s { start_at = start; version = version; events = events; bank = bank })
  Sound-free s start version events bank v = record {
    routes_are = v.routes_are;
    valid = v.valid;
    within_budget = v.within_budget;
    summed = v.summed;
    bounded = v.bounded;
  }

  module _ (cur : Currency B) where
    or_report-Sound :
        (subnet amount : ℕ) (s : State B) (r : Outcome B)
        → Sound c rs s
        → ((s1 : State B) → r ≡ ok s1 → Sound c rs s1)
        → Sound c rs (or_report subnet amount s r)
    unfolding or_report
    or_report-Sound subnet amount s (ok s1) v w = w s1 refl
    or_report-Sound subnet amount s (err e) v w = Sound-free s _ _ _ _ v

    accrue_one-Sound :
        (total subnet share : ℕ) (s : State B)
        → contains subnet (ids rs) ≡ true
        → Sound c rs s
        → Sound c rs (accrue_one cur c total (subnet, share) s)
    unfolding accrue_one
    accrue_one-Sound total subnet share s routed v =
        let amount : ℕ = c.mul_floor share total - s.subnet_issued subnet in
        elim (Bool-cases (amount == 0)) [
          | inl e ↦ rw e v
          | inr e ↦ rw e (
              or_report-Sound subnet amount s (fund_subnet cur c subnet amount s) v
                (λ s1. fund_subnet-Sound c rs cur subnet amount s s1 routed v))
        ]

    accrue_each-Sound :
        (total : ℕ) (rest : List Route) (s : State B)
        → All (λ r. contains r.0 (ids rs) ≡ true) rest
        → Sound c rs s
        → Sound c rs (accrue_each cur c total rest s)
    unfolding accrue_each
    accrue_each-Sound total [] s routed v = v
    accrue_each-Sound total ((subnet, share) ∷ rest) s routed v =
        accrue_each-Sound total rest (accrue_one cur c total (subnet, share) s) routed.1
          (accrue_one-Sound total subnet share s routed.0 v)

    accrue_total-Sound :
        (total : Option ℕ) (s : State B) → Sound c rs s → Sound c rs (accrue_total cur c total s)
    unfolding accrue_total
    accrue_total-Sound none s v = v
    accrue_total-Sound (some total) s v =
        accrue_each-Sound total s.routes s (rw v.routes_are (ids_contain rs)) v

    accrue_from-Sound :
        (now : ℕ) (start : Option ℕ) (s : State B)
        → Sound c rs s
        → Sound c rs (accrue_from cur c now start s)
    unfolding accrue_from
    accrue_from-Sound now none s v = Sound-free s _ _ _ _ v
    accrue_from-Sound now (some start) s v = accrue_total-Sound (entitlement c (now - start)) s v

    accrue-Sound : (now : ℕ) (s : State B) → Sound c rs s → Sound c rs (accrue cur c now s)
    unfolding accrue
    accrue-Sound now s v = chosen s.enabled (now == 0)
      where
        chosen :
            (a b : Bool)
            → Sound c rs (if a then (if b then s else accrue_from cur c now s.start_at s) else s)
        chosen false b = v
        chosen true true = v
        chosen true false = accrue_from-Sound now s.start_at s v

    pay-Sound :
        (subnet who requested : ℕ) (s : State B)
        → Sound c rs s
        → Sound c rs (pay cur c subnet who requested s).1
    pay-Sound subnet who requested s v =
        let (events, bank, paid) = pay_gives c rs cur subnet who requested s in
        rw paid (Sound-free s s.start_at s.version events bank v)

    upgrade-Sound : (now : ℕ) (s : State B) → Sound c rs s → Sound c rs (on_runtime_upgrade c now s)
    unfolding on_runtime_upgrade anchor
    upgrade-Sound now s v = chosen (leb storage_version s.version) (rebased_start c now s)
      where
        anchored : (r : Result Fault (Option ℕ)) → Sound c rs (anchor s r)
        anchored (ok start) = Sound-free s _ _ _ _ v
        anchored (err e) = v

        chosen : (b : Bool) (r : Result Fault (Option ℕ)) → Sound c rs (if b then s else anchor s r)
        chosen true r = v
        chosen false r = anchored r

    pub step-Sound : (call : Call) (s : State B) → Sound c rs s → Sound c rs (step c cur call s)
    unfolding step on_initialize
    step-Sound (starts_block now) s v = accrue-Sound now s v
    step-Sound (upgrades now) s v = upgrade-Sound now s v
    step-Sound (mints who amount) s v =
        chosen (mint_faucet cur who amount s) (λ s1. mint_faucet-Sound c rs cur who amount s s1 v)
      where
        chosen :
            (r : Outcome B)
            → ((s1 : State B) → r ≡ ok s1 → Sound c rs s1)
            → Sound c rs (elim r [ ok s1 ↦ s1 | err e ↦ s ])
        chosen (ok s1) w = w s1 refl
        chosen (err e) w = v
    step-Sound (pays subnet who requested) s v = pay-Sound subnet who requested s v

    pub run-Sound :
        (calls : List Call) (s : State B) → Sound c rs s → Sound c rs (run c cur calls s)
    unfolding run
    run-Sound [] s v = v
    run-Sound (call ∷ calls) s v = run-Sound calls (step c cur call s) (step-Sound call s v)

module _ {B : Type 0} (c : Config) (g : GenesisConfig) (bank : B) where
  -- What an accepted genesis stores.
  pub build_gives :
      (s : State B)
      → build c g bank ≡ ok s
      → (valid_routes c g.routes g.enabled ≡ true)
        × (s ≡ record {
          enabled = g.enabled;
          start_at = g.start_at;
          routes = g.routes;
          subnet_issued = λ subnet. 0;
          scheduled_issued = 0;
          faucet_budget = g.faucet_budget;
          faucet_issued = 0;
          version = storage_version;
          events = [];
          bank = bank;
        })
  unfolding build
  build_gives s h = ground (arith, h)

  pub build-Sound : (s : State B) → build c g bank ≡ ok s → Sound c g.routes s
  build-Sound s h =
      let (valid, stored) = build_gives s h in
      rw stored (record {
        routes_are = refl;
        valid = valid;
        within_budget = omega arith;
        summed = sum_of-zero g.routes;
        bounded = omega arith;
      })

-- From a genesis that the controller accepts, whatever the blocks, upgrades, faucet mints and rewards
-- that follow, and whatever the balances pallet answers, the consistency check passes: the routes are
-- valid, the faucet has minted within its budget, and the counters of the routed subnets sum to the
-- scheduled issuance without overflow.
pub try_state-run :
    {B : Type 0} (c : Config) (cur : Currency B) (g : GenesisConfig) (bank : B) (s : State B)
    → build c g bank ≡ ok s
    → (calls : List Call) → try_state c (run c cur calls s) ≡ ok tt
try_state-run c cur g bank s h calls =
    Sound-try_state c g.routes (run c cur calls s)
      (run-Sound c g.routes cur calls s (build-Sound c g bank s h))
