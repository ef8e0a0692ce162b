-- ===== src/Emission/Paced/Runs.antt =====
-- No run issues more than the schedule allows.
use quip_validator.Prelude.{
  All, ℕ, ◌+◌, ◌-◌, ◌*◌, ◌/◌, ◌≤◌, ◌==◌, leb, ◌≡◌, refl, sym, arith, Bool, true, false, List, [],
  ◌∷◌, Option, none, some, ok, err, put, max, ◌⊎◌, if◌then◌else◌, inl, inr, Bool-cases, ==→eq,
}
use quip_validator.Emission.Schedule.{Config, Route, billion, year_seconds, entitlement}
use quip_validator.Emission.Schedule.Routes.{
  shares, sum_of, share_of, shares_found, valid_routes_gives,
}
use quip_validator.Emission.Schedule.Exact.{entitlement_gives}
use quip_validator.Emission.State.{Currency, State, GenesisConfig, Outcome, Event}
use quip_validator.Emission.Issue.{
  fund_subnet, or_report, accrue_one, accrue_each, accrue_total, accrue_from, accrue, on_initialize,
  mint_faucet, pay,
}
use quip_validator.Emission.Upgrade.{build, storage_version, on_runtime_upgrade}
use quip_validator.Emission.Machine.{Call, starts_block, upgrades, mints, pays, step, run}
use quip_validator.Emission.Invariant.{fund_subnet_gives, mint_faucet_gives, pay_gives}
use mathlib.Core.Path.{subst}
use native.Mathlib.Nat.{mul-le-mul_left, mul-le-mul_right}
use quip_validator.Emission.Invariant.Runs.{build_gives, build-Sound, run-Sound}

-- The latest clock of a run that started at `latest`.
abbrev pub latest_of : ℕ → List Call → ℕ
latest_of latest [] = latest
latest_of latest (starts_block now ∷ calls) = latest_of (max latest now) calls
latest_of latest (_ ∷ calls) = latest_of latest calls

-- The seconds since the anchor; none without one.
abbrev pub since : Option ℕ → ℕ → ℕ
since none now = 0
since (some start) now = now - start

-- What was issued to a subnet, against its share of the schedule up to `latest`.
abbrev Within : Config → List Route → ℕ → ℕ → ℕ → Type 0
Within c rs elapsed k issued =
    issued * (billion * year_seconds) ≤ share_of k rs * (c.annual_emission * elapsed)

Within-more :
    (c : Config) (rs : List Route) (e e' k issued : ℕ)
    → e ≤ e'
    → Within c rs e k issued
    → Within c rs e' k issued
Within-more c rs e e' k issued le h =
    let more : share_of k rs * (c.annual_emission * e) ≤ share_of k rs * (c.annual_emission * e') =
      mul-le-mul_left (share_of k rs) (mul-le-mul_left c.annual_emission le) in
    omega (arith, h, more)

sum-Within :
    (c : Config) (rs : List Route) (e : ℕ) (issued : ℕ → ℕ) (rest : List Route)
    → All (λ r. share_of r.0 rs ≡ r.1) rest
    → ((k : ℕ) → Within c rs e k (issued k))
    → sum_of issued rest * (billion * year_seconds) ≤ shares rest * (c.annual_emission * e)
sum-Within c rs e issued [] h w = omega arith
sum-Within c rs e issued ((id, share) ∷ rest) h w =
    let head : issued id * (billion * year_seconds) ≤ share * (c.annual_emission * e) =
      rw (← h.0) (w id) in
    omega (arith, head, sum-Within c rs e issued rest h.1 w)

-- What a subnet may have been issued once the entitlement is `total`.
share_paid :
    (c : Config) (rs : List Route) (elapsed total k share target : ℕ)
    → total * year_seconds ≤ c.annual_emission * elapsed
    → target * billion ≤ share * total
    → share_of k rs ≡ share
    → Within c rs elapsed k target
share_paid c rs elapsed total k share target due floor is =
    let scaled : share * (total * year_seconds) ≤ share * (c.annual_emission * elapsed) =
      mul-le-mul_left share due in
    let floored : target * billion * year_seconds ≤ share * total * year_seconds =
      mul-le-mul_right year_seconds floor in
    rw is (omega (arith, scaled, floored))

-- The counters, while the schedule runs to `elapsed`.
record Held {B : Type 0} (c : Config) (rs : List Route) (elapsed : ℕ) (start : Option ℕ)
    (s : State B) : Type 0 where
  routes_are : s.routes ≡ rs
  version_is : s.version ≡ storage_version
  start_is : s.start_at ≡ start
  paced : (k : ℕ) → Within c rs elapsed k (s.subnet_issued k)

module _ {B : Type 0} (c : Config) (rs : List Route) where
  Held-free :
      (elapsed : ℕ) (start : Option ℕ) (s : State B) (faucet : ℕ) (events : List Event) (bank : B)
      → Held c rs elapsed start s
      → Held c rs elapsed start (record s { faucet_issued = faucet; events = events; bank = bank })
  Held-free elapsed start s faucet events bank v = record {
    routes_are = v.routes_are;
    version_is = v.version_is;
    start_is = v.start_is;
    paced = v.paced;
  }

  module _ (cur : Currency B) (floor : (p x : ℕ) → c.mul_floor p x * billion ≤ p * x) where
    funded-Held :
        (elapsed : ℕ) (start : Option ℕ) (subnet target amount : ℕ) (s s1 : State B)
        → Within c rs elapsed subnet target
        → s.subnet_issued subnet + amount ≡ target
        → Held c rs elapsed start s
        → fund_subnet cur c subnet amount s ≡ ok s1
        → Held c rs elapsed start s1
    funded-Held elapsed start subnet target amount s s1 allowed sum v h =
        rw (fund_subnet_gives c rs cur subnet amount s s1 h).0 (record {
          routes_are = v.routes_are;
          version_is = v.version_is;
          start_is = v.start_is;
          paced = λ k. at k (Bool-cases (k == subnet));
        })
      where
        at :
            (k : ℕ)
            → ((k == subnet) ≡ true) ⊎ ((k == subnet) ≡ false)
            → Within c rs elapsed k (put s.subnet_issued subnet (s.subnet_issued subnet + amount) k)
        at k (inl e) = rw (e, ==→eq k subnet e, sum) allowed
        at k (inr e) = rw e (v.paced k)

    accrue_one-Held :
        (elapsed total : ℕ) (start : Option ℕ) (subnet share : ℕ) (s : State B)
        → total * year_seconds ≤ c.annual_emission * elapsed
        → share_of subnet rs ≡ share
        → Held c rs elapsed start s
        → Held c rs elapsed start (accrue_one cur c total (subnet, share) s)
    unfolding accrue_one or_report
    accrue_one-Held elapsed total start subnet share s due is v =
        let amount : ℕ = c.mul_floor share total - s.subnet_issued subnet in
        elim (Bool-cases (amount == 0)) [
          | inl e ↦ rw e v
          | inr e ↦ rw e (
              outcome amount (ground (arith, e)) (fund_subnet cur c subnet amount s) (λ s1.
                funded-Held elapsed start subnet (c.mul_floor share total) amount s s1 (
                  share_paid c rs elapsed total subnet share (c.mul_floor share total) due
                    (floor share total) is)))
        ]
      where
        outcome :
            (amount : ℕ)
            → s.subnet_issued subnet + amount ≡ c.mul_floor share total
            → (r : Outcome B)
            → ((s1 : State B)
                → s.subnet_issued subnet + amount ≡ c.mul_floor share total
                → Held c rs elapsed start s
                → r ≡ ok s1
                → Held c rs elapsed start s1)
            → Held c rs elapsed start (or_report subnet amount s r)
        outcome amount sum (ok s1) h = h s1 sum v refl
        outcome amount sum (err e) h = Held-free elapsed start s _ _ _ v

    accrue_each-Held :
        (elapsed total : ℕ) (start : Option ℕ) (rest : List Route) (s : State B)
        → total * year_seconds ≤ c.annual_emission * elapsed
        → All (λ r. share_of r.0 rs ≡ r.1) rest
        → Held c rs elapsed start s
        → Held c rs elapsed start (accrue_each cur c total rest s)
    unfolding accrue_each
    accrue_each-Held elapsed total start [] s due is v = v
    accrue_each-Held elapsed total start ((subnet, share) ∷ rest) s due is v =
        accrue_each-Held elapsed total start rest (accrue_one cur c total (subnet, share) s) due
          is.1 (accrue_one-Held elapsed total start subnet share s due is.0 v)

    Held-more :
        (elapsed elapsed' : ℕ) (start : Option ℕ) (s : State B)
        → elapsed ≤ elapsed'
        → Held c rs elapsed start s
        → Held c rs elapsed' start s
    Held-more elapsed elapsed' start s le v = record {
      routes_are = v.routes_are;
      version_is = v.version_is;
      start_is = v.start_is;
      paced = λ k. Within-more c rs elapsed elapsed' k (s.subnet_issued k) le (v.paced k);
    }

    module _ (found : All (λ r. share_of r.0 rs ≡ r.1) rs) where
      accrue_total-Held :
          (elapsed elapsed' : ℕ) (start : Option ℕ) (s : State B)
          → elapsed ≤ elapsed'
          → (due : Option ℕ)
          → ((total : ℕ) → due ≡ some total → total ≡ c.annual_emission * elapsed / year_seconds)
          → Held c rs elapsed' start s
          → Held c rs elapsed' start (accrue_total cur c due s)
      unfolding accrue_total
      accrue_total-Held elapsed elapsed' start s le none due v = v
      accrue_total-Held elapsed elapsed' start s le (some total) due v =
          let more : c.annual_emission * elapsed ≤ c.annual_emission * elapsed' =
            mul-le-mul_left c.annual_emission le in
          let is : total ≡ c.annual_emission * elapsed / year_seconds = due total refl in
          accrue_each-Held elapsed' total start s.routes s (omega (arith, more, is))
            (rw v.routes_are found) v

      abbrev Paced : ℕ → State B → Type 0
      Paced latest s = Held c rs (since s.start_at latest) s.start_at s

      accrue-Held :
          (latest now : ℕ) (s : State B)
          → Paced latest s
          → (next : Option ℕ) × Held c rs (since next (max latest now)) next (accrue cur c now s)
      unfolding accrue accrue_from
      accrue-Held latest now s v = chosen s.enabled (now == 0) s.start_at v
        where
          from :
              (start : Option ℕ)
              → Held c rs (since start latest) start s
              → (next : Option ℕ) × Held c rs
                  (since next (max latest now))
                  next
                  (accrue_from cur c now start s)
          from none v = (
            some now,
            record {
              routes_are = v.routes_are;
              version_is = v.version_is;
              start_is = refl;
              paced = λ k.
                  Within-more c rs 0 (max latest now - now) k (s.subnet_issued k) (omega arith)
                    (v.paced k);
            },
          )
          from (some start) v = (
            some start,
            accrue_total-Held (now - start) (max latest now - start) (some start) s (omega arith)
                (entitlement c (now - start)) (λ total. entitlement_gives c (now - start))
                (Held-more (latest - start) (max latest now - start) (some start) s (omega arith)
                  v),
          )

          kept :
              (start : Option ℕ)
              → Held c rs (since start latest) start s
              → (next : Option ℕ) × Held c rs (since next (max latest now)) next s
          kept none v = (none, v)
          kept (some start) v = (
            some start,
            Held-more (latest - start) (max latest now - start) (some start) s (omega arith) v,
          )

          chosen :
              (a b : Bool) (start : Option ℕ)
              → Held c rs (since start latest) start s
              → (next : Option ℕ) × Held c rs
                  (since next (max latest now))
                  next
                  (if a then (if b then s else accrue_from cur c now start s) else s)
          chosen false b start v = kept start v
          chosen true true start v = kept start v
          chosen true false start v = from start v

      starts_block-Paced :
          (latest now : ℕ) (s : State B)
          → Paced latest s
          → Paced (max latest now) (accrue cur c now s)
      starts_block-Paced latest now s v =
          let (next, held) = accrue-Held latest now s v in
          subst (λ start. Held c rs (since start (max latest now)) start (accrue cur c now s))
            (sym held.start_is) held

      upgrade-Paced :
          (latest now : ℕ) (s : State B)
          → Paced latest s
          → Paced latest (on_runtime_upgrade c now s)
      unfolding on_runtime_upgrade
      upgrade-Paced latest now s v =
          let done : leb storage_version s.version ≡ true = ground (arith, v.version_is) in
          rw done v

      mint-Paced :
          (latest who amount : ℕ) (s s1 : State B)
          → Paced latest s
          → mint_faucet cur who amount s ≡ ok s1
          → Paced latest s1
      mint-Paced latest who amount s s1 v h =
          rw (mint_faucet_gives c rs cur who amount s s1 h).0
            (Held-free (since s.start_at latest) s.start_at s _ _ _ v)

      pay-Paced :
          (latest subnet who requested : ℕ) (s : State B)
          → Paced latest s
          → Paced latest (pay cur c subnet who requested s).1
      pay-Paced latest subnet who requested s v =
          let (events, bank, paid) = pay_gives c rs cur subnet who requested s in
          rw paid (Held-free (since s.start_at latest) s.start_at s s.faucet_issued events bank v)

      step-Paced :
          (latest : ℕ) (call : Call) (s : State B)
          → Paced latest s
          → Paced (latest_of latest (call ∷ [])) (step c cur call s)
      unfolding step on_initialize
      step-Paced latest (starts_block now) s v = starts_block-Paced latest now s v
      step-Paced latest (upgrades now) s v = upgrade-Paced latest now s v
      step-Paced latest (mints who amount) s v =
          chosen (mint_faucet cur who amount s) (λ s1. mint-Paced latest who amount s s1 v)
        where
          chosen :
              (r : Outcome B)
              → ((s1 : State B) → r ≡ ok s1 → Paced latest s1)
              → Paced latest (elim r [ ok s1 ↦ s1 | err e ↦ s ])
          chosen (ok s1) w = w s1 refl
          chosen (err e) w = v
      step-Paced latest (pays subnet who requested) s v = pay-Paced latest subnet who requested s v

      run-Paced :
          (calls : List Call) (latest : ℕ) (s : State B)
          → Paced latest s
          → Paced (latest_of latest calls) (run c cur calls s)
      unfolding run
      run-Paced [] latest s v = v
      run-Paced (starts_block now ∷ calls) latest s v =
          run-Paced calls (max latest now) (step c cur (starts_block now) s)
            (step-Paced latest (starts_block now) s v)
      run-Paced (upgrades now ∷ calls) latest s v =
          run-Paced calls latest (step c cur (upgrades now) s)
            (step-Paced latest (upgrades now) s v)
      run-Paced (mints who amount ∷ calls) latest s v =
          run-Paced calls latest (step c cur (mints who amount) s)
            (step-Paced latest (mints who amount) s v)
      run-Paced (pays subnet who requested ∷ calls) latest s v =
          run-Paced calls latest (step c cur (pays subnet who requested) s)
            (step-Paced latest (pays subnet who requested) s v)

-- In every run from a genesis that the controller accepts, with a `mul_floor` that rounds down and
-- whatever the balances pallet answers, the scheduled issuance is at most the annual emission over the
-- time from the anchor to the latest clock of the run. Clocks that go back, failed fundings, upgrades,
-- mints and rewards included.
pub run_paced :
    {B : Type 0} (c : Config) (cur : Currency B) (g : GenesisConfig) (bank : B) (s : State B)
    → ((p x : ℕ) → c.mul_floor p x * billion ≤ p * x)
    → build c g bank ≡ ok s
    → (calls : List Call)
    → (run c cur calls s).scheduled_issued * year_seconds
      ≤ c.annual_emission * since (run c cur calls s).start_at (latest_of 0 calls)
run_paced c cur g bank s floor h calls =
    let (valid, stored) = build_gives c g bank s h in
    let (few, different) = valid_routes_gives c g.routes g.enabled valid in
    let found = shares_found g.routes different in
    let sound = run-Sound c g.routes cur calls s (build-Sound c g bank s h) in
    let start : Held c g.routes (since s.start_at 0) s.start_at s = rw stored (record {
      routes_are = refl;
      version_is = refl;
      start_is = refl;
      paced = λ k. omega arith;
    }) in
    let final = run-Paced c g.routes cur floor found calls 0 s start in
    let total =
      sum-Within c g.routes (since (run c cur calls s).start_at (latest_of 0 calls))
        (run c cur calls s).subnet_issued g.routes found final.paced in
    let whole : shares g.routes
          * (c.annual_emission * since (run c cur calls s).start_at (latest_of 0 calls))
        ≤ billion * (c.annual_emission * since (run c cur calls s).start_at (latest_of 0 calls)) =
      mul-le-mul_right _ few in
    omega (arith, total, whole, sound.summed)
