-- ===== src/Emission/Issue.antt =====
-- Issuance of the emission controller: `deposit_exact`, `fund_subnet`, `accrue`, `mint_faucet`, and
-- `SubnetRewards::pay` (pallets/emission-controller/src/lib.rs). A function marked `transactional` that
-- fails leaves the storage as it was.
use quip_validator.Prelude.{
  ℕ, ◌-◌, ◌==◌, leb, ltb, ◌||◌, if◌then◌else◌, List, [], ◌∷◌, Option, none, some, ok, err, ◌>>=◌,
  ◌>>◌, ensure, ok_or, put, checked_add, is_some, min, u128_max,
}
use quip_validator.Emission.Schedule.{Config, Route, entitlement}
use quip_validator.Emission.State.{
  zero_amount, budget_exceeded, overflow, deposit_failed, currency, subnet_funded, reward_paid,
  faucet_minted, funding_failed, reward_unavailable, Currency, State, Outcome, deposit_event,
}

module _ {B : Type 0} where
  -- The outcome, or the event that says it failed.
  unfoldable pub or_report : ℕ → ℕ → State B → Outcome B → State B
  or_report subnet amount s (ok s1) = s1
  or_report subnet amount s (err e) = deposit_event (funding_failed subnet amount e) s

  -- The transfer's result: the amount paid, and the storage.
  unfoldable pub settle_reward : ℕ → ℕ → ℕ → ℕ → State B → Option B → ℕ × State B
  settle_reward subnet who requested amount s none =
      (0, deposit_event (reward_unavailable subnet who requested (some currency)) s)
  settle_reward subnet who requested amount s (some bank) =
      (amount, deposit_event (reward_paid subnet who amount) (record s { bank = bank }))

module _ {B : Type 0} (cur : Currency B) where
  unfoldable pub deposit_exact : ℕ → ℕ → State B → Outcome B
  deposit_exact who amount s =
      let (held, bank) = cur.deposit_creating who amount s.bank in
      ensure (is_some (checked_add u128_max (cur.total_issuance s.bank) amount)) overflow
      >> (ensure (held == amount) deposit_failed >> ok (record s { bank = bank }))

  unfoldable pub fund_subnet : Config → ℕ → ℕ → State B → Outcome B
  unfolding deposit_exact
  fund_subnet c subnet amount s =
      ok_or (checked_add u128_max (s.subnet_issued subnet) amount) overflow >>= λ next.
      ok_or (checked_add u128_max s.scheduled_issued amount) overflow >>= λ total.
      deposit_exact (c.pot subnet) amount s >>= λ s1. ok (
        deposit_event (subnet_funded subnet amount) (record s1 {
          subnet_issued = put s1.subnet_issued subnet next;
          scheduled_issued = total;
        }))

  -- One pass of the loop.
  unfoldable pub accrue_one : Config → ℕ → Route → State B → State B
  unfolding fund_subnet or_report
  accrue_one c total (subnet, share) s =
      let amount = c.mul_floor share total - s.subnet_issued subnet in
      if amount == 0 then s else or_report subnet amount s (fund_subnet c subnet amount s)

  unfoldable pub accrue_each : Config → ℕ → List Route → State B → State B
  unfolding accrue_one
  accrue_each c total [] s = s
  accrue_each c total (r ∷ rs) s = accrue_each c total rs (accrue_one c total r s)

  unfoldable pub accrue_total : Config → Option ℕ → State B → State B
  unfolding accrue_each
  accrue_total c none s = s
  accrue_total c (some total) s = accrue_each c total s.routes s

  unfoldable pub accrue_from : Config → ℕ → Option ℕ → State B → State B
  unfolding accrue_total entitlement
  accrue_from c now none s = record s { start_at = some now }
  accrue_from c now (some start) s = accrue_total c (entitlement c (now - start)) s

  unfoldable pub accrue : Config → ℕ → State B → State B
  unfolding accrue_from
  accrue c now s = if s.enabled then (if now == 0 then s else accrue_from c now s.start_at s) else s

  unfoldable pub mint_faucet : ℕ → ℕ → State B → Outcome B
  unfolding deposit_exact
  mint_faucet who amount s =
      ensure (ltb 0 amount) zero_amount
      >> (ok_or (checked_add u128_max s.faucet_issued amount) overflow >>= λ next.
          ensure (leb next s.faucet_budget) budget_exceeded
          >> (deposit_exact who amount s >>= λ s1.
              ok (deposit_event (faucet_minted who amount) (record s1 { faucet_issued = next }))))

  unfoldable pub pay : Config → ℕ → ℕ → ℕ → State B → ℕ × State B
  unfolding settle_reward
  pay c subnet who requested s =
      let pot = c.pot subnet in
      let amount = min requested (cur.free_balance pot s.bank - cur.minimum_balance) in
      if amount == 0 || pot == who
      then (0, deposit_event (reward_unavailable subnet who requested none) s)
      else settle_reward subnet who requested amount s (cur.transfer pot who amount s.bank)

  -- The clock's seconds are those of the previous block.
  unfoldable pub on_initialize : Config → ℕ → State B → State B
  unfolding accrue
  on_initialize c now s = accrue c now s
