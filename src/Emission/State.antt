-- ===== src/Emission/State.antt =====
-- The storage, events, errors and currency of the emission controller
-- (pallets/emission-controller/src/lib.rs).
use quip_validator.Prelude.{ℕ, Bool, List, [], ◌∷◌, ◌++◌, Option, Result}
use quip_validator.Emission.Schedule.{Route}

-- The pallet's errors; `currency` is an error of the balances pallet.
pub data Error : Type 0 where
  zero_amount budget_exceeded overflow deposit_failed currency : Error

pub data Event : Type 0 where
  subnet_funded : ℕ → ℕ → Event
  reward_paid : ℕ → ℕ → ℕ → Event
  faucet_minted : ℕ → ℕ → Event
  funding_failed : ℕ → ℕ → Error → Event
  reward_unavailable : ℕ → ℕ → ℕ → Option Error → Event

-- What the hooks and the genesis refuse.
pub data Fault : Type 0 where
  invalid_routes zero_annual_emission start_at_epoch unbounded_routes : Fault
  faucet_over_budget issuance_overflow issuance_mismatch rebase_overflow rebase_incomplete : Fault
  wrong_anchor issued_changed issuance_changed subnet_changed : Fault

-- `Currency`, over the balances `B`: `deposit_creating` with what the imbalance it returns holds, and
-- the balances once that imbalance is dropped; `transfer`, which keeps the payer alive. `none` is an
-- error of that pallet.
pub record Currency (B : Type 0) : Type 0 where
  pub deposit_creating : ℕ → ℕ → B → ℕ × B
  pub total_issuance : B → ℕ
  pub free_balance : ℕ → B → ℕ
  pub minimum_balance : ℕ
  pub transfer : ℕ → ℕ → ℕ → B → Option B

-- The storage; the events of a block stand oldest first.
pub record State (B : Type 0) : Type 0 where
  pub enabled : Bool
  pub start_at : Option ℕ
  pub routes : List Route
  pub subnet_issued : ℕ → ℕ
  pub scheduled_issued : ℕ
  pub faucet_budget : ℕ
  pub faucet_issued : ℕ
  pub version : ℕ
  pub events : List Event
  pub bank : B

pub record GenesisConfig : Type 0 where
  pub enabled : Bool
  pub start_at : Option ℕ
  pub routes : List Route
  pub faucet_budget : ℕ

abbrev pub Outcome : Type 0 → Type 0
Outcome B = Result Error (State B)

module _ {B : Type 0} where
  abbrev pub deposit_event : Event → State B → State B
  deposit_event e s = record s { events = s.events ++ e ∷ [] }
