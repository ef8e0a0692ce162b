-- ===== src/Emission/Machine.antt =====
-- The emission controller as a state machine: its hooks, and the calls of the other pallets.
use quip_validator.Prelude.{ℕ, List, [], ◌∷◌, ok, err}
use quip_validator.Emission.Schedule.{Config}
use quip_validator.Emission.State.{Currency, State}
use quip_validator.Emission.Issue.{on_initialize, mint_faucet, pay}
use quip_validator.Emission.Upgrade.{on_runtime_upgrade}

pub data Call : Type 0 where
  starts_block : ℕ → Call
  upgrades : ℕ → Call
  mints : ℕ → ℕ → Call
  pays : ℕ → ℕ → ℕ → Call

module _ (c : Config) {B : Type 0} (cur : Currency B) where
  -- A call that fails leaves the storage as it was.
  unfoldable pub step : Call → State B → State B
  unfolding on_initialize mint_faucet pay on_runtime_upgrade
  step (starts_block now) s = on_initialize cur c now s
  step (upgrades now) s = on_runtime_upgrade c now s
  step (mints who amount) s = elim (mint_faucet cur who amount s) [ ok s1 ↦ s1 | err e ↦ s ]
  step (pays subnet who requested) s = (pay cur c subnet who requested s).1

  unfoldable pub run : List Call → State B → State B
  unfolding step
  run [] s = s
  run (call ∷ calls) s = run calls (step call s)
