-- ===== src/Emission/Tests.antt =====
-- Runs of the emission controller on small inputs (pallets/emission-controller).
use native.Mathlib.Nat.{mul-le-mul_left}
use quip_validator.Prelude.{
  All, ℕ, ◌+◌, ◌*◌, ◌/◌, ◌≤◌, ◌≡◌, refl, arith, true, List, [], ◌∷◌, none, some, ok, ◌==◌, leb,
  if◌then◌else◌, u128_max,
}
use quip_validator.Emission.Schedule.{Config, billion, year_seconds, entitlement}
use quip_validator.Emission.Schedule.Exact.{entitlement_total}
use quip_validator.Emission.State.{Currency, State, GenesisConfig}
use quip_validator.Emission.Issue.{accrue}
use quip_validator.Emission.Upgrade.{
  build, try_state, Snapshot, pre_upgrade, post_upgrade, on_runtime_upgrade,
}
use quip_validator.Emission.Machine.{run, Call, starts_block, upgrades, mints, pays}
use quip_validator.Emission.Invariant.Runs.{try_state-run}
use quip_validator.Emission.Invariant.Upgrade.{post_upgrade-on_runtime_upgrade}
use quip_validator.Emission.Paced.Rebase.{Resumed, on_runtime_upgrade_resumes}
use quip_validator.Emission.Paced.Owed.{Settled, accrue_settles}
use quip_validator.Emission.Paced.Runs.{since, latest_of, run_paced}

-- One unit a second.
abbrev config : Config
config = record {
  annual_emission = 31536000;
  max_subnets = 2;
  pot = λ subnet. subnet + 100;
  mul_floor = λ p x. p * x / billion;
  multiply_down = λ a b d. if leb (a * b / d) u128_max then some (a * b / d) else none;
}

-- The bank is the total issuance.
abbrev one_number : Currency ℕ
one_number = record {
  deposit_creating = λ who amount bank. (amount, bank + amount);
  total_issuance = λ bank. bank;
  free_balance = λ who bank. 10;
  minimum_balance = 1;
  transfer = λ from to amount bank. some bank;
}

abbrev genesis : GenesisConfig
genesis = record {
  enabled = true;
  start_at = some 1000;
  routes = (0, 750000000) ∷ (1, 250000000) ∷ [];
  faucet_budget = 50;
}

abbrev at_genesis : State ℕ
at_genesis = record {
  enabled = true;
  start_at = some 1000;
  routes = (0, 750000000) ∷ (1, 250000000) ∷ [];
  subnet_issued = λ subnet. 0;
  scheduled_issued = 0;
  faucet_budget = 50;
  faucet_issued = 0;
  version = 2;
  events = [];
  bank = 7;
}

genesis_builds : build config genesis 7 ≡ ok at_genesis
unfolding build
genesis_builds = refl

abbrev calls : List Call
calls =
    starts_block 1100
    ∷ mints 5 20
    ∷ pays 0 6 4
    ∷ mints 5 31
    ∷ upgrades 1150
    ∷ starts_block 1200
    ∷ []

-- The second mint is over the budget.
run_faucet : (run config one_number calls at_genesis).faucet_issued ≡ 20
unfolding run
run_faucet = refl

run_scheduled : (run config one_number calls at_genesis).scheduled_issued ≡ 200
unfolding run
run_scheduled = refl

entitlement_total_example :
    entitlement config 100 ≡ some (config.annual_emission * 100 / year_seconds)
entitlement_total_example = entitlement_total config 100 (omega arith)

try_state-run_example : try_state config (run config one_number calls at_genesis) ≡ ok tt
try_state-run_example = try_state-run config one_number genesis 7 at_genesis genesis_builds calls

run_paced_example :
    (run config one_number calls at_genesis).scheduled_issued * year_seconds
    ≤ config.annual_emission
      * since (run config one_number calls at_genesis).start_at (latest_of 0 calls)
run_paced_example =
    run_paced config one_number genesis 7 at_genesis (λ p x. omega arith) genesis_builds calls

accrue_settles_example :
    All (Settled config 100 (accrue one_number config 1100 at_genesis)) at_genesis.routes
unfolding entitlement
accrue_settles_example =
    accrue_settles config one_number 1100 1000 100 at_genesis refl refl (omega arith) refl refl

abbrev issued_90 : State ℕ
issued_90 = record at_genesis { scheduled_issued = 90; version = 1 }

-- A hundred units a second, and 90 seconds of them issued.
abbrev fast : Config
fast = record config { annual_emission = 3153600000 }

abbrev issued_fast : State ℕ
issued_fast = record issued_90 {
  scheduled_issued = 9000;
  subnet_issued = λ subnet. if subnet == 0 then 6750 else 2250;
}

mul_floor_mono : (p x y : ℕ) → x ≤ y → p * x / billion ≤ p * y / billion
mul_floor_mono p x y h = let more : p * x ≤ p * y = mul-le-mul_left p h in omega (arith, more)

on_runtime_upgrade_resumes_example :
    (accrue one_number fast 1100 (on_runtime_upgrade fast 1100 issued_fast)
      ≡ on_runtime_upgrade fast 1100 issued_fast)
    × All
        (Resumed issued_fast.subnet_issued
          (accrue one_number fast 1102 (on_runtime_upgrade fast 1100 issued_fast)))
        issued_fast.routes
on_runtime_upgrade_resumes_example =
    on_runtime_upgrade_resumes fast one_number 1100 1000 issued_fast mul_floor_mono
      (λ a b d positive fits. ground (arith, fits)) (omega arith) refl refl (omega arith) refl
      (omega arith) (omega arith) (omega arith)
      ((omega arith, omega arith), ((omega arith, omega arith), tt))

abbrev announced : Snapshot
announced = record {
  start = some 1010;
  issued = 90;
  issuance = 7;
  counters = (0, 60) ∷ (1, 30) ∷ [];
}

-- Before the upgrade at 1100 the controller has issued what it owes for 90 seconds.
abbrev issued_both : State ℕ
issued_both = record issued_90 { subnet_issued = λ subnet. if subnet == 0 then 60 else 30 }

announces : pre_upgrade one_number config 1100 issued_both ≡ ok announced
unfolding pre_upgrade
announces = refl

post_upgrade-on_runtime_upgrade_example :
    post_upgrade one_number config announced (on_runtime_upgrade config 1100 issued_both) ≡ ok tt
post_upgrade-on_runtime_upgrade_example =
    post_upgrade-on_runtime_upgrade config one_number 1100 issued_both (omega arith) announces
