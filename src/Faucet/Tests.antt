-- ===== src/Faucet/Tests.antt =====
-- Runs of the faucet on small inputs (pallets/faucet-ops).
use quip_validator.Prelude.{ℕ, ◌+◌, ◌≡◌, refl, Bool, true, false, List, [], ◌∷◌, none, some}
use quip_validator.Emission.State.{Currency}
use quip_validator.Faucet.Ops.{Origin, signed, system, Store, enabled, permanently_disabled}
use quip_validator.Faucet.Fuse.{Call, mints, disables, is_open, run, run_closed}

abbrev one_number : Currency ℕ
one_number = record {
  deposit_creating = λ who amount bank. (amount, bank + amount);
  total_issuance = λ bank. bank;
  free_balance = λ who bank. 10;
  minimum_balance = 1;
  transfer = λ from to amount bank. some bank;
}

abbrev foundation : Origin → Bool
foundation (signed who) = false
foundation (system k) = true

abbrev start : Store ℕ
start = record {
  faucet_state = some enabled;
  authority = some 8;
  version = 1;
  events = [];
  controller = record {
    enabled = false;
    start_at = none;
    routes = [];
    subnet_issued = λ subnet. 0;
    scheduled_issued = 0;
    faucet_budget = 50;
    faucet_issued = 0;
    version = 2;
    events = [];
    bank = 7;
  };
}

abbrev calls : List Call
calls =
    mints (signed 8) 5 20 ∷ mints (signed 9) 5 10 ∷ disables (signed 8) ∷ mints (system 0) 5 10 ∷ []

-- The authority mints, a stranger does not, and nobody after the fuse has blown.
run_minted : (run one_number foundation calls start).controller.faucet_issued ≡ 20
unfolding run
run_minted = refl

abbrev blown : Store ℕ
blown = record start { faucet_state = some permanently_disabled }

run_closed_example :
    (is_open (run one_number foundation calls blown) ≡ false)
    × ((run one_number foundation calls blown).controller ≡ blown.controller)
run_closed_example = run_closed one_number foundation calls blown refl
