-- ===== src/SlashPolicy/Tests.antt =====
-- Motions of the slash policy on small inputs (pallets/slash-policy).
use quip_validator.Prelude.{
  ℕ, zero, suc, ◌+◌, ◌-◌, ◌≤◌, ◌==◌, ◌≡◌, refl, arith, List, [], ◌∷◌, some, ok, put,
}
use quip_validator.SlashPolicy.Policy.{
  Config, Staking, State, UnappliedSlash, max_cumulative, discretionary_slash, slash_scheduled,
}
use quip_validator.SlashPolicy.Ledger.{charged_from}
use quip_validator.SlashPolicy.Ledger.Reachable.{starts, slashes, slash_within_budget}

abbrev config : Config
config = record {
  bonding_duration = 2;
  slash_defer_duration = 1;
  max_budget_window = 4;
  is_council = λ origin. origin == 0;
}

abbrev queue : ℕ → List UnappliedSlash
queue zero = []
queue (suc n) = record { own = 1; others = [] } ∷ queue n

-- Staking's storage is the active era and the number of queued slashes.
abbrev staking : Staking (ℕ × ℕ)
staking = record {
  active_era = λ k. some k.0;
  exposure_total = λ era stash k. some 100;
  unapplied_slashes = λ era k. queue k.1;
  manual_slash = λ stash era fraction k. some (k.0, k.1 + 1);
}

abbrev start : State (ℕ × ℕ)
start = record {
  per_motion = 10000000;
  cumulative = 40000000;
  budget_window = 2;
  slash_history = λ stash. [];
  events = [];
  staking_state = (5, 0);
}

-- One motion of 1% in era 5.
abbrev after_one : State (ℕ × ℕ)
after_one = record start {
  slash_history = put (λ stash. []) 3 ((5, 10000000) ∷ []);
  events = slash_scheduled 3 5 7 10000000 30000000 ∷ [];
  staking_state = (5, 1);
}

abbrev after_two : State (ℕ × ℕ)
after_two = record after_one {
  slash_history = put after_one.slash_history 3 ((5, 20000000) ∷ []);
  events = slash_scheduled 3 5 7 10000000 30000000 ∷ slash_scheduled 3 5 7 10000000 20000000 ∷ [];
  staking_state = (5, 2);
}

first_slash : discretionary_slash config staking 0 3 5 10000000 start ≡ ok after_one
unfolding discretionary_slash
first_slash = refl

second_slash : discretionary_slash config staking 0 3 5 10000000 after_one ≡ ok after_two
unfolding discretionary_slash
second_slash = refl

slash_within_budget_example :
    (charged_from
        (5 - (after_one.budget_window - 1))
        ((5, 10000000) ∷ (put (λ stash. []) 3 ((5, 10000000) ∷ [])) 3)
      ≤ after_one.cumulative)
    × (after_one.cumulative ≤ max_cumulative)
slash_within_budget_example =
    slash_within_budget config staking 0 3 5 10000000
      (slashes 0 3 5 10000000 (starts start (λ stash. refl)) refl (omega arith) first_slash) refl
      (omega arith) second_slash
