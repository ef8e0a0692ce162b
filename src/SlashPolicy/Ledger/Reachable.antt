-- ===== src/SlashPolicy/Ledger/Reachable.antt =====
-- The states that the slash policy reaches, each with the ledger of all the motions that succeeded.
use quip_validator.Prelude.{
  ℕ, ◌+◌, ◌-◌, ◌≤◌, ◌==◌, ◌≡◌, refl, ◌∙◌, arith, List, [], ◌∷◌, some, ok, put, >>-eq-ok, ensure,
  inl, inr, Bool-cases, ==→eq,
}
use quip_validator.SlashPolicy.Policy.{
  Config, Staking, State, Charge, Error, max_cumulative, check_fractions, check_window, limits_set,
  deposit_event, set_limits, discretionary_slash,
}
use quip_validator.SlashPolicy.Ledger.{charged_from, charge_gives, discretionary_slash_gives}

-- The state, the charges of each stash, and an era that the clock has reached. Eras do not go back;
-- staking's own storage may change in any way between two calls.
pub data Reached {K : Type 0} (c : Config) (staking_of : Staking K)
    : State K → (ℕ → List Charge) → ℕ → Type 0 where
  starts :
      (s : State K)
      → ((stash : ℕ) → s.slash_history stash ≡ [])
      → Reached c staking_of s (λ stash. []) 0
  slashes :
      {s s1 : State K} {ledger : ℕ → List Charge} {latest active : ℕ}
      (origin stash era fraction : ℕ)
      → Reached c staking_of s ledger latest
      → staking_of.active_era s.staking_state ≡ some active
      → latest ≤ active
      → discretionary_slash c staking_of origin stash era fraction s ≡ ok s1
      → Reached c staking_of s1 (put ledger stash ((active, fraction) ∷ ledger stash)) active
  limits :
      {s s1 : State K} {ledger : ℕ → List Charge} {latest : ℕ}
      (origin per_motion cumulative window : ℕ)
      → Reached c staking_of s ledger latest
      → set_limits c origin per_motion cumulative window s ≡ ok s1
      → Reached c staking_of s1 ledger latest
  stakes :
      {s : State K} {ledger : ℕ → List Charge} {latest : ℕ} (after : K)
      → Reached c staking_of s ledger latest
      → Reached c staking_of (record s { staking_state = after }) ledger latest

set_limits_keeps :
    {K : Type 0} (c : Config) (origin per_motion cumulative window : ℕ) (s s1 : State K)
    → set_limits c origin per_motion cumulative window s ≡ ok s1
    → s1.slash_history ≡ s.slash_history
unfolding set_limits
set_limits_keeps c origin per_motion cumulative window s s1 h =
    let allowed = >>-eq-ok (ensure (c.is_council origin) Error.bad_origin) _ h in
    let limited = >>-eq-ok (check_fractions per_motion cumulative) _ allowed in
    let stored = >>-eq-ok (check_window c window) _ limited in
    let is : deposit_event (limits_set per_motion cumulative window)
          (record s { per_motion = per_motion; cumulative = cumulative; budget_window = window })
        ≡ s1 =
      cc in
    rw (← is) refl

module _ {K : Type 0} (c : Config) (staking_of : Staking K) where
  -- A slash that succeeds charges its fraction in the active era, within the limit of the window.
  slash_charges :
      (origin stash era fraction active : ℕ) (s s1 : State K)
      → staking_of.active_era s.staking_state ≡ some active
      → discretionary_slash c staking_of origin stash era fraction s ≡ ok s1
      → (history : List Charge) × (s1.slash_history ≡ put s.slash_history stash history)
        × (fraction + charged_from (active - (s.budget_window - 1)) (s.slash_history stash)
            ≤ s.cumulative)
        × (s.cumulative ≤ max_cumulative)
        × (s.budget_window ≤ c.max_budget_window)
        × ((from : ℕ)
            → active - (c.max_budget_window - 1) ≤ from
            → charged_from from history
              ≡ charged_from from ((active, fraction) ∷ s.slash_history stash))
  slash_charges origin stash era fraction active s s1 at h =
      let (active', charged, history, at', low, wide, paid, stored) =
        discretionary_slash_gives c staking_of origin stash era fraction s s1 h in
      let same : active' ≡ active = cc in
      let (sum, fits, agrees) =
        charge_gives c staking_of stash active fraction s charged history wide (omega (arith, low))
          (rw same at paid) in
      (history, stored, omega (arith, sum, fits), low, wide, agrees)

  -- From the horizon on, the history charges what the ledger does.
  Reached-agrees :
      {s : State K} {ledger : ℕ → List Charge} {latest : ℕ}
      → Reached c staking_of s ledger latest
      → (stash from : ℕ) → latest - (c.max_budget_window - 1) ≤ from
      → charged_from from (s.slash_history stash) ≡ charged_from from (ledger stash)
  Reached-agrees (starts s empty) stash from le = rw (empty stash) refl
  Reached-agrees
        (slashes {s} {s1} {ledger} {latest} {active} origin slashed era fraction r at later h) stash
        from le =
      let (history, stored, fits, low, wide, agrees) =
        slash_charges origin slashed era fraction active s s1 at h in
      let before = Reached-agrees r stash from (omega (arith, later, le)) in
      elim (Bool-cases (stash == slashed)) [
        | inl e ↦
            let same : stash ≡ slashed = ==→eq stash slashed e in
            rw (stored, e) (agrees from le ∙ ground (arith, before, same))
        | inr e ↦ rw (stored, e) before
      ]
  Reached-agrees (limits {s} {s1} origin per_motion cumulative window r h) stash from le =
      rw (set_limits_keeps c origin per_motion cumulative window s s1 h)
        (Reached-agrees r stash from le)
  Reached-agrees (stakes after r) stash from le = Reached-agrees r stash from le

  -- Whatever motions, changes of the limits and moves of staking came before: when a slash of a stash
  -- succeeds in the active era, no earlier than the eras of the motions before it, then the fractions of
  -- all the motions that ever succeeded against that stash within the budget window, this one included,
  -- sum to at most the cumulative limit in force, and that limit is at most the immutable ceiling.
  pub slash_within_budget :
      (origin stash era fraction : ℕ) {s s1 : State K} {ledger : ℕ → List Charge}
      {latest active : ℕ}
      → Reached c staking_of s ledger latest
      → staking_of.active_era s.staking_state ≡ some active
      → latest ≤ active
      → discretionary_slash c staking_of origin stash era fraction s ≡ ok s1
      → (charged_from (active - (s.budget_window - 1)) ((active, fraction) ∷ ledger stash)
          ≤ s.cumulative)
        × (s.cumulative ≤ max_cumulative)
  slash_within_budget origin stash era fraction {s} {s1} {ledger} {latest} {active} r at later h =
      let (history, stored, fits, low, wide, agrees) =
        slash_charges origin stash era fraction active s s1 at h in
      let before =
        Reached-agrees r stash (active - (s.budget_window - 1)) (omega (arith, later, wide)) in
      (ground (arith, fits, before), low)
