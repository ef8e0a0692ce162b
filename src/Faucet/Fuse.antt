-- ===== src/Faucet/Fuse.antt =====
-- A closed faucet stays closed (pallets/faucet-ops/src/lib.rs).
use quip_validator.Prelude.{
  ℕ, Bool, false, List, [], ◌∷◌, Option, ok, err, ◌≡◌, refl, ◌∙◌, arith, >>-eq-ok, >>-ok_left,
  ensure, ensure-eq-ok,
}
use quip_validator.Emission.State.{Currency}
use quip_validator.Faucet.Ops.{
  Origin, Store, Outcome, Error, is_enabled, or_default, may_mint, mint, set_authority, disable,
  on_runtime_upgrade,
}

pub data Call : Type 0 where
  mints : Origin → ℕ → ℕ → Call
  sets_authority : Origin → Option ℕ → Call
  disables : Origin → Call
  upgrades : Call

abbrev pub is_open : {B : Type 0} → Store B → Bool
is_open s = is_enabled (or_default s.faucet_state)

module _ {B : Type 0} (cur : Currency B) (is_foundation : Origin → Bool) where
  unfoldable pub dispatch : Call → Store B → Outcome B
  unfolding mint set_authority disable on_runtime_upgrade
  dispatch (mints origin who amount) s = mint cur is_foundation origin who amount s
  dispatch (sets_authority origin authority) s = set_authority is_foundation origin authority s
  dispatch (disables origin) s = disable is_foundation origin s
  dispatch upgrades s = ok (on_runtime_upgrade s)

  -- A call that fails leaves the storage as it was.
  unfoldable pub step : Call → Store B → Store B
  unfolding dispatch
  step call s = elim (dispatch call s) [ ok s1 ↦ s1 | err e ↦ s ]

  unfoldable pub run : List Call → Store B → Store B
  unfolding step
  run [] s = s
  run (call ∷ calls) s = run calls (step call s)

  -- Whether the store is closed, with the controller as it was.
  abbrev Closed : Store B → Store B → Type 0
  Closed s s1 = (is_open s1 ≡ false) × (s1.controller ≡ s.controller)

  dispatch-Closed :
      (call : Call) (s s1 : Store B) → is_open s ≡ false → dispatch call s ≡ ok s1 → Closed s s1
  unfolding dispatch mint set_authority disable on_runtime_upgrade
  dispatch-Closed (mints origin who amount) s s1 closed h =
      let allowed = >>-eq-ok (ensure (may_mint is_foundation origin s) Error.bad_origin) _ h in
      let opened =
        ensure-eq-ok (is_open s) Error.disabled
          (>>-ok_left (ensure (is_open s) Error.disabled) _ allowed) in
      absurd (cc)
  dispatch-Closed (sets_authority origin authority) s s1 closed h = ground (arith, closed, h)
  dispatch-Closed (disables origin) s s1 closed h = ground (arith, closed, h)
  dispatch-Closed upgrades s s1 closed h = ground (arith, closed, h)

  step-Closed : (call : Call) (s : Store B) → is_open s ≡ false → Closed s (step call s)
  unfolding step
  step-Closed call s closed = after (dispatch call s) (λ s1. dispatch-Closed call s s1 closed)
    where
      after :
          (r : Outcome B)
          → ((s1 : Store B) → r ≡ ok s1 → Closed s s1)
          → Closed s (elim r [ ok s1 ↦ s1 | err e ↦ s ])
      after (ok s1) h = h s1 refl
      after (err e) h = (closed, refl)

  run-Closed : (calls : List Call) (s : Store B) → is_open s ≡ false → Closed s (run calls s)
  unfolding run
  run-Closed [] s closed = (closed, refl)
  run-Closed (call ∷ calls) s closed =
      let (still, same) = step-Closed call s closed in
      let (shut, kept) = run-Closed calls (step call s) still in (shut, kept ∙ same)

-- A faucet that is not enabled, be it disabled, paused or never set, stays so in every run of mints,
-- changes of the authority, disablings and upgrades, by whatever origins, and the emission controller
-- is not touched: nothing is minted, and its budget is not spent.
pub run_closed :
    {B : Type 0} (cur : Currency B) (is_foundation : Origin → Bool) (calls : List Call)
    (s : Store B)
    → is_open s ≡ false
    → (is_open (run cur is_foundation calls s) ≡ false)
      × ((run cur is_foundation calls s).controller ≡ s.controller)
run_closed cur is_foundation calls s closed = run-Closed cur is_foundation calls s closed
