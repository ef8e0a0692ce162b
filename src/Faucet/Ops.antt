-- ===== src/Faucet/Ops.antt =====
-- The faucet's storage, calls and upgrade (pallets/faucet-ops/src/lib.rs), over the emission
-- controller that mints for it.
use quip_validator.Prelude.{
  ℕ, ◌==◌, ltb, Bool, true, false, not, ◌||◌, if◌then◌else◌, List, [], ◌∷◌, ◌++◌, Option, none,
  some, Result, ok, err, ◌>>=◌, ◌>>◌, ensure, is_some,
}
use quip_validator.Emission.State.{Currency}
use quip_validator.Emission.State
use quip_validator.Emission.Issue.{mint_faucet}

pub data FaucetState : Type 0 where
  enabled permanently_disabled paused : FaucetState

-- A signed account, or an origin of the system that a number names.
pub data Origin : Type 0 where
  signed : ℕ → Origin
  system : ℕ → Origin

-- The pallet's errors; `bad_origin` is the framework's, `emission` one of the controller.
pub data Error : Type 0 where
  zero_amount deposit_failed disabled bad_origin : Error
  emission : State.Error → Error

pub data Event : Type 0 where
  minted : ℕ → ℕ → Event
  fuse_blown : Event
  authority_changed : Option ℕ → Event

-- The storage. A state that was never written reads as the default, the blown fuse.
pub record Store (B : Type 0) : Type 0 where
  pub faucet_state : Option FaucetState
  pub authority : Option ℕ
  pub version : ℕ
  pub events : List Event
  pub controller : State.State B

abbrev pub Outcome : Type 0 → Type 0
Outcome B = Result Error (Store B)

abbrev pub or_default : Option FaucetState → FaucetState
or_default none = permanently_disabled
or_default (some f) = f

abbrev pub is_enabled : FaucetState → Bool
is_enabled enabled = true
is_enabled _ = false

abbrev pub is_blown : Option FaucetState → Bool
is_blown (some permanently_disabled) = true
is_blown _ = false

abbrev pub is_account : Option ℕ → ℕ → Bool
is_account none who = false
is_account (some a) who = a == who

abbrev pub storage_version : ℕ
storage_version = 1

-- `EnsureFaucetAuthority::try_origin`
unfoldable pub try_authority : Option ℕ → Origin → Bool
try_authority authority (signed who) = is_account authority who
try_authority authority (system k) = false

-- `or_emission` is the `?` on the controller's result.
abbrev pub or_emission {ℓ} : {A : Type ℓ} → Result State.Error A → Result Error A
or_emission (ok a) = ok a
or_emission (err e) = err (emission e)

-- The faucet's genesis, over that of the controller.
unfoldable pub build : {B : Type 0} → FaucetState → Option ℕ → State.State B → Option (Store B)
build state authority controller =
    if not (is_enabled state) || is_some authority
    then some (record {
      faucet_state = some state;
      authority = authority;
      version = storage_version;
      events = [];
      controller = controller;
    })
    else none

module _ {B : Type 0} where
  abbrev pub deposit_event : Event → Store B → Store B
  deposit_event e s = record s { events = s.events ++ e ∷ [] }

  -- The operational key, or the foundation's origin.
  abbrev pub may_mint : (Origin → Bool) → Origin → Store B → Bool
  may_mint is_foundation origin s = try_authority s.authority origin || is_foundation origin

  unfoldable pub mint : Currency B → (Origin → Bool) → Origin → ℕ → ℕ → Store B → Outcome B
  unfolding try_authority mint_faucet
  mint cur is_foundation origin who amount s =
      ensure (may_mint is_foundation origin s) bad_origin
      >> (ensure (is_enabled (or_default s.faucet_state)) disabled
          >> (ensure (not (amount == 0)) zero_amount
              >> (or_emission (mint_faucet cur who amount s.controller) >>= λ controller.
                  ok (deposit_event (minted who amount) (record s { controller = controller })))))

  unfoldable pub set_authority : (Origin → Bool) → Origin → Option ℕ → Store B → Outcome B
  set_authority is_foundation origin authority s =
      ensure (is_foundation origin) bad_origin
      >> ok (deposit_event (authority_changed authority) (record s { authority = authority }))

  unfoldable pub disable : (Origin → Bool) → Origin → Store B → Outcome B
  unfolding try_authority
  disable is_foundation origin s =
      ensure (may_mint is_foundation origin s) bad_origin
      >> (ensure (is_enabled (or_default s.faucet_state)) disabled
          >> ok (deposit_event fuse_blown (record s { faucet_state = some permanently_disabled })))

  unfoldable pub on_runtime_upgrade : Store B → Store B
  on_runtime_upgrade s =
      if ltb s.version storage_version
      then (record s {
        faucet_state = if is_blown s.faucet_state then s.faucet_state else some paused;
        authority = none;
        version = storage_version;
      })
      else s
