-- ===== src/SlashPolicy/Policy.antt =====
-- The slash policy's storage and its two calls (pallets/slash-policy/src/lib.rs).
use quip_validator.Prelude.{
  ℕ, ◌-◌, ◌==◌, leb, ltb, Bool, false, not, ◌&&◌, ◌||◌, if◌then◌else◌, List, [], ◌∷◌, ◌++◌, length,
  get_elem?, Option, none, some, Result, ok, err, ◌>>=◌, ◌>>◌, ensure, ok_or, put, sat_add,
  checked_add, ◌>>?◌, u32_max,
}

-- A `Perbill`, by its parts.
abbrev pub billion : ℕ
billion = 1000000000

abbrev pub min_per_motion : ℕ
min_per_motion = 1000000

abbrev pub max_per_motion : ℕ
max_per_motion = 50000000

abbrev pub min_cumulative : ℕ
min_cumulative = 10000000

abbrev pub max_cumulative : ℕ
max_cumulative = 100000000

abbrev pub default_per_motion : ℕ
default_per_motion = 10000000

abbrev pub default_cumulative : ℕ
default_cumulative = 40000000

-- `currency` aside, the pallet's errors; `bad_origin` and `staking` are those of the pallets below.
pub data Error : Type 0 where
  no_active_era invalid_era no_exposure invalid_fraction invalid_window budget_exceeded : Error
  history_full no_slash_scheduled arithmetic_overflow bad_origin staking : Error

pub data Event : Type 0 where
  slash_scheduled : ℕ → ℕ → ℕ → ℕ → ℕ → Event
  limits_set : ℕ → ℕ → ℕ → Event

-- What staking queued for an era: the stash's own part, and those of its nominators.
pub record UnappliedSlash : Type 0 where
  pub own : ℕ
  pub others : List (ℕ × ℕ)

-- The constants that the runtime sets, and the origins of the council.
pub record Config : Type 0 where
  pub bonding_duration : ℕ
  pub slash_defer_duration : ℕ
  pub max_budget_window : ℕ
  pub is_council : ℕ → Bool

-- `pallet_staking` over its storage `K`: the active era, the total exposure of a stash in an era, the
-- slashes queued for an era, and `manual_slash`. `none` is an error of that pallet.
pub record Staking (K : Type 0) : Type 0 where
  pub active_era : K → Option ℕ
  pub exposure_total : ℕ → ℕ → K → Option ℕ
  pub unapplied_slashes : ℕ → K → List UnappliedSlash
  pub manual_slash : ℕ → ℕ → ℕ → K → Option K

-- An era, and the fraction requested in it.
abbrev pub Charge : Type 0
Charge = ℕ × ℕ

pub record State (K : Type 0) : Type 0 where
  pub per_motion : ℕ
  pub cumulative : ℕ
  pub budget_window : ℕ
  pub slash_history : ℕ → List Charge
  pub events : List Event
  pub staking_state : K

abbrev pub Outcome : Type 0 → Type 0
Outcome K = Result Error (State K)

unfoldable pub check_fractions : ℕ → ℕ → Result Error (Unit {0})
check_fractions per_motion cumulative =
    ensure
      (leb min_per_motion per_motion
        && leb per_motion max_per_motion
        && (leb min_cumulative cumulative && leb cumulative max_cumulative)
        && leb per_motion cumulative)
      invalid_fraction

unfoldable pub check_window : Config → ℕ → Result Error (Unit {0})
check_window c window =
    ensure (leb c.bonding_duration window && leb window c.max_budget_window) invalid_window

-- `retain(|(when, _)| *when >= from)`
unfoldable pub retain_from : ℕ → List Charge → List Charge
retain_from from [] = []
retain_from from ((era, used) ∷ rest) =
    let kept = retain_from from rest in if leb from era then (era, used) ∷ kept else kept

-- The checked sum of the charges of a list, onto `sum`.
unfoldable pub try_sum : ℕ → List Charge → Option ℕ
try_sum sum [] = some sum
try_sum sum ((era, used) ∷ rest) = checked_add u32_max sum used >>? λ next. try_sum next rest

-- A charge of the era is found.
unfoldable pub charges : ℕ → List Charge → Bool
charges active [] = false
charges active ((era, used) ∷ rest) = era == active || charges active rest

-- The write through the found entry.
unfoldable pub add_charge : ℕ → ℕ → List Charge → List Charge
add_charge active fraction [] = []
add_charge active fraction ((era, used) ∷ rest) =
    if era == active
    then (era, sat_add billion used fraction) ∷ rest
    else (era, used) ∷ add_charge active fraction rest

unfoldable pub record_charge : Config → ℕ → ℕ → List Charge → Result Error (List Charge)
unfolding charges add_charge
record_charge c active fraction history =
    if charges active history
    then ok (add_charge active fraction history)
    else (if ltb (length history) c.max_budget_window
        then ok (history ++ (active, fraction) ∷ [])
        else err history_full)

unfoldable pub any_nonzero : List (ℕ × ℕ) → Bool
any_nonzero [] = false
any_nonzero ((who, amount) ∷ rest) = not (amount == 0) || any_nonzero rest

-- Staking queued a slash that takes something.
unfoldable pub takes : Option UnappliedSlash → Bool
unfolding any_nonzero
takes none = false
takes (some slash) = not (slash.own == 0) || any_nonzero slash.others

module _ {K : Type 0} where
  abbrev pub deposit_event : Event → State K → State K
  deposit_event e s = record s { events = s.events ++ e ∷ [] }

  unfoldable pub set_limits : Config → ℕ → ℕ → ℕ → ℕ → State K → Outcome K
  unfolding check_fractions check_window
  set_limits c origin per_motion cumulative window s =
      ensure (c.is_council origin) bad_origin
      >> (check_fractions per_motion cumulative
          >> (check_window c window
              >> ok (
                  deposit_event (limits_set per_motion cumulative window) (record s {
                    per_motion = per_motion;
                    cumulative = cumulative;
                    budget_window = window;
                  }))))

module _ {K : Type 0} (c : Config) (staking_of : Staking K) where
  -- The history that is kept, with the new charge, and the sum charged in the window.
  unfoldable pub charge : ℕ → ℕ → ℕ → State K → Result Error (ℕ × List Charge)
  unfolding retain_from try_sum record_charge
  charge stash active fraction s =
      let history = retain_from (active - (c.max_budget_window - 1)) (s.slash_history stash) in
      ok_or (try_sum fraction (retain_from (active - (s.budget_window - 1)) history))
        budget_exceeded
      >>= λ charged.
          ensure (leb charged s.cumulative) budget_exceeded
          >> (record_charge c active fraction history >>= λ next. ok (charged, next))

  -- Staking's queue and the history that is stored.
  unfoldable pub schedule : ℕ → ℕ → ℕ → ℕ → List Charge → State K → Outcome K
  unfolding takes
  schedule stash era fraction charged history s =
      ok_or (checked_add u32_max era c.slash_defer_duration >>? λ e. checked_add u32_max e 1)
        arithmetic_overflow
      >>= λ apply_era.
          ok_or (staking_of.manual_slash stash era fraction s.staking_state) staking >>= λ after.
          ensure
            (takes (
              get_elem? (staking_of.unapplied_slashes apply_era after)
                (length (staking_of.unapplied_slashes apply_era s.staking_state))))
            no_slash_scheduled
          >> ok (
              deposit_event (slash_scheduled stash era apply_era fraction (s.cumulative - charged))
                (record s {
                  staking_state = after;
                  slash_history = put s.slash_history stash history;
                }))

  unfoldable pub discretionary_slash : ℕ → ℕ → ℕ → ℕ → State K → Outcome K
  unfolding check_fractions check_window charge schedule
  discretionary_slash origin stash era fraction s =
      ensure (c.is_council origin) bad_origin
      >> (ok_or (staking_of.active_era s.staking_state) no_active_era >>= λ active.
          ensure (leb era active && leb (active - c.slash_defer_duration) era) invalid_era
          >> (ok_or (staking_of.exposure_total era stash s.staking_state) no_exposure >>= λ total.
              ensure (not (total == 0)) no_exposure
              >> (check_fractions s.per_motion s.cumulative
                  >> (ensure (not (fraction == 0) && leb fraction s.per_motion) invalid_fraction
                      >> (check_window c s.budget_window
                          >> (charge stash active fraction s >>= λ (charged, history).
                              schedule stash era fraction charged history s))))))
