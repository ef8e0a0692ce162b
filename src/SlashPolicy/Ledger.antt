-- ===== src/SlashPolicy/Ledger.antt =====
-- The history that the slash policy keeps charges what a full ledger of its motions would
-- (pallets/slash-policy/src/lib.rs).
pub mod Reachable
use quip_validator.Prelude.{
  ℕ, ◌+◌, ◌-◌, ◌≤◌, ◌==◌, leb, ltb, leb→le, ==→eq, ◌≡◌, refl, arith, Bool, true, false, not, ◌&&◌,
  ◌||◌, List, [], ◌∷◌, ◌++◌, length, Option, none, some, Result, ok, err, ◌>>=◌, ◌>>◌, >>=-elim,
  >>-eq-ok, >>-ok_left, ensure, ensure-eq-ok, ok_or, ok_or-eq-ok, get_elem?, put, checked_add,
  ◌>>?◌, >>?-eq-some, if◌then◌else◌, Bool-cases, inl, inr, u32_max,
}
use quip_validator.SlashPolicy.Policy.{
  Config, Staking, State, Error, Charge, billion, min_per_motion, max_per_motion, min_cumulative,
  max_cumulative, check_fractions, check_window, retain_from, try_sum, charges, add_charge,
  record_charge, charge, schedule, discretionary_slash, Event, takes, slash_scheduled,
  deposit_event,
}

-- What a list of charges comes to from an era on.
abbrev pub charged_from : ℕ → List Charge → ℕ
charged_from from [] = 0
charged_from from ((era, used) ∷ rest) =
    let more = charged_from from rest in if leb from era then used + more else more

try_sum_gives :
    (sum : ℕ) (cs : List Charge) {total : ℕ}
    → try_sum sum cs ≡ some total
    → total ≡ sum + charged_from 0 cs
unfolding try_sum
try_sum_gives sum [] h = ground (arith, h)
try_sum_gives sum ((era, used) ∷ rest) h =
    let (next, first, last) = >>?-eq-some (checked_add u32_max sum used) _ h in
    let more = try_sum_gives next rest last in ground (arith, first, more)

-- Entries before `from` do not count from `from'` on.
pub charged_from-retain_from :
    (from from' : ℕ) (cs : List Charge)
    → from ≤ from'
    → charged_from from' (retain_from from cs) ≡ charged_from from' cs
unfolding retain_from
charged_from-retain_from from from' [] le = refl
charged_from-retain_from from from' ((era, used) ∷ rest) le =
    let more = charged_from-retain_from from from' rest le in ground (arith, le, more)

charged_from-retained :
    (from : ℕ) (cs : List Charge) → charged_from 0 (retain_from from cs) ≡ charged_from from cs
unfolding retain_from
charged_from-retained from [] = refl
charged_from-retained from ((era, used) ∷ rest) =
    let more = charged_from-retained from rest in ground (arith, more)

charged_from-fewer :
    (from from' : ℕ) (cs : List Charge)
    → from ≤ from'
    → charged_from from' cs ≤ charged_from from cs
charged_from-fewer from from' [] le = omega arith
charged_from-fewer from from' ((era, used) ∷ rest) le =
    let more = charged_from-fewer from from' rest le in ground (arith, le, more)

charged_from-append :
    (from : ℕ) (xs ys : List Charge)
    → charged_from from (xs ++ ys) ≡ charged_from from xs + charged_from from ys
charged_from-append from [] ys = omega arith
charged_from-append from ((era, used) ∷ rest) ys =
    let more = charged_from-append from rest ys in ground (arith, more)

-- The write through the found entry adds the fraction, when the sum of the era does not saturate.
charged_from-add_charge :
    (from active fraction : ℕ) (cs : List Charge)
    → charges active cs ≡ true
    → fraction + charged_from active cs ≤ billion
    → charged_from from (add_charge active fraction cs)
      ≡ charged_from from cs + charged_from from ((active, fraction) ∷ [])
unfolding charges add_charge
charged_from-add_charge from active fraction [] h le = absurd (cc)
charged_from-add_charge from active fraction ((era, used) ∷ rest) h le =
    elim (Bool-cases (era == active)) [
      | inl e ↦ let same = ==→eq era active e in ground (arith, e, same, le)
      | inr e ↦
          let more =
            charged_from-add_charge from active fraction rest (ground (arith, h, e))
              (ground (arith, le)) in
          ground (arith, e, more)
    ]

-- The history with the new charge.
pub record_charge_adds :
    (c : Config) (from active fraction : ℕ) (cs next : List Charge)
    → record_charge c active fraction cs ≡ ok next
    → fraction + charged_from active cs ≤ billion
    → charged_from from next ≡ charged_from from ((active, fraction) ∷ cs)
unfolding record_charge
record_charge_adds c from active fraction cs next h le = elim (Bool-cases (charges active cs)) [
  | inl found ↦
      let sum = charged_from-add_charge from active fraction cs found le in
      let is : add_charge active fraction cs ≡ next = ground (arith, h, found) in
      rw (← is, sum) ground arith
  | inr new ↦
      let sum = charged_from-append from cs ((active, fraction) ∷ []) in
      let is : cs ++ (active, fraction) ∷ [] ≡ next = ground (arith, h, new) in
      rw (← is, sum) ground arith
]

limits :
    (per_motion cumulative : ℕ)
    → check_fractions per_motion cumulative ≡ ok tt
    → cumulative ≤ max_cumulative
unfolding check_fractions
limits per_motion cumulative h = ground (arith, h)

widths : (c : Config) (window : ℕ) → check_window c window ≡ ok tt → window ≤ c.max_budget_window
unfolding check_window
widths c window h = ground (arith, h)

module _ {K : Type 0} (c : Config) (staking_of : Staking K) where
  schedule_stores :
      (stash era fraction charged : ℕ) (history : List Charge) (s s1 : State K)
      → schedule c staking_of stash era fraction charged history s ≡ ok s1
      → s1.slash_history ≡ put s.slash_history stash history
  unfolding schedule
  schedule_stores stash era fraction charged history s s1 h =
      >>=-elim
        (ok_or (checked_add u32_max era c.slash_defer_duration >>? λ e. checked_add u32_max e 1)
          Error.arithmetic_overflow)
        _ h
        (λ apply_era e rest.
          >>=-elim
            (ok_or (staking_of.manual_slash stash era fraction s.staking_state) Error.staking) _
            rest
            (λ after m last.
              let stored =
                >>-eq-ok
                  (ensure
                    (takes (
                      get_elem? (staking_of.unapplied_slashes apply_era after)
                        (length (staking_of.unapplied_slashes apply_era s.staking_state))))
                    Error.no_slash_scheduled)
                  _ last in
              let is : deposit_event
                    (slash_scheduled stash era apply_era fraction (s.cumulative - charged))
                    (record s {
                      staking_state = after;
                      slash_history = put s.slash_history stash history;
                    })
                  ≡ s1 =
                cc in
              rw (← is) refl))

  -- A charge that is accepted: the sum over the window stays within the limit, and the history gains
  -- the fraction.
  pub charge_gives :
      (stash active fraction : ℕ) (s : State K) (charged : ℕ) (history : List Charge)
      → s.budget_window ≤ c.max_budget_window
      → s.cumulative ≤ billion
      → charge c staking_of stash active fraction s ≡ ok (charged, history)
      → (charged ≡ fraction + charged_from (active - (s.budget_window - 1)) (s.slash_history stash))
        × (charged ≤ s.cumulative)
        × ((from : ℕ)
            → active - (c.max_budget_window - 1) ≤ from
            → charged_from from history
              ≡ charged_from from ((active, fraction) ∷ s.slash_history stash))
  unfolding charge
  charge_gives stash active fraction s charged history wide small h =
      let past : List Charge = s.slash_history stash in
      let horizon : ℕ = active - (c.max_budget_window - 1) in
      let budget_from : ℕ = active - (s.budget_window - 1) in
      let kept : List Charge = retain_from horizon past in
      >>=-elim (ok_or (try_sum fraction (retain_from budget_from kept)) Error.budget_exceeded) _ h
        (λ sum e rest.
          let fits : leb sum s.cumulative ≡ true =
            ensure-eq-ok (leb sum s.cumulative) Error.budget_exceeded
              (>>-ok_left (ensure (leb sum s.cumulative) Error.budget_exceeded) _ rest) in
          >>=-elim (record_charge c active fraction kept) _
            (>>-eq-ok (ensure (leb sum s.cumulative) Error.budget_exceeded) _ rest)
            (λ next stored last.
              let total = try_sum_gives fraction (retain_from budget_from kept) (
                ok_or-eq-ok (try_sum fraction (retain_from budget_from kept)) Error.budget_exceeded
                  e) in
              let in_window = charged_from-retained budget_from kept in
              let all = charged_from-retain_from horizon budget_from past (omega (arith, wide)) in
              let fewer = charged_from-fewer budget_from active kept (omega arith) in
              let same : sum ≡ charged = cc in
              let is : next ≡ history = cc in
              (
                omega (arith, total, in_window, all, same),
                ground (arith, fits, same),
                (λ from le.
                    let added =
                      record_charge_adds c from active fraction kept next stored
                        (ground (arith, fewer, total, in_window, fits, small)) in
                    let held = charged_from-retain_from horizon from past le in
                    rw (← is, added, held) refl),
              )))

  -- What a slash that succeeds has passed and written.
  pub discretionary_slash_gives :
      (origin stash era fraction : ℕ) (s s1 : State K)
      → discretionary_slash c staking_of origin stash era fraction s ≡ ok s1
      → (active : ℕ) × (charged : ℕ) × (history : List Charge) × (staking_of.active_era
            s.staking_state
          ≡ some active)
        × (s.cumulative ≤ max_cumulative)
        × (s.budget_window ≤ c.max_budget_window)
        × (charge c staking_of stash active fraction s ≡ ok (charged, history))
        × (s1.slash_history ≡ put s.slash_history stash history)
  unfolding discretionary_slash
  discretionary_slash_gives origin stash era fraction s s1 h =
      let authorised = >>-eq-ok (ensure (c.is_council origin) Error.bad_origin) _ h in
      >>=-elim (ok_or (staking_of.active_era s.staking_state) Error.no_active_era) _ authorised
        (λ active at rest.
          let timely =
            >>-eq-ok
              (ensure (leb era active && leb (active - c.slash_defer_duration) era)
                Error.invalid_era)
              _ rest in
          >>=-elim (ok_or (staking_of.exposure_total era stash s.staking_state) Error.no_exposure) _
            timely
            (λ total e exposed.
              let held = >>-eq-ok (ensure (not (total == 0)) Error.no_exposure) _ exposed in
              let limited = >>-eq-ok (check_fractions s.per_motion s.cumulative) _ held in
              let fitting =
                >>-eq-ok
                  (ensure (not (fraction == 0) && leb fraction s.per_motion) Error.invalid_fraction)
                  _ limited in
              let windowed = >>-eq-ok (check_window c s.budget_window) _ fitting in
              >>=-elim (charge c staking_of stash active fraction s) _ windowed
                (λ (charged, history) paid scheduled. (
                  active,
                  charged,
                  history,
                  ok_or-eq-ok (staking_of.active_era s.staking_state) Error.no_active_era at,
                  limits s.per_motion s.cumulative
                      (>>-ok_left (check_fractions s.per_motion s.cumulative) _ held),
                  widths c s.budget_window (>>-ok_left (check_window c s.budget_window) _ fitting),
                  paid,
                  schedule_stores stash era fraction charged history s s1 scheduled,
                ))))
