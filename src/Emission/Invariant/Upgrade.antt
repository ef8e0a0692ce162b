-- ===== src/Emission/Invariant/Upgrade.antt =====
-- An upgrade passes its own check (pallets/emission-controller/src/lib.rs).
use quip_validator.Prelude.{
  ℕ, ◌≤◌, leb, ltb, ◌≡◌, refl, ap, arith, true, false, List, [], ◌∷◌, map, Option, none, some, ok,
  >>=-elim, >>-eq-ok, >>-ok_left, ==_refl, Bool-cases, inl, inr,
}
use quip_validator.Emission.Schedule.{Config, Route}
use quip_validator.Emission.State.{Currency, State}
use quip_validator.Emission.Upgrade.{
  storage_version, try_state, rebased_start, anchor, on_runtime_upgrade, Snapshot, same_start,
  pre_upgrade, check_counters, post_upgrade,
}

same_start_refl : (start : Option ℕ) → same_start start start ≡ true
same_start_refl none = refl
same_start_refl (some a) = ==_refl a

check_counters-same :
    (issued : ℕ → ℕ) (rs : List Route)
    → check_counters issued (map (λ r. (r.0, issued r.0)) rs) ≡ ok tt
unfolding check_counters
check_counters-same issued [] = refl
check_counters-same issued (r ∷ rs) = rw (==_refl (issued r.0)) (check_counters-same issued rs)

module _ {B : Type 0} (c : Config) (cur : Currency B) (now : ℕ) (s : State B) where
  -- The snapshot of a state, with the anchor that the upgrade will set.
  abbrev snapshot : Option ℕ → Snapshot
  snapshot start = record {
    start = start;
    issued = s.scheduled_issued;
    issuance = cur.total_issuance s.bank;
    counters = map (λ r. (r.0, s.subnet_issued r.0)) s.routes;
  }

  -- A state with that anchor, in the current version, and the rest unchanged.
  anchored_passes :
      (start : Option ℕ)
      → try_state c s ≡ ok tt
      → post_upgrade cur c
          (snapshot start)
          (record s { start_at = start; version = storage_version })
        ≡ ok tt
  unfolding post_upgrade try_state
  anchored_passes start h =
      rw
        (
          same_start_refl start,
          ==_refl s.scheduled_issued,
          ==_refl (cur.total_issuance s.bank),
          check_counters-same s.subnet_issued s.routes,
        )
        h

  upgraded :
      (start : Option ℕ)
      → ltb s.version storage_version ≡ true
      → rebased_start c now s ≡ ok start
      → on_runtime_upgrade c now s ≡ record s { start_at = start; version = storage_version }
  unfolding on_runtime_upgrade anchor
  upgraded start old found =
      let due : leb storage_version s.version ≡ false = ground (arith, old) in rw (due, found) refl

  up_to_date :
      s.version ≤ storage_version
      → ltb s.version storage_version ≡ false
      → on_runtime_upgrade c now s ≡ record s { start_at = s.start_at; version = storage_version }
  unfolding on_runtime_upgrade
  up_to_date old e =
      let done : leb storage_version s.version ≡ true = ground (arith, e) in
      let same : s.version ≡ storage_version = ground (arith, e, old) in
      rw done (ap (λ v. record s { version = v }) same)

  -- When the check before an upgrade of a version not later than this one passes, the check after it
  -- passes: the upgrade sets the anchor that was announced, and keeps the counters and the issuance.
  pub post_upgrade-on_runtime_upgrade :
      {before : Snapshot}
      → s.version ≤ storage_version
      → pre_upgrade cur c now s ≡ ok before
      → post_upgrade cur c before (on_runtime_upgrade c now s) ≡ ok tt
  unfolding pre_upgrade
  post_upgrade-on_runtime_upgrade {before} old h =
      let sound = >>-ok_left (try_state c s) _ h in
      let rest = >>-eq-ok (try_state c s) _ h in
      elim (Bool-cases (ltb s.version storage_version)) [
        | inl e ↦ >>=-elim (rebased_start c now s) _ (rw e at rest) (λ start found stored.
            let is : snapshot start ≡ before = cc in
            rw (← is, upgraded start e found) (anchored_passes start sound))
        | inr e ↦
            let stored = rw e at rest in
            let is : snapshot s.start_at ≡ before = cc in
            rw (← is, up_to_date old e) (anchored_passes s.start_at sound)
      ]
