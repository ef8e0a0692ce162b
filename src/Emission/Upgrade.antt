-- ===== src/Emission/Upgrade.antt =====
-- Genesis, the consistency check and the upgrade of the emission controller
-- (pallets/emission-controller/src/lib.rs).
use quip_validator.Prelude.{
  ℕ, ◌-◌, ◌==◌, leb, ltb, Bool, true, false, not, ◌||◌, if◌then◌else◌, List, [], ◌∷◌, map, length,
  Option, none, some, Result, ok, err, ◌>>=◌, ◌>>◌, ensure, ok_or, checked_add, min, u64_max,
  u128_max,
}
use quip_validator.Emission.Schedule.{Config, Route, year_seconds, valid_routes}
use quip_validator.Emission.State.{
  Fault, invalid_routes, zero_annual_emission, start_at_epoch, unbounded_routes, faucet_over_budget,
  issuance_overflow, issuance_mismatch, rebase_overflow, rebase_incomplete, wrong_anchor,
  issued_changed, issuance_changed, subnet_changed, Currency, State, GenesisConfig,
}

abbrev pub storage_version : ℕ
storage_version = 2

abbrev pub is_epoch : Option ℕ → Bool
is_epoch none = false
is_epoch (some start) = start == 0

-- Onto empty storage, with the balances at genesis. The framework writes the storage version.
unfoldable pub build : {B : Type 0} → Config → GenesisConfig → B → Result Fault (State B)
unfolding valid_routes
build c g bank =
    ensure (valid_routes c g.routes g.enabled) invalid_routes
    >> (ensure (ltb 0 c.annual_emission) zero_annual_emission
        >> (ensure (not (is_epoch g.start_at)) start_at_epoch
            >> (ensure (leb (length g.routes) c.max_subnets) unbounded_routes
                >> ok (record {
                  enabled = g.enabled;
                  start_at = g.start_at;
                  routes = g.routes;
                  subnet_issued = λ subnet. 0;
                  scheduled_issued = 0;
                  faucet_budget = g.faucet_budget;
                  faucet_issued = 0;
                  version = storage_version;
                  events = [];
                  bank = bank;
                }))))

-- The checked sum of what the routed subnets were issued.
unfoldable pub sum_issued : (ℕ → ℕ) → ℕ → List Route → Result Fault ℕ
sum_issued issued total [] = ok total
sum_issued issued total ((subnet, share) ∷ rest) =
    ok_or (checked_add u128_max total (issued subnet)) issuance_overflow >>= λ next.
    sum_issued issued next rest

-- An anchor so far back that the schedule has emitted what was issued.
unfoldable pub rebase_from : Config → ℕ → ℕ → Result Fault (Option ℕ)
rebase_from c now issued =
    ok_or (c.multiply_down issued year_seconds c.annual_emission) rebase_overflow >>= λ elapsed.
    ok (some (now - min u64_max elapsed))

module _ {B : Type 0} where
  unfoldable pub try_state : Config → State B → Result Fault (Unit {0})
  unfolding valid_routes sum_issued
  try_state c s =
      ensure (valid_routes c s.routes s.enabled) invalid_routes
      >> (ensure (leb s.faucet_issued s.faucet_budget) faucet_over_budget
          >> (sum_issued s.subnet_issued 0 s.routes >>= λ total.
              ensure (total == s.scheduled_issued) issuance_mismatch))

  unfoldable pub rebased : Config → ℕ → Option ℕ → State B → Result Fault (Option ℕ)
  unfolding rebase_from
  rebased c now none s = ok none
  rebased c now (some start) s =
      if not s.enabled || s.scheduled_issued == 0
      then ok (some start)
      else rebase_from c now s.scheduled_issued

  unfoldable pub rebased_start : Config → ℕ → State B → Result Fault (Option ℕ)
  unfolding rebased
  rebased_start c now s = rebased c now s.start_at s

  unfoldable pub anchor : State B → Result Fault (Option ℕ) → State B
  anchor s (ok start) = record s { start_at = start; version = storage_version }
  anchor s (err e) = s

  unfoldable pub on_runtime_upgrade : Config → ℕ → State B → State B
  unfolding rebased_start anchor
  on_runtime_upgrade c now s =
      if leb storage_version s.version then s else anchor s (rebased_start c now s)

-- What `pre_upgrade` keeps for `post_upgrade`.
pub record Snapshot : Type 0 where
  pub start : Option ℕ
  pub issued : ℕ
  pub issuance : ℕ
  pub counters : List (ℕ × ℕ)

abbrev pub same_start : Option ℕ → Option ℕ → Bool
same_start none none = true
same_start (some a) (some b) = a == b
same_start _ _ = false

unfoldable pub check_counters : (ℕ → ℕ) → List (ℕ × ℕ) → Result Fault (Unit {0})
check_counters issued [] = ok tt
check_counters issued ((subnet, amount) ∷ rest) =
    ensure (issued subnet == amount) subnet_changed >> check_counters issued rest

module _ {B : Type 0} (cur : Currency B) where
  unfoldable pub pre_upgrade : Config → ℕ → State B → Result Fault Snapshot
  unfolding try_state rebased_start
  pre_upgrade c now s =
      try_state c s
      >> ((if ltb s.version storage_version then rebased_start c now s else ok s.start_at)
          >>= λ start. ok (record {
            start = start;
            issued = s.scheduled_issued;
            issuance = cur.total_issuance s.bank;
            counters = map (λ r. (r.0, s.subnet_issued r.0)) s.routes;
          }))

  unfoldable pub post_upgrade : Config → Snapshot → State B → Result Fault (Unit {0})
  unfolding try_state check_counters
  post_upgrade c before s =
      ensure (s.version == storage_version) rebase_incomplete
      >> (ensure (same_start s.start_at before.start) wrong_anchor
          >> (ensure (s.scheduled_issued == before.issued) issued_changed
              >> (ensure (cur.total_issuance s.bank == before.issuance) issuance_changed
                  >> (check_counters s.subnet_issued before.counters >> try_state c s))))
