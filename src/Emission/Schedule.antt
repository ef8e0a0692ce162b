-- ===== src/Emission/Schedule.antt =====
-- The schedule of the emission controller: its constants, the routes, the cumulative entitlement
-- (pallets/emission-controller/src/lib.rs).
pub mod Routes
pub mod Exact
use quip_validator.Prelude.{
  ℕ, ◌+◌, ◌*◌, ◌/◌, ◌%◌, ◌==◌, ltb, Bool, true, false, not, ◌||◌, if◌then◌else◌, List, [], ◌∷◌,
  Option, none, some, length, contains, checked_add, checked_mul, ◌>>?◌, u128_max,
}

abbrev pub annual_emission_quip : ℕ
annual_emission_quip = 40000000

abbrev pub controller_share_percent : ℕ
controller_share_percent = 75

abbrev pub staking_share_percent : ℕ
staking_share_percent = 25

abbrev pub controller_annual_emission_quip : ℕ
controller_annual_emission_quip = annual_emission_quip * controller_share_percent / 100

abbrev pub staking_annual_emission_quip : ℕ
staking_annual_emission_quip = annual_emission_quip * staking_share_percent / 100

abbrev pub year_seconds : ℕ
year_seconds = 365 * 24 * 60 * 60

-- A `Perbill`, by its parts.
abbrev pub billion : ℕ
billion = 1000000000

-- A subnet and its share in billionths.
abbrev pub Route : Type 0
Route = ℕ × ℕ

-- What the runtime sets; the hash that gives a subnet its pot; `Perbill::mul_floor`; and
-- `multiply_by_rational_with_rounding(a, b, c, Rounding::Down)`.
pub record Config : Type 0 where
  pub annual_emission : ℕ
  pub max_subnets : ℕ
  pub pot : ℕ → ℕ
  pub mul_floor : ℕ → ℕ → ℕ
  pub multiply_down : ℕ → ℕ → ℕ → Option ℕ

-- The loop of `valid_routes`: the ids seen and the sum so far. The sum of a `u32` number of `u32`
-- shares is below 2^64.
unfoldable pub check_routes : List ℕ → ℕ → List Route → Bool
check_routes seen sum [] = sum == billion
check_routes seen sum ((id, share) ∷ rest) =
    let valid = check_routes (id ∷ seen) (sum + share) rest in
    if share == 0 || contains id seen then false else valid

unfoldable pub check_nonempty : List Route → Bool → Bool
unfolding check_routes
check_nonempty [] enabled = not enabled
check_nonempty (r ∷ rs) enabled = check_routes [] 0 (r ∷ rs)

unfoldable pub valid_routes : Config → List Route → Bool → Bool
unfolding check_nonempty
valid_routes c routes enabled =
    if ltb c.max_subnets (length routes) then false else check_nonempty routes enabled

unfoldable pub entitlement : Config → ℕ → Option ℕ
entitlement c elapsed = checked_mul u128_max c.annual_emission (elapsed / year_seconds) >>? λ years.
    checked_mul u128_max c.annual_emission (elapsed % year_seconds) >>? λ product.
    checked_add u128_max years (product / year_seconds)
