-- ===== src/Emission/Schedule/Exact.antt =====
-- The entitlement is the annual emission times the time elapsed, rounded down.
use quip_validator.Prelude.{
  ℕ, ◌+◌, ◌*◌, ◌/◌, ◌%◌, ◌≤◌, ◌≡◌, ap, arith, some, within, checked_mul, u128_max, >>?-eq-some,
}
use quip_validator.Emission.Schedule.{Config, year_seconds, entitlement}

within-fits : (m n : ℕ) → n ≤ m → within m n ≡ some n
within-fits m n h = ground (arith, h)

within_gives : (m n : ℕ) {k : ℕ} → within m n ≡ some k → k ≡ n
within_gives m n h = ground (arith, h)

scale :
    (annual q r elapsed : ℕ)
    → elapsed ≡ year_seconds * q + r
    → annual * elapsed ≡ year_seconds * (annual * q) + annual * r
scale annual q r elapsed h = let scaled = ap (λ e. annual * e) h in omega (arith, scaled)

-- The annual emission over whole years and over the rest of the last one.
split_years :
    (annual elapsed : ℕ)
    → annual * (elapsed / year_seconds) + annual * (elapsed % year_seconds) / year_seconds
      ≡ annual * elapsed / year_seconds
split_years annual elapsed =
    let whole : annual * elapsed
        ≡ year_seconds * (annual * (elapsed / year_seconds)) + annual * (elapsed % year_seconds) =
      scale annual (elapsed / year_seconds) (elapsed % year_seconds) elapsed (omega arith) in
    omega (arith, whole)

module _ (c : Config) (elapsed : ℕ) where
  -- Whatever is computed without overflow is the exact product, rounded down.
  pub entitlement_gives :
      {total : ℕ}
      → entitlement c elapsed ≡ some total
      → total ≡ c.annual_emission * elapsed / year_seconds
  unfolding entitlement
  entitlement_gives h =
      let (years, first, rest) = >>?-eq-some (checked_mul u128_max c.annual_emission _) _ h in
      let (product, second, last) = >>?-eq-some (checked_mul u128_max c.annual_emission _) _ rest in
      omega (
        arith,
        within_gives _ _ first,
        within_gives _ _ second,
        within_gives _ _ last,
        split_years c.annual_emission elapsed,
      )

  -- A product that fits in 128 bits is computed.
  pub entitlement_total :
      c.annual_emission * elapsed ≤ u128_max
      → entitlement c elapsed ≡ some (c.annual_emission * elapsed / year_seconds)
  unfolding entitlement
  entitlement_total h =
      let whole =
        scale c.annual_emission (elapsed / year_seconds) (elapsed % year_seconds) elapsed
          (omega arith) in
      let total = split_years c.annual_emission elapsed in
      rw (
        within-fits u128_max (c.annual_emission * (elapsed / year_seconds))
            (omega (arith, whole, h)),
        within-fits u128_max (c.annual_emission * (elapsed % year_seconds))
            (omega (arith, whole, h)),
        total,
        within-fits u128_max (c.annual_emission * elapsed / year_seconds) (omega (arith, h)),
      )
