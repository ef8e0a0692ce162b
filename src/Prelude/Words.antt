-- ===== src/Prelude/Words.antt =====
-- The bounds of the machine words, and the saturating operations at a bound.
use Prim.Native.Nat.{ℕ, ◌+◌, ◌-◌, ◌*◌, ◌^◌, min}
use mathlib.Core.Option.{Option, none, some}
use quip_validator.Prelude.Tests.{leb, if◌then◌else◌}

abbrev pub u32_max : ℕ
u32_max = 2 ^ 32 - 1

abbrev pub u64_max : ℕ
u64_max = 2 ^ 64 - 1

abbrev pub u128_max : ℕ
u128_max = 2 ^ 128 - 1

-- `saturating_add` and `saturating_mul` on a word whose largest value is `m`.
abbrev pub sat_add : ℕ → ℕ → ℕ → ℕ
sat_add m a b = min m (a + b)

abbrev pub sat_mul : ℕ → ℕ → ℕ → ℕ
sat_mul m a b = min m (a * b)

-- `checked_add` and `checked_mul` on a word whose largest value is `m`.
abbrev pub within : ℕ → ℕ → Option ℕ
within m n = if leb n m then some n else none

abbrev pub checked_add : ℕ → ℕ → ℕ → Option ℕ
checked_add m a b = within m (a + b)

abbrev pub checked_mul : ℕ → ℕ → ℕ → Option ℕ
checked_mul m a b = within m (a * b)
