-- ===== src/Quantum/Puzzle/Canonical/Order.antt =====
-- The canonical bytes forget the order of a set (crates/quantum-validation/src/puzzle_spec.rs).
use mathlib.Core.List.{Perm}
use mathlib.Core.Logic.{∥∥₁_elim}
use quip_validator.Prelude.{
  ◌≡◌, refl, ap, sym, ◌∙◌, arith, true, &&-split, List, [], ◌∷◌, sort_by, insert_by, IsOrder,
  sort_by-Permᴰ, Bool-cases, inl, inr,
}
use quip_validator.Prelude.Int.{ℤ, leb_ℤ, eq_of_parts}
use quip_validator.Quantum.Puzzle.{AllowedValueSpec, set, integer_range, continuous_range}
use quip_validator.Quantum.Puzzle.Canonical.{bytes_of, is_ascending, canonical_bytes}

leb_ℤ-IsOrder : IsOrder leb_ℤ
leb_ℤ-IsOrder = record {
  total = λ a b h. ground (arith, h);
  anti = λ a b h k. eq_of_parts a b (ground (arith, h, k));
  trans = λ a b c h k. ground (arith, h, k);
}

-- Values that are in order already are what sorting them gives.
sort_by_ascending : (vs : List ℤ) → is_ascending vs ≡ true → sort_by leb_ℤ vs ≡ vs
unfolding is_ascending
sort_by_ascending [] h = refl
sort_by_ascending (a ∷ []) h = refl
sort_by_ascending (a ∷ (b ∷ vs)) h =
    let (first, rest) = &&-split (leb_ℤ a b) _ h in
    ap (insert_by leb_ℤ a) (sort_by_ascending (b ∷ vs) rest) ∙ rw first refl

canonical_bytes_sorted : (vs : List ℤ) → canonical_bytes (set vs) ≡ 0 ∷ bytes_of (sort_by leb_ℤ vs)
unfolding canonical_bytes
canonical_bytes_sorted vs = elim (Bool-cases (is_ascending vs)) [
  | inl up ↦ rw up (ap (λ xs. 0 ∷ bytes_of xs) (sym (sort_by_ascending vs up)))
  | inr not_up ↦ rw not_up refl
]

-- The same specification, but for the order in which a set lists its values.
abbrev pub SameSpec : AllowedValueSpec → AllowedValueSpec → Type 0
SameSpec (set vs) (set ws) = Perm vs ws
SameSpec (set vs) t = set vs ≡ t
SameSpec (integer_range min max) t = integer_range min max ≡ t
SameSpec (continuous_range min max) t = continuous_range min max ≡ t

-- To prove a proposition, the bytes of two such specifications may be taken as equal.
pub canonical_bytes_same :
    (s t : AllowedValueSpec) {P : Type 0}
    → SameSpec s t
    → IsProp P
    → (canonical_bytes s ≡ canonical_bytes t → P)
    → P
canonical_bytes_same (set vs) (set ws) same prop k = ∥∥₁_elim same prop (λ d. k (
    canonical_bytes_sorted vs
    ∙ (ap (λ xs. 0 ∷ bytes_of xs) (sort_by-Permᴰ leb_ℤ leb_ℤ-IsOrder d)
        ∙ sym (canonical_bytes_sorted ws))))
canonical_bytes_same (set vs) (integer_range min max) same prop k = k (ap canonical_bytes same)
canonical_bytes_same (set vs) (continuous_range min max) same prop k = k (ap canonical_bytes same)
canonical_bytes_same (integer_range min max) t same prop k = k (ap canonical_bytes same)
canonical_bytes_same (continuous_range min max) t same prop k = k (ap canonical_bytes same)
