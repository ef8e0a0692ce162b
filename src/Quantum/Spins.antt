-- ===== src/Quantum/Spins.antt =====
-- Spins and solution sets (crates/quantum-validation/src/validation.rs). A spin is an `i8`.
use quip_validator.Prelude.{
  ℕ, suc, ◌+◌, ◌==◌, ==→eq, ◌&&◌, &&-split, ◌≡◌, ◌∙◌, ap, sym, ◌⊎◌, inl, inr, Bool-cases, All,
  get_elem?, take, some, refl, arith, Bool, true, if◌then◌else◌, List, [], ◌∷◌, length, Result, ok,
  err,
}
use quip_validator.Prelude.Int.{ℤ, pos, negsuc}
use quip_validator.Quantum.Errors.{ValidationError, invalid_spin_value}

-- `matches!(spin, -1 | 1)`
unfoldable pub is_spin : ℤ → Bool
is_spin (pos n) = n == 1
is_spin (negsuc n) = n == 0

-- The pattern of `ensure_valid_spins`, which is written out a second time.
unfoldable pub matches_spin : ℤ → Bool
matches_spin (pos n) = n == 1
matches_spin (negsuc n) = n == 0

unfoldable pub validate_spins : List ℤ → Bool
validate_spins [] = true
validate_spins (s ∷ ss) = is_spin s && validate_spins ss

unfoldable pub validate_solution_set : ℕ → List (List ℤ) → Bool
validate_solution_set expected_len [] = true
validate_solution_set expected_len (s ∷ ss) =
    (length s == expected_len && validate_spins s) && validate_solution_set expected_len ss

-- The first invalid spin from position `index` on.
unfoldable pub ensure_valid_spins_from : ℕ → List ℤ → Result ValidationError (Unit {0})
ensure_valid_spins_from index [] = ok tt
ensure_valid_spins_from index (s ∷ ss) =
    let rest = ensure_valid_spins_from (suc index) ss in
    if matches_spin s then rest else err (invalid_spin_value index s)

unfoldable pub ensure_valid_spins : List ℤ → Result ValidationError (Unit {0})
unfolding ensure_valid_spins_from
ensure_valid_spins = ensure_valid_spins_from 0

-- A spin is up or down.
abbrev pub IsSpin : ℤ → Type 0
IsSpin s = (s ≡ pos 1) ⊎ (s ≡ negsuc 0)

is_spin-IsSpin : (s : ℤ) → (is_spin s ≡ true → IsSpin s) × (IsSpin s → is_spin s ≡ true)
unfolding is_spin
is_spin-IsSpin (pos n) = (
  (λ h. inl (ap pos (==→eq n 1 h))),
  λ h. elim h [ inl e ↦ ground (arith, e) | inr e ↦ absurd (cc) ],
)
is_spin-IsSpin (negsuc n) = (
  (λ h. inr (ap negsuc (==→eq n 0 h))),
  λ h. elim h [ inl e ↦ absurd (cc) | inr e ↦ ground (arith, e) ],
)

matches_spin-is_spin : (s : ℤ) → matches_spin s ≡ is_spin s
unfolding matches_spin is_spin
matches_spin-is_spin (pos n) = refl
matches_spin-is_spin (negsuc n) = refl

ensure_valid_spins_from_iff :
    (index : ℕ) (ss : List ℤ)
    → (ensure_valid_spins_from index ss ≡ ok tt → validate_spins ss ≡ true)
      × (validate_spins ss ≡ true → ensure_valid_spins_from index ss ≡ ok tt)
unfolding ensure_valid_spins_from validate_spins
ensure_valid_spins_from_iff index [] = (λ h. refl, λ h. refl)
ensure_valid_spins_from_iff index (s ∷ ss) =
    let ih = ensure_valid_spins_from_iff (suc index) ss in
    rw (matches_spin-is_spin s) ((λ h. ground (arith, ih.0)), λ h. ground (arith, ih.1))

-- The check with an error value passes exactly when the Boolean check does.
pub ensure_valid_spins_iff :
    (ss : List ℤ)
    → (ensure_valid_spins ss ≡ ok tt → validate_spins ss ≡ true)
      × (validate_spins ss ≡ true → ensure_valid_spins ss ≡ ok tt)
unfolding ensure_valid_spins
ensure_valid_spins_iff ss = ensure_valid_spins_from_iff 0 ss

validate_spins-All : (ss : List ℤ) → validate_spins ss ≡ true → All IsSpin ss
unfolding validate_spins
validate_spins-All [] h = tt
validate_spins-All (s ∷ ss) h =
    let (first, rest) = &&-split (is_spin s) (validate_spins ss) h in
    ((is_spin-IsSpin s).0 first, validate_spins-All ss rest)

-- An error names the first value of the list that is no spin, and its place.
abbrev pub NamesFirst : List ℤ → ℕ → ValidationError → Type 0
NamesFirst ss at e =
    (i : ℕ) × (s : ℤ) × (e ≡ invalid_spin_value (at + i) s)
    × (get_elem? ss i ≡ some s)
    × (¬ IsSpin s)
    × All IsSpin (take i ss)

ensure_valid_spins_from-NamesFirst :
    (at : ℕ) (ss : List ℤ) {e : ValidationError}
    → ensure_valid_spins_from at ss ≡ err e
    → NamesFirst ss at e
unfolding ensure_valid_spins_from
ensure_valid_spins_from-NamesFirst at [] h = absurd (cc)
ensure_valid_spins_from-NamesFirst at (s ∷ ss) {e} h = elim (Bool-cases (matches_spin s)) [
  | inl spin ↦
      let (i, v, is, found, not_spin, before) =
        ensure_valid_spins_from-NamesFirst (suc at) ss {e = e} (rw spin at h) in
      (
        suc i,
        v,
        is ∙ ap (λ k. invalid_spin_value k v) (omega arith),
        found,
        not_spin,
        ((is_spin-IsSpin s).0 (sym (matches_spin-is_spin s) ∙ spin), before),
      )
  | inr bad ↦
      let named : err (invalid_spin_value at s) ≡ err e = rw bad at h in
      let same : e ≡ invalid_spin_value at s = cc in
      (
        0,
        s,
        same ∙ ap (λ k. invalid_spin_value k s) (omega arith),
        refl,
        (λ spin.
            absurd
              (let good = (is_spin-IsSpin s).1 spin in let alike = matches_spin-is_spin s in cc)),
        tt,
      )
]

-- The check of a list of spins passes exactly when the Boolean check does; if it passes, each value is
-- +1 or -1, and if it fails, its error names the place and the value of the first that is neither.
pub ensure_valid_spins_decides :
    (ss : List ℤ)
    → (ensure_valid_spins ss ≡ ok tt → (validate_spins ss ≡ true) × All IsSpin ss)
      × (validate_spins ss ≡ true → ensure_valid_spins ss ≡ ok tt)
      × ((e : ValidationError) → ensure_valid_spins ss ≡ err e → NamesFirst ss 0 e)
unfolding ensure_valid_spins
ensure_valid_spins_decides ss =
    let (sound, complete) = ensure_valid_spins_iff ss in
    (
      (λ h. (sound h, validate_spins-All ss (sound h))),
      complete,
      (λ e h. ensure_valid_spins_from-NamesFirst 0 ss h),
    )
