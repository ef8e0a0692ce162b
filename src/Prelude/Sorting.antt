-- ===== src/Prelude/Sorting.antt =====
-- Sorting forgets the order: two arrangements of the same elements are sorted to the same list.
use mathlib.Core.Path.{◌≡◌, refl, sym, ap, ◌∙◌}
use mathlib.Core.Logic.{inl, inr}
use mathlib.Core.Bool.{Bool, true, false}
use mathlib.Core.List.{List, [], ◌∷◌, Permᴰ}
use quip_validator.Prelude.Tests.{if◌then◌else◌, Bool-cases}
use quip_validator.Prelude.Lists.{insert_by, sort_by}

-- A test that puts any two in order, and only the same in both orders.
pub record IsOrder {A : Type 0} (le : A → A → Bool) : Type 0 where
  pub total : (a b : A) → le a b ≡ false → le b a ≡ true
  pub anti : (a b : A) → le a b ≡ true → le b a ≡ true → a ≡ b
  pub trans : (a b c : A) → le a b ≡ true → le b c ≡ true → le a c ≡ true

module _ {A : Type 0} (le : A → A → Bool) (o : IsOrder le) where
  -- Two that both go before `zs`.
  both_first :
      (x y : A) (zs : List A)
      → (if le x y then x ∷ y ∷ zs else y ∷ x ∷ zs) ≡ (if le y x then y ∷ x ∷ zs else x ∷ y ∷ zs)
  both_first x y zs = elim (Bool-cases (le x y)) [
    | inl xy ↦ elim (Bool-cases (le y x)) [
      | inl yx ↦
          rw (xy, yx)
            (let same : x ≡ y = o.anti x y xy yx in
              ap (λ z. z ∷ y ∷ zs) same ∙ ap (λ z. y ∷ z ∷ zs) (sym same))
      | inr no_yx ↦ rw (xy, no_yx) refl
    ]
    | inr no_xy ↦ rw (no_xy, o.total x y no_xy) refl
  ]

  -- What goes before `z` goes before what does not.
  apart : (x y z : A) → le x z ≡ true → le y z ≡ false → (le x y ≡ true) × (le y x ≡ false)
  apart x y z xz no_yz = elim (Bool-cases (le y x)) [
    | inl yx ↦ absurd (let yz = o.trans y x z yx xz in cc)
    | inr no_yx ↦ (o.total y x no_yx, no_yx)
  ]

  pub insert_by_comm :
      (x y : A) (zs : List A)
      → insert_by le x (insert_by le y zs) ≡ insert_by le y (insert_by le x zs)
  insert_by_comm x y [] = both_first x y []
  insert_by_comm x y (z ∷ zs) = elim (Bool-cases (le x z)) [
    | inl xz ↦ elim (Bool-cases (le y z)) [
      | inl yz ↦ rw (xz, yz) (rw xz (both_first x y (z ∷ zs)))
      | inr no_yz ↦ let (xy, no_yx) = apart x y z xz no_yz in rw (xz, no_yz, no_yx) (rw xz refl)
    ]
    | inr no_xz ↦ elim (Bool-cases (le y z)) [
      | inl yz ↦ let (yx, no_xy) = apart y x z yz no_xz in rw (no_xz, yz, no_xy) (rw no_xz refl)
      | inr no_yz ↦ rw (no_xz, no_yz) (rw no_xz (ap (λ l. z ∷ l) (insert_by_comm x y zs)))
    ]
  ]

  pub sort_by-Permᴰ : {xs ys : List A} → Permᴰ xs ys → sort_by le xs ≡ sort_by le ys
  sort_by-Permᴰ Permᴰ.nil = refl
  sort_by-Permᴰ (Permᴰ.cons e d) = λ i. insert_by le (e i) (sort_by-Permᴰ d i)
  sort_by-Permᴰ (Permᴰ.swap {a = a} {b = b} {a' = a'} {b' = b'} {l = l} e₁ e₂) =
      insert_by_comm a b (sort_by le l)
      ∙ (λ i. insert_by le (e₂ i) (insert_by le (e₁ i) (sort_by le l)))
  sort_by-Permᴰ (Permᴰ.trans d₁ d₂) = sort_by-Permᴰ d₁ ∙ sort_by-Permᴰ d₂
