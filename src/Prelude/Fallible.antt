-- ===== src/Prelude/Fallible.antt =====
-- Results of fallible code, over the error type of each component.
use mathlib.Core.Path.{◌≡◌, refl}
use mathlib.Core.Bool.{Bool, true, false}
use mathlib.Core.Option.{Option, none, some}

pub data Result {ℓ κ} (E : Type κ) (A : Type ℓ) : Type (ℓ ⊔ κ) where
  ok : A → Result E A
  err : E → Result E A

module _ {ℓ κ μ} {E : Type μ} {A : Type ℓ} {B : Type κ} where
  infixl 5 ◌>>=◌
  abbrev pub ◌>>=◌ : Result E A → (A → Result E B) → Result E B
  ok a >>= f = f a
  err e >>= f = err e

  -- A successful bind, for a continuation, which sees the value as a variable.
  pub >>=-elim {ν} :
      {P : Type ν} (m : Result E A) (f : A → Result E B) {b : B}
      → (m >>= f) ≡ ok b
      → ((a : A) → m ≡ ok a → f a ≡ ok b → P)
      → P
  >>=-elim (ok a) f h k = k a refl h
  >>=-elim (err e) f h k = absurd (cc)

  -- The same, as parts.
  pub >>=-eq-ok :
      (r : Result E A) (next : A → Result E B) {out : B}
      → (r >>= next) ≡ ok out
      → (x : A) × (r ≡ ok x) × (next x ≡ ok out)
  >>=-eq-ok r next e = >>=-elim r next e (λ x first last. (x, first, last))

  pub >>=-cong :
      (m : Result E A) {f g : A → Result E B} → ((a : A) → f a ≡ g a) → (m >>= f) ≡ (m >>= g)
  >>=-cong (ok a) h = h a
  >>=-cong (err e) h = refl

module _ {ℓ μ} {E : Type μ} {A : Type ℓ} where
  infixl 5 ◌>>◌
  abbrev pub ◌>>◌ : Result E (Unit {0}) → Result E A → Result E A
  ok _ >> k = k
  err e >> k = err e

  -- `o.ok_or(e)?`
  abbrev pub ok_or : Option A → E → Result E A
  ok_or none e = err e
  ok_or (some a) e = ok a

  pub >>-eq-ok : (m : Result E (Unit {0})) (k : Result E A) {a : A} → (m >> k) ≡ ok a → k ≡ ok a
  >>-eq-ok (ok tt) k h = h
  >>-eq-ok (err e) k h = cc

  pub >>-ok_left : (m : Result E (Unit {0})) (k : Result E A) {a : A} → (m >> k) ≡ ok a → m ≡ ok tt
  >>-ok_left (ok tt) k h = refl
  >>-ok_left (err e) k h = cc

  pub ok_or-eq-ok : (o : Option A) (e : E) {a : A} → ok_or o e ≡ ok a → o ≡ some a
  ok_or-eq-ok none e h = cc
  ok_or-eq-ok (some x) e h = cc

-- `ensure!(b, e)`
abbrev pub ensure {μ} : {E : Type μ} → Bool → E → Result E (Unit {0})
ensure true e = ok tt
ensure false e = err e

pub ensure-eq-ok {μ} : {E : Type μ} (b : Bool) (e : E) → ensure b e ≡ ok tt → b ≡ true
ensure-eq-ok true e h = refl
ensure-eq-ok false e h = cc

-- A property of the value, if there is one.
abbrev pub Ensures {ℓ κ μ} : {E : Type μ} {A : Type ℓ} → (A → Type κ) → Result E A → Type κ
Ensures P (ok a) = P a
Ensures P (err e) = Unit

module _ {ℓ κ ν μ} {E : Type μ} {A : Type ℓ} {B : Type κ} (P : B → Type ν) where
  pub Ensures->>= :
      (m : Result E A) (f : A → Result E B)
      → ((a : A) → m ≡ ok a → Ensures P (f a))
      → Ensures P (m >>= f)
  Ensures->>= (ok a) f h = h a refl
  Ensures->>= (err e) f h = tt

module _ {κ ν μ} {E : Type μ} {B : Type κ} (P : B → Type ν) where
  pub Ensures->> :
      (m : Result E (Unit {0})) (k : Result E B) → (m ≡ ok tt → Ensures P k) → Ensures P (m >> k)
  Ensures->> (ok tt) k h = h refl
  Ensures->> (err e) k h = tt

  pub Ensures-ok : (r : Result E B) {b : B} → Ensures P r → r ≡ ok b → P b
  Ensures-ok r {b} h e = rw e at h
