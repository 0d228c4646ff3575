-- ===== src/Common/Options.antt =====
-- Early returns: `none` is a `return` of the source that leaves the caller's data as it was.
use mathlib.Core.Bool.{Bool, true, false}
use mathlib.Core.Option.{Option, none, some}
use mathlib.Core.Path.{◌≡◌, refl, subst}
use native.Mathlib.Omega.{arith}

infixl 5 ◌>>=◌ ◌>>◌
abbrev pub ◌>>=◌ {ℓ κ} : {A : Type ℓ} {B : Type κ} → Option A → (A → Option B) → Option B
none >>= f = none
some a >>= f = f a

abbrev pub ◌>>◌ {ℓ} : {B : Type ℓ} → Option (Unit {0}) → Option B → Option B
m >> k = m >>= λ _. k

-- `if (!b) return;`
abbrev pub guard : Bool → Option (Unit {0})
guard true = some tt
guard false = none

-- What is left after a call that may have returned early.
abbrev pub or_else {ℓ} : {A : Type ℓ} → A → Option A → A
or_else a none = a
or_else a (some b) = b

-- What holds of the result of a call that may return early, if it does not.
abbrev pub OnSome {ℓ} : {A : Type ℓ} → (A → Type 0) → Option A → Type 0
OnSome P none = Unit {0}
OnSome P (some a) = P a

module _ {ℓ} {A : Type ℓ} (P : A → Type 0) where
  pub OnSome-guard : (b : Bool) (k : Option A) → (b ≡ true → OnSome P k) → OnSome P (guard b >> k)
  OnSome-guard true k h = h refl
  OnSome-guard false k h = tt

  pub OnSome-bind {κ} :
      {B : Type κ} (o : Option B) (f : B → Option A)
      → ((b : B) → o ≡ some b → OnSome P (f b))
      → OnSome P (o >>= f)
  OnSome-bind none f h = tt
  OnSome-bind (some b) f h = h b refl

  pub OnSome-or_else : (a : A) (o : Option A) → P a → OnSome P o → P (or_else a o)
  OnSome-or_else a none p h = p
  OnSome-or_else a (some b) p h = h

  pub OnSome-result : (o : Option A) (a : A) → OnSome P o → o ≡ some a → P a
  OnSome-result none a h e = cc
  OnSome-result (some b) a h e = let same : b ≡ a = ground arith in subst P same h

pub OnSome-imp {ℓ} :
    {A : Type ℓ} (P Q : A → Type 0)
    → ((a : A) → P a → Q a)
    → (o : Option A) → OnSome P o
    → OnSome Q o
OnSome-imp P Q f none h = tt
OnSome-imp P Q f (some a) h = f a h
