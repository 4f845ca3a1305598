-- ===== src/Prelude/Result.antt =====
-- Results with an error, for functions that fail with a message: their sequence, the tests that return
-- early, and what a success says of the parts.
use mathlib.Core.Path.{◌≡◌, refl}
use mathlib.Core.Bool.{Bool, true, false}
use mathlib.Core.Logic.{◌⊎◌, inl, inr}
use nagi_shell.Prelude.Tests.{if◌then◌else◌}
use mathlib.Core.Option.{Option, none, some}

pub data Result {ℓ κ} (E : Type κ) (A : Type ℓ) : Type (ℓ ⊔ κ) where
  ok : A → Result E A
  err : E → Result E A

infixl 5 ◌>>=◌
abbrev pub ◌>>=◌ {ℓ κ μ} :
    {E : Type μ} {A : Type ℓ} {B : Type κ} → Result E A → (A → Result E B) → Result E B
ok a >>= f = f a
err e >>= f = err e

-- `if (test) { setError(...); return std::nullopt; }` and what comes after it.
abbrev pub guard {ℓ κ} : {E : Type κ} {A : Type ℓ} → Bool → E → Result E A → Result E A
guard true e r = err e
guard false e r = r

-- An optional value, with the error where it is missing.
abbrev pub require {ℓ κ} : {E : Type κ} {A : Type ℓ} → Option A → E → Result E A
require none e = err e
require (some a) e = ok a

module _ {ℓ κ} {E : Type κ} {A : Type ℓ} where
  pub guard-ok :
      (b : Bool) (e : E) (r : Result E A) {a : A} → guard b e r ≡ ok a → (b ≡ false) × (r ≡ ok a)
  guard-ok true e r h = absurd (cc)
  guard-ok false e r h = (refl, h)

  pub require-ok : (o : Option A) (e : E) {a : A} → require o e ≡ ok a → o ≡ some a
  require-ok none e h = absurd (cc)
  require-ok (some a) e h = cc

  pub if-ok :
      (b : Bool) (x y : Result E A) {a : A}
      → (if b then x else y) ≡ ok a
      → ((b ≡ true) × (x ≡ ok a)) ⊎ ((b ≡ false) × (y ≡ ok a))
  if-ok true x y h = inl (refl, h)
  if-ok false x y h = inr (refl, h)

pub bind-ok {ℓ κ μ} :
    {E : Type μ} {A : Type ℓ} {B : Type κ} (m : Result E A) (f : A → Result E B) {b : B}
    → (m >>= f) ≡ ok b
    → (a : A) × (m ≡ ok a) × (f a ≡ ok b)
bind-ok (ok a) f h = (a, refl, h)
bind-ok (err e) f h = absurd (cc)
