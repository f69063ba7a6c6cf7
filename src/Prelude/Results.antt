-- ===== src/Prelude/Results.antt =====
-- Results of fallible Go functions, `(T, error)`: a value or an error, never both.
use mathlib.Core.Path.{◌≡◌, refl}

pub data Result {ℓ κ} (E : Type ℓ) (A : Type κ) : Type (ℓ ⊔ κ) where
  ok : A → Result E A
  err : E → Result E A

infixl 5 ◌>>=◌
abbrev pub ◌>>=◌ {ℓ κ η} :
    {E : Type ℓ} {A : Type κ} {B : Type η} → Result E A → (A → Result E B) → Result E B
ok a >>= f = f a
err e >>= f = err e

-- The step before a result that is a value was one too.
pub >>=_ok :
    {E A B : Type 0} (r : Result E A) (f : A → Result E B) (b : B)
    → (r >>= f) ≡ ok b
    → (a : A) × (r ≡ ok a) × (f a ≡ ok b)
>>=_ok (ok a) f b h = (a, refl, h)
>>=_ok (err e) f b h = cc
