-- ===== src/Prelude/Errors.antt =====
-- A value and an `error`: a call that returns both is a result.
use mathlib.Core.Path.{◌≡◌, refl}
use mathlib.Core.Option.{some}

pub data Result {ℓ κ} (E : Type ℓ) (A : Type κ) : Type (ℓ ⊔ κ) where
  ok : A → Result E A
  err : E → Result E A

infixl 5 ◌>>=◌
abbrev pub ◌>>=◌ {ℓ κ μ} :
    {E : Type ℓ} {A : Type κ} {B : Type μ} → Result E A → (A → Result E B) → Result E B
ok a >>= f = f a
err e >>= f = err e

pub ok_value {ℓ κ} :
    {E : Type ℓ} {A : Type κ} {a c : A} → ◌≡◌ {A = Result E A} (ok a) (ok c) → a ≡ c
ok_value e = cc

-- A chain that succeeds succeeded at each link.
pub bind_inv {ℓ κ μ} :
    {E : Type ℓ} {A : Type κ} {B : Type μ} (x : Result E A) (f : A → Result E B) (c : B)
    → (x >>= f) ≡ ok c
    → (a : A) × (x ≡ ok a) × (f a ≡ ok c)
bind_inv (ok a) f c e = (a, refl, e)
bind_inv (err m) f c e = cc

pub some_value {ℓ} : {A : Type ℓ} {x y : A} → some x ≡ some y → x ≡ y
some_value e = cc
