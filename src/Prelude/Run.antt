-- ===== src/Prelude/Run.antt =====
-- How a call of the Go code ends: it returns, returns an error, panics, or uses up the model's fuel.
use mathlib.Core.Path.{◌≡◌, refl}

pub data Run (E : Type 0) (A : Type 0) : Type 0 where
  ok : A → Run E A
  err : E → Run E A
  panic : Run E A
  out_of_fuel : Run E A

infixl 5 ◌>>=◌
abbrev pub ◌>>=◌ : {E A B : Type 0} → Run E A → (A → Run E B) → Run E B
ok a >>= f = f a
err e >>= f = err e
panic >>= f = panic
out_of_fuel >>= f = out_of_fuel

pub >>=-eq_out_of_fuel :
    {E A B : Type 0} (m : Run E A) (f : A → Run E B) → m ≡ out_of_fuel → (m >>= f) ≡ out_of_fuel
>>=-eq_out_of_fuel (ok a) f h = cc
>>=-eq_out_of_fuel (err e) f h = cc
>>=-eq_out_of_fuel panic f h = cc
>>=-eq_out_of_fuel out_of_fuel f h = refl

-- A bind that returns: its first part returned, and so did the rest.
pub bind_inv :
    {E A B : Type 0} (m : Run E A) (f : A → Run E B) {b : B}
    → (m >>= f) ≡ ok b
    → (a : A) × (m ≡ ok a) × (f a ≡ ok b)
bind_inv (ok a) f h = (a, refl, h)
bind_inv (err e) f h = cc
bind_inv panic f h = cc
bind_inv out_of_fuel f h = cc
