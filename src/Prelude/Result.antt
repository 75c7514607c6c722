-- ===== src/Prelude/Result.antt =====
-- Exceptions as values. `what` is the text of the exception; those of ZeroMQ are told apart, since the
-- handlers of the sources catch them first.
use mathlib.Core.Path.{◌≡◌, refl}
use mathlib.Core.Logic.{◌⊎◌, inl, inr}
use Prim.Native.String.{String}

pub data Error : Type 0 where
  std_error : (what : String) → Error
  zmq_error : (what : String) → Error

pub data Result {ℓ} (A : Type ℓ) : Type ℓ where
  ok : A → Result A
  err : Error → Result A

infixl 5 ◌>>=◌
abbrev pub ◌>>=◌ {ℓ κ} : {A : Type ℓ} {B : Type κ} → Result A → (A → Result B) → Result B
ok a >>= f = f a
err e >>= f = err e

abbrev pub what_of : Error → String
what_of (std_error s) = s
what_of (zmq_error s) = s

-- `try { … } catch (const std::exception& e) { throw f(e); }`.
abbrev pub rethrow {ℓ} : {A : Type ℓ} → (Error → Error) → Result A → Result A
rethrow f (ok a) = ok a
rethrow f (err e) = err (f e)

pub Result-cases {ℓ} :
    {A : Type ℓ} (r : Result A) → ((a : A) × (r ≡ ok a)) ⊎ ((e : Error) × (r ≡ err e))
Result-cases (ok a) = inl (a, refl)
Result-cases (err e) = inr (e, refl)
