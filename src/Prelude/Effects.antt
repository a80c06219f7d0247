-- ===== src/Prelude/Effects.antt =====
-- A service method: it runs on a state, and returns a value or throws one of Nest's exceptions.
-- What was written before an exception stays written.
use Prim.Native.String.{String}
use mathlib.Core.Path.{◌≡◌, refl}
use mathlib.Core.Logic.{◌⊎◌, inl, inr}
use mathlib.Core.Bool.{Bool, true, false}
use mathlib.Core.Option.{Option, none, some}

-- `@nestjs/common`'s exceptions, with the constant part of their message; `failure` is any other.
pub data Exception : Type 0 where
  bad_request forbidden not_found conflict failure : String → Exception

pub data Result {ℓ} (A : Type ℓ) : Type ℓ where
  ok : A → Result A
  err : Exception → Result A

pub Result-cases {ℓ} :
    {A : Type ℓ} (r : Result A) → ((x : Exception) × (r ≡ err x)) ⊎ ((a : A) × (r ≡ ok a))
Result-cases (ok a) = inr (a, refl)
Result-cases (err x) = inl (x, refl)

abbrev pub Method : Type 0 → Type 0 → Type 0
Method S A = S → Result A × S

abbrev pub continue_with : {S A B : Type 0} → (A → Method S B) → Result A × S → Result B × S
continue_with f (ok a, s) = f a s
continue_with f (err e, s) = (err e, s)

infixl 5 ◌>>=◌ ◌>>◌
abbrev pub ◌>>=◌ : {S A B : Type 0} → Method S A → (A → Method S B) → Method S B
◌>>=◌ m f s = continue_with f (m s)

abbrev pub ◌>>◌ : {S A B : Type 0} → Method S A → Method S B → Method S B
◌>>◌ m k s = continue_with (λ _. k) (m s)

abbrev pub return : {S A : Type 0} → A → Method S A
return a s = (ok a, s)

abbrev pub throw : {S A : Type 0} → Exception → Method S A
throw e s = (err e, s)

-- `if (test) throw e;`
abbrev pub throw_if : {S : Type 0} → Bool → Exception → Method S (Unit {0})
throw_if true e s = (err e, s)
throw_if false e s = (ok tt, s)

-- A part of the state is written.
abbrev pub modify : {S : Type 0} → (S → S) → Method S (Unit {0})
modify f s = (ok tt, f s)

-- A part of the state is read.
abbrev pub ask : {S A : Type 0} → (S → A) → Method S A
ask f s = (ok (f s), s)

-- `if (!x) throw e;`
abbrev pub or_throw : {S A : Type 0} → Option A → Exception → Method S A
or_throw none e s = (err e, s)
or_throw (some a) e s = (ok a, s)
