-- ===== src/Base/Http.antt =====
-- What a service call returns: a value, or the HTTP exception that it throws. An exception is its
-- class; the message texts, which no code reads, are left out. `internal` is any other exception,
-- such as one of a third-party client.
use mathlib.Core.Path.{◌≡◌, refl}
use mathlib.Core.Bool.{Bool, true, false}
use mathlib.Core.Option.{Option, none, some}
use native.Mathlib.Omega.{arith}

pub data HttpError : Type 0 where
  bad_request not_found conflict forbidden internal : HttpError

pub data Result {ℓ} (A : Type ℓ) : Type ℓ where
  ok : A → Result A
  err : HttpError → Result A

-- `if (test) throw error;`
abbrev pub throw_if : Bool → HttpError → Result (Unit {0})
throw_if true e = err e
throw_if false e = ok tt

-- `if (!value) throw error;`
abbrev pub or_throw {ℓ} : {A : Type ℓ} → Option A → HttpError → Result A
or_throw none e = err e
or_throw (some a) e = ok a

infixl 5 ◌>>◌
abbrev pub ◌>>◌ {κ} : {B : Type κ} → Result (Unit {0}) → Result B → Result B
check >> rest = elim check [ ok _ ↦ rest | err e ↦ err e ]

infixl 5 ◌>>=◌
module _ {ℓ κ} {A : Type ℓ} {B : Type κ} where
  abbrev pub ◌>>=◌ : Result A → (A → Result B) → Result B
  ◌>>=◌ r next = elim r [ ok value ↦ next value | err e ↦ err e ]

-- A value that some run returns.
pub throw_if-eq-ok : (b : Bool) (e : HttpError) (u : Unit {0}) → throw_if b e ≡ ok u → b ≡ false
throw_if-eq-ok true e u h = ground arith
throw_if-eq-ok false e u h = refl
