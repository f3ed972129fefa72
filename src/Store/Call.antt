-- ===== src/Store/Call.antt =====
-- A service call as an action on the tables `S` that it reads and writes: from the tables to a result
-- and the tables after. What was written before an exception stays written, unless the call runs in a
-- transaction.
use back_costa_turnos.Base.{
  Bool, true, false, Option, none, some, List, [], ◌∷◌, ◌≡◌, refl, ◌∙◌, ap,
}
use back_costa_turnos.Base.Http.{HttpError, Result, ok, err}

abbrev pub Call : Type 0 → Type 0 → Type 0
Call S A = S → Result A × S

module _ {S A : Type 0} where
  abbrev pub pure : A → Call S A
  pure a db = (ok a, db)

  abbrev pub throw : HttpError → Call S A
  throw e db = (err e, db)

  -- A query, or a check that throws.
  abbrev pub query : (S → Result A) → Call S A
  query f db = (f db, db)

  abbrev pub gets : (S → A) → Call S A
  gets f db = (ok (f db), db)

  -- The writes of a transaction are undone when it throws.
  abbrev pub transaction : Call S A → Call S A
  transaction m db = let (r, db') = m db in elim r [ ok a ↦ (ok a, db') | err e ↦ (err e, db) ]

infixl 5 ◌>>=◌
module _ {S A B : Type 0} where
  abbrev pub ◌>>=◌ : Call S A → (A → Call S B) → Call S B
  ◌>>=◌ m f db = let (r, db') = m db in elim r [ ok a ↦ f a db' | err e ↦ (err e, db') ]

infixl 5 ◌>>◌
abbrev pub ◌>>◌ : {S A B : Type 0} → Call S A → Call S B → Call S B
first >> second = first >>= λ _. second

module _ {S : Type 0} where
  abbrev pub modify : (S → S) → Call S (Unit {0})
  modify f db = (ok tt, f db)

  abbrev pub raise_if : Bool → HttpError → Call S (Unit {0})
  raise_if true e db = (err e, db)
  raise_if false e db = (ok tt, db)

  abbrev pub or_raise : {A : Type 0} → Option A → HttpError → Call S A
  or_raise none e db = (err e, db)
  or_raise (some a) e db = (ok a, db)

  -- `for (const x of xs) body(x)`
  unfoldable pub for_each : {A : Type 0} → (A → Call S (Unit {0})) → List A → Call S (Unit {0})
  for_each body [] = pure tt
  for_each body (x ∷ xs) = do body x; for_each body xs

abbrev continue : {S A B : Type 0} → (A → Call S B) → Result A × S → Result B × S
continue f (r, db) = elim r [ ok a ↦ f a db | err e ↦ (err e, db) ]

-- The step after a call that is known to return.
pub >>=-of_ok :
    {S A B : Type 0} (m : Call S A) (f : A → Call S B) {db db' : S} {a : A}
    → m db ≡ (ok a, db')
    → (m >>= f) db ≡ f a db'
>>=-of_ok {S} {A} {B} m f e = ap (continue f) e

abbrev pub fold_through : {S A : Type 0} → (A → S → S) → List A → S → S
fold_through step [] db = db
fold_through step (x ∷ xs) db = fold_through step xs (step x db)

-- A loop whose body always returns is a fold over the tables.
pub for_each-of_ok :
    {S A : Type 0} (body : A → Call S (Unit {0})) (step : A → S → S)
    → ((x : A) (db : S) → body x db ≡ (ok tt, step x db))
    → (xs : List A) (db : S) → for_each body xs db ≡ (ok tt, fold_through step xs db)
unfolding for_each
for_each-of_ok body step h [] db = refl
for_each-of_ok body step h (x ∷ xs) db =
    >>=-of_ok (body x) (λ _. for_each body xs) (h x db) ∙ for_each-of_ok body step h xs (step x db)
