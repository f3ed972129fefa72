-- ===== src/Store/Frame.antt =====
-- What every step of a call keeps, the whole call keeps, also when it throws on the way: rules for a
-- relation between the tables before and after.
use back_costa_turnos.Base.{Bool, true, false, Option, none, some, if◌then◌else◌, nat_coded}
use back_costa_turnos.Base.Http.{HttpError, Result, ok, err}
use back_costa_turnos.Store.Db.{Db, Action, pure, gets, ◌>>=◌, raise_if, or_raise, transaction}

-- A relation that is reflexive and transitive.
pub record Preorder : Type 1 where
  pub Rel : Db → Db → Type 0
  pub rel_refl : (db : Db) → Rel db db
  pub rel_trans : (a b c : Db) → Rel a b → Rel b c → Rel a c

module _ (p : Preorder) where
  open p use {Rel, rel_refl, rel_trans}

  pub record Keeps {A : Type 0} (m : Action A) : Type 0 where
    pub keeps : (db : Db) → Rel db (m db).1

  pub pure-Keeps : {A : Type 0} (a : A) → Keeps (pure a)
  pure-Keeps a = record { keeps = λ db. rel_refl db }

  pub gets-Keeps : {A : Type 0} (f : Db → A) → Keeps (gets f)
  gets-Keeps f = record { keeps = λ db. rel_refl db }

  pub raise_if-Keeps : (b : Bool) (e : HttpError) → Keeps (raise_if b e)
  raise_if-Keeps true e = record { keeps = λ db. rel_refl db }
  raise_if-Keeps false e = record { keeps = λ db. rel_refl db }

  pub or_raise-Keeps : {A : Type 0} (o : Option A) (e : HttpError) → Keeps (or_raise o e)
  or_raise-Keeps none e = record { keeps = λ db. rel_refl db }
  or_raise-Keeps (some a) e = record { keeps = λ db. rel_refl db }

  continue-Rel :
      {A B : Type 0} (f : A → Action B) (db : Db) (x : Result A × Db)
      → ((a : A) → Keeps (f a))
      → Rel db x.1
      → Rel db (elim x.0 as (λ _. Result B × Db) [ ok a ↦ f a x.1 | err e ↦ (err e, x.1) ]).1
  continue-Rel f db (ok a, db') k h = rel_trans db db' (f a db').1 h ((k a).keeps db')
  continue-Rel f db (err e, db') k h = h

  pub >>=-Keeps :
      {A B : Type 0} (m : Action A) (f : A → Action B)
      → Keeps m
      → ((a : A) → Keeps (f a))
      → Keeps (m >>= f)
  >>=-Keeps m f h k = record { keeps = λ db. continue-Rel f db (m db) k (h.keeps db) }

  pub if-Keeps :
      {A : Type 0} (b : Bool) (m n : Action A) → Keeps m → Keeps n → Keeps (if b then m else n)
  if-Keeps true m n h k = h
  if-Keeps false m n h k = k

  transact-Rel :
      {A : Type 0} (db : Db) (x : Result A × Db)
      → Rel db x.1
      → Rel db (elim x.0 as (λ _. Result A × Db) [ ok a ↦ (ok a, x.1) | err e ↦ (err e, db) ]).1
  transact-Rel db (ok a, db') h = h
  transact-Rel db (err e, db') h = rel_refl db

  pub transaction-Keeps : {A : Type 0} (m : Action A) → Keeps m → Keeps (transaction m)
  transaction-Keeps m h = record { keeps = λ db. transact-Rel db (m db) (h.keeps db) }

pub ruleset steps =
    (pure-Keeps, gets-Keeps, raise_if-Keeps, or_raise-Keeps, >>=-Keeps, if-Keeps, transaction-Keeps)
