-- ===== src/Identity.antt =====
-- src/modules/identity/persons.service.ts: the person that a booking is tied to.
use back_costa_turnos.Base.{
  ℕ, ◌≡◌, refl, inl, inr, Bool, true, false, Option, none, some, List, [], ◌∷◌, arith, ltb,
  if◌then◌else◌, ◌==◌, nat_coded, Option-cases, find?, find?-In, In, sym, ap, ◌∙◌, subst,
}
use Prim.Native.String.{String}
use back_costa_turnos.Base.Http.{ok}
use back_costa_turnos.Store.Rows.{Person}
use back_costa_turnos.Store.Table.{save, find_key, person_row}
use back_costa_turnos.Store.TableLaws.{IsFresh, find_key-save_ne}
use back_costa_turnos.Store.SaveEach.{Distinct, Distinct-find_key, IsFresh-find_key}
use back_costa_turnos.Store.Db.{Db, Action, pure, gets, ◌>>=◌}

pub record PersonData : Type 0 where
  pub full_name : String
  pub email : Option ℕ
  pub phone : Option ℕ

-- A column equals a value that was given: no value matches nothing.
abbrev pub matches : Option ℕ → Option ℕ → Bool
matches none column = false
matches (some v) none = false
matches (some v) (some w) = w == v

unfoldable pub by_email : PersonData → List Person → Option Person
by_email d = find? (λ p. matches d.email p.email)

unfoldable pub by_phone : PersonData → List Person → Option Person
by_phone d = find? (λ p. matches d.phone p.phone)

abbrev pub or_then : {A : Type 0} → Option A → Option A → Option A
or_then none o = o
or_then (some a) o = some a

-- `findOne` with `order: { id: 'ASC' }`.
abbrev older : Option Person → Person → Option Person
older none p = some p
older (some q) p = if ltb p.id q.id then some p else some q

unfoldable pub oldest : (Person → Bool) → List Person → Option Person
oldest test [] = none
oldest test (p ∷ ps) = if test p then older (oldest test ps) p else oldest test ps

abbrev pub of_account : ℕ → Person → Bool
of_account account_id p = matches (some account_id) p.account_id

abbrev pub new_person : ℕ → PersonData → Option ℕ → Person
new_person id d account_id = record {
  id = id;
  full_name = d.full_name;
  email = d.email;
  phone = d.phone;
  account_id = account_id;
}

unfoldable pub save_person : Person → Action Person
save_person p db = (ok p, record db { persons = save p db.persons })

unfoldable pub find_or_create : ℕ → PersonData → Option ℕ → Action Person
unfolding save_person by_email by_phone
find_or_create new_id d account_id = do
  found ← gets (λ db. or_then (by_email d db.persons) (by_phone d db.persons))
  elim found [ some p ↦ pure p | none ↦ save_person (new_person new_id d account_id) ]

abbrev pub loose_or_new : ℕ → ℕ → PersonData → Option Person → Person
loose_or_new new_id account_id d none = new_person new_id d (some account_id)
loose_or_new new_id account_id d (some loose) = elim loose.account_id [
  | none ↦ record loose { account_id = some account_id }
  | some other ↦ new_person new_id d (some account_id)
]

unfoldable pub find_or_create_for_account : ℕ → ℕ → PersonData → Action Person
unfolding save_person by_email by_phone oldest
find_or_create_for_account new_id account_id d = do
  linked ← gets (λ db. oldest (of_account account_id) db.persons)
  elim linked [
    | some p ↦ pure p
    | none ↦ do
      loose ← gets (λ db. or_then (by_email d db.persons) (by_phone d db.persons))
      save_person (loose_or_new new_id account_id d loose)
  ]

oldest-test :
    (test : Person → Bool) (ps : List Person) (p : Person) → oldest test ps ≡ some p → test p ≡ true
unfolding oldest
oldest-test test [] p e = ground arith
oldest-test test (q ∷ ps) p e = elim (Option-cases (oldest test ps)) [
  | inl h ↦ ground (arith, h)
  | inr (r, h) ↦ ground (arith, h, oldest-test test ps r h)
]

of_account_lem : (a : ℕ) (p : Person) → of_account a p ≡ true → p.account_id ≡ some a
of_account_lem a p h = ground arith

loose_or_new-account :
    (new_id a : ℕ) (d : PersonData) (o : Option Person)
    → (loose_or_new new_id a d o).account_id ≡ some a
loose_or_new-account new_id a d none = refl
loose_or_new-account new_id a d (some p) = ground arith

module _ (new_id a : ℕ) (d : PersonData) (db : Db) where
  abbrev loose : Option Person
  loose = or_then (by_email d db.persons) (by_phone d db.persons)

  abbrev written : Person
  written = loose_or_new new_id a d loose

  find_or_create_for_account_new :
      oldest (of_account a) db.persons ≡ none
      → find_or_create_for_account new_id a d db
        ≡ (ok written, record db { persons = save written db.persons })
  unfolding find_or_create_for_account
  find_or_create_for_account_new h = ground (arith, h)

  find_or_create_for_account_old :
      (p : Person)
      → oldest (of_account a) db.persons ≡ some p
      → find_or_create_for_account new_id a d db ≡ (ok p, db)
  unfolding find_or_create_for_account
  find_or_create_for_account_old p h = ground (arith, h)

-- Every row that belongs to an account stays as it is.
abbrev pub KeepsOwned : Db → Db → Type 0
KeepsOwned db db' =
    (k owner : ℕ) (q : Person)
    → find_key k db.persons ≡ some q
    → q.account_id ≡ some owner
    → find_key k db'.persons ≡ some q

save_new-KeepsOwned :
    (p : Person) (db : Db)
    → IsFresh p.id db.persons
    → KeepsOwned db (record db { persons = save p db.persons })
save_new-KeepsOwned p db fresh k owner q found own =
    find_key-save_ne p k db.persons
      (λ e. IsFresh-find_key k db.persons q (subst (λ i. IsFresh i db.persons) e fresh) found)
    ∙ found

one_account :
    (k owner : ℕ) (l q : Person) (db : Db)
    → find_key k db.persons ≡ some l
    → l.account_id ≡ none
    → find_key k db.persons ≡ some q
    → q.account_id ≡ some owner
    → ⊥
one_account k owner l q db e free found own = absurd (cc)

save_loose-KeepsOwned :
    (l : Person) (a : ℕ) (db : Db)
    → Distinct db.persons
    → In l db.persons
    → l.account_id ≡ none
    → KeepsOwned db (record db { persons = save (record l { account_id = some a }) db.persons })
save_loose-KeepsOwned l a db d i free k owner q found own =
    find_key-save_ne (record l { account_id = some a }) k db.persons
      (λ e.
        let same : find_key k db.persons ≡ some l =
          sym (ap (λ n. find_key n db.persons) e) ∙ Distinct-find_key l db.persons d i in
        one_account k owner l q db same free found own)
    ∙ found

module _ (new_id a : ℕ) (d : PersonData) (db : Db) (fresh : IsFresh new_id db.persons)
    (distinct : Distinct db.persons) where
  save-loose_or_new-KeepsOwned :
      (o : Option Person)
      → ((l : Person) → o ≡ some l → In l db.persons)
      → KeepsOwned db (record db { persons = save (loose_or_new new_id a d o) db.persons })
  save-loose_or_new-KeepsOwned none h = save_new-KeepsOwned (new_person new_id d (some a)) db fresh
  save-loose_or_new-KeepsOwned (some l) h = elim (Option-cases l.account_id) [
    | inl e ↦ rw e (save_loose-KeepsOwned l a db distinct (h l refl) e)
    | inr (other, e) ↦ rw e (save_new-KeepsOwned (new_person new_id d (some a)) db fresh)
  ]

  loose-In : (l : Person) → loose new_id a d db ≡ some l → In l db.persons
  unfolding by_email by_phone
  loose-In l e = elim (Option-cases (by_email d db.persons)) [
    | inl h ↦ find?-In (λ p. matches d.phone p.phone) db.persons l (ground (arith, e, h))
    | inr (p, h) ↦ find?-In (λ p. matches d.email p.email) db.persons l (ground (arith, e, h))
  ]

-- The person that a logged-in client books as belongs to that account: the call always returns one,
-- found or created, and it is never the person of another account: every row that belongs to an
-- account is afterwards as it was. The keys of the rows are distinct, and that of the new row is new.
pub find_or_create_for_account-owned :
    (new_id account_id : ℕ) (d : PersonData) (db : Db)
    → IsFresh new_id db.persons
    → Distinct db.persons
    → (p : Person) × (db' : Db) × (find_or_create_for_account new_id account_id d db ≡ (ok p, db'))
      × (p.account_id ≡ some account_id)
      × KeepsOwned db db'
find_or_create_for_account-owned new_id a d db fresh distinct =
    elim (Option-cases (oldest (of_account a) db.persons)) [
      | inl h ↦ (
        written new_id a d db,
        record db { persons = save (written new_id a d db) db.persons },
        find_or_create_for_account_new new_id a d db h,
        loose_or_new-account new_id a d (loose new_id a d db),
        save-loose_or_new-KeepsOwned new_id a d db fresh distinct (loose new_id a d db)
            (loose-In new_id a d db fresh distinct),
      )
      | inr (p, h) ↦ (
        p,
        db,
        find_or_create_for_account_old new_id a d db p h,
        of_account_lem a p (oldest-test (of_account a) db.persons p h),
        λ k owner q found own. found,
      )
    ]
