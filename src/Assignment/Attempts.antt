-- ===== src/Assignment/Attempts.antt =====
-- What the attempts at the candidates come to, one after the other: `bookForService` of src/modules/appointments/appointments.service.ts.
use back_costa_turnos.Base.{
  ℕ, suc, ◌+◌, ◌≡◌, ◌≢◌, ◌⊎◌, Bool, ◌++◌, length, subst, refl, sym, ◌∙◌, ap, inl, inr, true, false,
  Option, List, [], ◌∷◌, arith, nat_coded, Bool-cases,
}
use back_costa_turnos.Base.Http.{HttpError, conflict, Result, ok, err}
use back_costa_turnos.Enums.{membership_status_coded}
use back_costa_turnos.Store.Rows.{Membership}
use back_costa_turnos.Store.Table.{comercio_row}
use back_costa_turnos.Store.Db.{Db, Action}
use back_costa_turnos.Payments.{Provider}
use back_costa_turnos.Availability.{Luxon}
use back_costa_turnos.Store.Call.{>>=-of_ok}
use back_costa_turnos.Store.Rows.{Appointment}
use back_costa_turnos.Booking.{NewIds}
use back_costa_turnos.Booking.Book.{BookDto}
use back_costa_turnos.Booking.Capacity.{case_clash}
use back_costa_turnos.Enums.{CreatedVia}
use back_costa_turnos.Assignment.{
  book_for_service, book_for_membership, is_conflict, try_each, rank_candidates,
}

conflict-is_conflict : (e : HttpError) → is_conflict e ≡ true → e ≡ conflict
conflict-is_conflict e h = ground (arith, h)

-- Whether a result is a conflict.
abbrev is_conflict_result : {B : Type 0} → Result B → Bool
is_conflict_result (ok b) = false
is_conflict_result (err e) = is_conflict e

other_error : {B : Type 0} (r : Result B) → is_conflict_result r ≡ false → r ≢ err conflict
other_error r h q = case_clash (sym (ap is_conflict_result q) ∙ h)

Result-cases :
    {B : Type 0} (r : Result B) → ((b : B) × (r ≡ ok b)) ⊎ ((e : HttpError) × (r ≡ err e))
Result-cases (ok b) = inl (b, refl)
Result-cases (err e) = inr (e, refl)

add_zero : (n : ℕ) → n + 0 ≡ n
add_zero n = omega arith

shift : (n k : ℕ) → n + suc k ≡ suc n + k
shift n k = omega arith

module _ {B : Type 0} (attempt : ℕ → ℕ → Action B) where
  -- All of these candidates end in a conflict, each on the tables that the one before left; the last
  -- one leaves `db'`.
  abbrev pub Conflicts : ℕ → List Membership → Db → Db → Type 0
  Conflicts n [] db db' = db ≡ db'
  Conflicts n (m ∷ ms) db db' =
      (mid : Db) × (attempt n m.id db ≡ (err conflict, mid)) × Conflicts (suc n) ms mid db'

  -- One candidate decides: those before it end in a conflict, and it does not.
  pub record Decides (n : ℕ) (ranked : List Membership) (db : Db) (r : Result B) (db' : Db)
      : Type 0 where
    pub before : List Membership
    pub chosen : Membership
    pub after : List Membership
    pub ranking : ranked ≡ before ++ chosen ∷ after
    pub reached : Db
    pub refused : Conflicts n before db reached
    pub returns : attempt (n + length before) chosen.id reached ≡ (r, db')
    pub not_conflict : r ≢ err conflict

  abbrev pub Outcome : ℕ → List Membership → Db → Result B × Db → Type 0
  Outcome n ranked db (r, db') =
      (Conflicts n ranked db db' × (r ≡ err conflict)) ⊎ Decides n ranked db r db'

  here :
      (n : ℕ) (m : Membership) (ms : List Membership) (db : Db) (r : Result B) (db' : Db)
      → attempt n m.id db ≡ (r, db')
      → r ≢ err conflict
      → Decides n (m ∷ ms) db r db'
  here n m ms db r db' e ne = record {
    before = [];
    chosen = m;
    after = ms;
    ranking = refl;
    reached = db;
    refused = refl;
    returns = rw (add_zero n) e;
    not_conflict = ne;
  }

  later :
      (n : ℕ) (m : Membership) (ms : List Membership) (db mid : Db) (x : Result B × Db)
      → attempt n m.id db ≡ (err conflict, mid)
      → Outcome (suc n) ms mid x
      → Outcome n (m ∷ ms) db x
  later n m ms db mid (r, db') e (inl (c, q)) = inl ((mid, e, c), q)
  later n m ms db mid (r, db') e (inr d) = inr (record {
    before = m ∷ d.before;
    chosen = d.chosen;
    after = d.after;
    ranking = ap (λ l. m ∷ l) d.ranking;
    reached = d.reached;
    refused = (mid, e, d.refused);
    returns = rw (shift n (length d.before)) d.returns;
    not_conflict = d.not_conflict;
  })

  try_each-ok :
      (n : ℕ) (m : Membership) (ms : List Membership) (db : Db) (b : B)
      → (attempt n m.id db).0 ≡ ok b
      → try_each attempt n (m ∷ ms) db ≡ (ok b, (attempt n m.id db).1)
  unfolding try_each
  try_each-ok n m ms db b e = ground (arith, e)

  try_each-conflict :
      (n : ℕ) (m : Membership) (ms : List Membership) (db : Db)
      → (attempt n m.id db).0 ≡ err conflict
      → try_each attempt n (m ∷ ms) db ≡ try_each attempt (suc n) ms (attempt n m.id db).1
  unfolding try_each
  try_each-conflict n m ms db e = ground (arith, e)

  try_each-err :
      (n : ℕ) (m : Membership) (ms : List Membership) (db : Db) (x : HttpError)
      → is_conflict x ≡ false
      → (attempt n m.id db).0 ≡ err x
      → try_each attempt n (m ∷ ms) db ≡ (err x, (attempt n m.id db).1)
  unfolding try_each
  try_each-err n m ms db x c e = ground (arith, e, c)

  try_each-Outcome :
      (n : ℕ) (ms : List Membership) (db : Db) → Outcome n ms db (try_each attempt n ms db)
  unfolding try_each
  try_each-Outcome n [] db = inl (refl, refl)
  try_each-Outcome n (m ∷ ms) db =
      let db' = (attempt n m.id db).1 in
      elim (Result-cases (attempt n m.id db).0) [
        | inl (b, e) ↦
            subst (Outcome n (m ∷ ms) db) (sym (try_each-ok n m ms db b e))
              (inr (here n m ms db (ok b) db' (ap (λ r. (r, db')) e) (other_error (ok b) refl)))
        | inr (x, e) ↦ elim (Bool-cases (is_conflict x)) [
          | inl c ↦
              let at_conflict = e ∙ ap err (conflict-is_conflict x c) in
              subst (Outcome n (m ∷ ms) db) (sym (try_each-conflict n m ms db at_conflict)) (
                later n m ms db db' (try_each attempt (suc n) ms db')
                  (ap (λ r. (r, db')) at_conflict) (try_each-Outcome (suc n) ms db'))
          | inr c ↦
              subst (Outcome n (m ∷ ms) db) (sym (try_each-err n m ms db x c e))
                (inr (here n m ms db (err x) db' (ap (λ r. (r, db')) e) (other_error (err x) c)))
        ]
      ]

module _ (zones : ℕ → Luxon) (grace_days : ℕ) (provider : Provider) (now : ℕ) (ids : ℕ → NewIds)
    (service_id : ℕ) (dto : BookDto) (created_via : CreatedVia) (account_id : Option ℕ) where
  -- The attempt of that number, at a membership.
  abbrev pub attempt_at : ℕ → ℕ → Action Appointment
  attempt_at n membership_id =
      book_for_membership zones grace_days provider now (ids n) membership_id
        (record dto { service_id = service_id }) created_via account_id

  -- A reservation that names the service alone ends in a conflict exactly where there is no candidate or
  -- the attempts at all of them, in their order and each on the tables that the one before left, end in
  -- one. Otherwise the first candidate whose attempt does not decides: the reservation is what that
  -- attempt returns, an appointment or any other exception, and its tables. The ranking returns.
  pub book_for_service-Tries :
      (comercio_id : ℕ) (db : Db) (ranked : List Membership)
      → rank_candidates zones grace_days provider now comercio_id service_id dto.start_at
          dto.addon_service_ids db
        ≡ (ok ranked, db)
      → (r : Result Appointment) × (db' : Db) × (book_for_service zones grace_days provider now ids
            comercio_id service_id dto created_via account_id db
          ≡ (r, db'))
        × ((Conflicts attempt_at 0 ranked db db' × (r ≡ err conflict))
            ⊎ Decides attempt_at 0 ranked db r db')
  unfolding book_for_service
  book_for_service-Tries comercio_id db ranked e = (
    (try_each attempt_at 0 ranked db).0,
    (try_each attempt_at 0 ranked db).1,
    >>=-of_ok
        (rank_candidates zones grace_days provider now comercio_id service_id dto.start_at
          dto.addon_service_ids)
        (try_each attempt_at 0) e,
    try_each-Outcome attempt_at 0 ranked db,
  )
