-- ===== src/Lifecycle/Final.antt =====
-- A final state under the writes of src/modules/appointments/appointments.service.ts: rules for calls
-- that load appointments and save them.
use back_costa_turnos.Base.{
  ℕ, ◌≡◌, refl, sym, ap, ◌∙◌, subst, inl, inr, Bool, true, false, ◌&&◌, Option, none, some, List,
  [], ◌∷◌, arith, ◌==◌, nat_coded, nat_beq→eq, Bool-cases, Option-cases, is_some, find?, find?-In,
  All, In, filter,
}
use back_costa_turnos.Base.Sort.{sort_by-All}
use back_costa_turnos.Base.Http.{HttpError, not_found, Result, ok, err}
use back_costa_turnos.Enums.{appointment_status_coded}
use back_costa_turnos.Store.Rows.{Appointment}
use back_costa_turnos.Store.Table.{save, find_key, appointment_row}
use back_costa_turnos.Store.TableLaws.{find_key-save_self, find_key-save_ne, All-save}
use back_costa_turnos.Store.Db.{Db, Action, query, gets, modify, or_raise, raise_if, ◌>>=◌}
use back_costa_turnos.Store.Frame.{Preorder, Keeps}
use back_costa_turnos.Booking.{save_appointment}
use back_costa_turnos.WaitingRoom.{
  Day, find_by_id, find_by_token, has_token, goes_after, in_queue_of, ordered_queue_of,
}
use back_costa_turnos.WaitingRoom.Queue.{is_terminal}

module _ (k : ℕ) where
  -- A row with that key is in a final state.
  abbrev pub Ended : Appointment → Type 0
  Ended a = a.id ≡ k → is_terminal a.status ≡ true

  -- There is an appointment with that key, and it is done, missed or cancelled.
  pub record IsFinal (db : Db) : Type 0 where
    pub is_there : is_some (find_key k db.appointments) ≡ true
    pub ended : All Ended db.appointments

  abbrev pub final : Preorder
  final = record {
    Rel = λ db db'. IsFinal db → IsFinal db';
    rel_refl = λ db h. h;
    rel_trans = λ a b c f g h. g (f h);
  }

  still_there :
      (b : Appointment) (xs : List Appointment)
      → is_some (find_key k xs) ≡ true
      → is_some (find_key k (save b xs)) ≡ true
  still_there b xs h = elim (Bool-cases (b.id == k)) [
    | inl e ↦
        let same : b.id ≡ k = nat_beq→eq _ _ e in
        subst (λ n. is_some (find_key n (save b xs)) ≡ true) same
          (ap is_some (find_key-save_self b xs))
    | inr e ↦ ap is_some (find_key-save_ne b k xs (λ q. ground (arith, e, q))) ∙ h
  ]

  pub save-Keeps : (b : Appointment) → Ended b → Keeps final (save_appointment b)
  unfolding save_appointment
  save-Keeps b e = record {
    keeps = λ db h. record {
      is_there = still_there b db.appointments h.is_there;
      ended = All-save Ended b db.appointments e h.ended;
    };
  }

  -- A write to the other tables.
  pub other-Keeps :
      (f : Db → Db) → ((db : Db) → (f db).appointments ≡ db.appointments) → Keeps final (modify f)
  other-Keeps f same = record {
    keeps = λ db h. record {
      is_there = ap (λ xs. is_some (find_key k xs)) (same db) ∙ h.is_there;
      ended = subst (All Ended) (sym (same db)) h.ended;
    };
  }

  pub query-Keeps : {A : Type 0} (f : Db → Result A) → Keeps final (query f)
  query-Keeps f = record { keeps = λ db h. h }

  pub In-Ended : (a : Appointment) (xs : List Appointment) → All Ended xs → In a xs → Ended a
  In-Ended a [] h i = elim i [ ]
  In-Ended a (x ∷ xs) h (inl e) = subst Ended (sym e) h.0
  In-Ended a (x ∷ xs) h (inr i) = In-Ended a xs h.1 i

  -- What a query of the appointments gives has ended as they have.
  pub gets_then :
      {A B : Type 0} (Q : A → Type 0) (f : A → Action B) (g : Db → A)
      → ((a : A) → Q a → Keeps final (f a))
      → ((db : Db) → IsFinal db → Q (g db))
      → Keeps final (gets g >>= f)
  gets_then Q f g n q = record { keeps = λ db h. (n (g db) (q db h)).keeps db h }

  found_id :
      (t i : ℕ) (a : Appointment) (xs : List Appointment)
      → find? (λ x. x.id == i && x.professional_id == t) xs ≡ some a
      → a.id ≡ i
  found_id t i a [] e = absurd (cc)
  found_id t i a (x ∷ xs) e = ground (arith, e, found_id t i a xs)

  -- A check that yields a value, or the refusal of one.
  pub query_then :
      {A B : Type 0} (r : Result A) (f : A → Action B)
      → ((b : A) → r ≡ ok b → Keeps final (f b))
      → Keeps final (query (λ db. r) >>= f)
  query_then (ok b) f n = record { keeps = λ db h. (n b refl).keeps db h }
  query_then (err e) f n = record { keeps = λ db h. h }

  pub or_raise_then :
      {A B : Type 0} (o : Option A) (e : HttpError) (f : A → Action B)
      → ((a : A) → o ≡ some a → Keeps final (f a))
      → Keeps final (or_raise o e >>= f)
  or_raise_then (some a) e f n = record { keeps = λ db h. (n a refl).keeps db h }
  or_raise_then none e f n = record { keeps = λ db h. h }

  pub refused :
      {B : Type 0} (b : Bool) (e : HttpError) (f : Unit {0} → Action B)
      → b ≡ true
      → Keeps final (raise_if b e >>= f)
  refused true e f q = record { keeps = λ db h. h }
  refused false e f q = absurd (cc)

  module _ {B : Type 0} (t i : ℕ) (f : Appointment → Action B)
      (next : (a : Appointment) → Ended a → a.id ≡ i → Keeps final (f a)) where
    find_by_id-some :
        (db : Db) (a : Appointment)
        → find? (λ a. a.id == i && a.professional_id == t) db.appointments ≡ some a
        → (find_by_id t i >>= f) db ≡ f a db
    unfolding find_by_id
    find_by_id-some db a e = ground (arith, e)

    find_by_id-none :
        (db : Db)
        → find? (λ a. a.id == i && a.professional_id == t) db.appointments ≡ none
        → (find_by_id t i >>= f) db ≡ (err not_found, db)
    unfolding find_by_id
    find_by_id-none db e = ground (arith, e)

    pub find_by_id_then : Keeps final (find_by_id t i >>= f)
    find_by_id_then = record {
      keeps = λ db h.
          elim (Option-cases (find? (λ a. a.id == i && a.professional_id == t) db.appointments)) [
            | inl e ↦ subst (λ x. IsFinal x.1) (sym (find_by_id-none db e)) h
            | inr (a, e) ↦
                subst (λ x. IsFinal x.1) (sym (find_by_id-some db a e))
                  ((next a
                      (In-Ended a db.appointments h.ended
                        (find?-In (λ a. a.id == i && a.professional_id == t) db.appointments a e))
                      (found_id t i a db.appointments e)).keeps
                    db h)
          ];
    }

  module _ {B : Type 0} (f : Appointment → Action B)
      (next : (a : Appointment) → Ended a → Keeps final (f a)) where
    find_by_token-some :
        (token : ℕ) (db : Db) (a : Appointment)
        → find? (λ a. has_token token a.public_token) db.appointments ≡ some a
        → (find_by_token token >>= f) db ≡ f a db
    unfolding find_by_token
    find_by_token-some token db a e = ground (arith, e)

    find_by_token-none :
        (token : ℕ) (db : Db)
        → find? (λ a. has_token token a.public_token) db.appointments ≡ none
        → (find_by_token token >>= f) db ≡ (err not_found, db)
    unfolding find_by_token
    find_by_token-none token db e = ground (arith, e)

    pub find_by_token_then : (token : ℕ) → Keeps final (find_by_token token >>= f)
    find_by_token_then token = record {
      keeps = λ db h.
          elim (Option-cases (find? (λ a. has_token token a.public_token) db.appointments)) [
            | inl e ↦ subst (λ x. IsFinal x.1) (sym (find_by_token-none token db e)) h
            | inr (a, e) ↦
                subst (λ x. IsFinal x.1) (sym (find_by_token-some token db a e))
                  ((next a (
                      In-Ended a db.appointments h.ended
                        (find?-In (λ a. has_token token a.public_token) db.appointments a e))).keeps
                    db h)
          ];
    }

  filter-Ended :
      (p : Appointment → Bool) (xs : List Appointment) → All Ended xs → All Ended (filter p xs)
  filter-Ended p [] h = tt
  filter-Ended p (x ∷ xs) h = elim (Bool-cases (p x)) [
    | inl e ↦ rw e (h.0, filter-Ended p xs h.1)
    | inr e ↦ rw e (filter-Ended p xs h.1)
  ]

  pub queue-Ended :
      (day : Day) (a : Appointment) (db : Db) → IsFinal db → All Ended (ordered_queue_of day a db)
  unfolding ordered_queue_of
  queue-Ended day a db h =
      sort_by-All goes_after Ended _ (filter-Ended (in_queue_of day a) db.appointments h.ended)

  pub queue_then :
      {B : Type 0} (day : Day) (a : Appointment) (f : List Appointment → Action B)
      → ((queue : List Appointment) → All Ended queue → Keeps final (f queue))
      → Keeps final (gets (ordered_queue_of day a) >>= f)
  queue_then day a f n = gets_then (All Ended) f (ordered_queue_of day a) n (queue-Ended day a)
