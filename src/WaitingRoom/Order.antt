-- ===== src/WaitingRoom/Order.antt =====
-- The order of the queue under `sendToBack` (src/modules/appointments/appointments.service.ts).
use back_costa_turnos.Base.Sort.{insert_by, sort_by}
use back_costa_turnos.Base.{
  ℕ, ◌≤◌, max, ◌≡◌, refl, sym, ap, ◌∙◌, subst, inl, inr, Bool, true, false, not, ◌&&◌, some, List,
  [], ◌∷◌, ◌++◌, arith, nat_beq, if◌then◌else◌, ◌==◌, nat_coded, Bool-cases, filter, find?, All,
}
use back_costa_turnos.Base.Http.{ok}
use back_costa_turnos.Enums.{
  payment_method_coded, payment_option_coded, payment_status_coded, appointment_status_coded,
  created_via_coded,
}
use back_costa_turnos.Store.Rows.{Appointment}
use back_costa_turnos.Store.Table.{
  save, find_key, appointment_row, payment_row, pending_booking_row, professional_row,
}
use back_costa_turnos.Store.Db.{Db}
use back_costa_turnos.Store.TableLaws.{IsFresh, find_key-key}
use back_costa_turnos.Store.SaveEach.{Distinct}
use back_costa_turnos.Booking.{save_appointment}
use back_costa_turnos.WaitingRoom.{
  Day, is_today, find_by_id, rank, goes_after, in_queue_of, ordered_queue_of, can_reorder,
}
use back_costa_turnos.WaitingRoom.Queue.{max_rank, sent_back, send_to_back}

module _ {A : Type 0} (after : A → A → Bool) where
  insert_by-append :
      (x : A) (ys : List A) → All (λ y. after x y ≡ true) ys → insert_by after x ys ≡ ys ++ x ∷ []
  unfolding insert_by
  insert_by-append x [] h = refl
  insert_by-append x (y ∷ ys) h = ground (arith, h.0, insert_by-append x ys h.1)

  insert_by-before_last :
      (x z : A) (ys : List A)
      → after x z ≡ false
      → insert_by after x (ys ++ z ∷ []) ≡ insert_by after x ys ++ z ∷ []
  unfolding insert_by
  insert_by-before_last x z [] h = ground (arith, h)
  insert_by-before_last x z (y ∷ ys) h = ground (arith, insert_by-before_last x z ys h)

  All-insert_by :
      (P : A → Type 0) (x : A) (ys : List A) → P x → All P ys → All P (insert_by after x ys)
  unfolding insert_by
  All-insert_by P x [] p h = (p, tt)
  All-insert_by P x (y ∷ ys) p h = ground (arith, All-insert_by P x ys p h.1)

  All-sort_by : (P : A → Type 0) (xs : List A) → All P xs → All P (sort_by after xs)
  unfolding sort_by
  All-sort_by P [] h = tt
  All-sort_by P (x ∷ xs) h = All-insert_by P x (sort_by after xs) h.0 (All-sort_by P xs h.1)

max_rank-insert_by :
    (after : Appointment → Appointment → Bool) (x : Appointment) (ys : List Appointment)
    → max_rank (insert_by after x ys) ≡ max (rank x) (max_rank ys)
unfolding insert_by
max_rank-insert_by after x [] = refl
max_rank-insert_by after x (y ∷ ys) = ground (arith, max_rank-insert_by after x ys)

max_rank-sort_by :
    (after : Appointment → Appointment → Bool) (xs : List Appointment)
    → max_rank (sort_by after xs) ≡ max_rank xs
unfolding sort_by
max_rank-sort_by after [] = refl
max_rank-sort_by after (x ∷ xs) =
    max_rank-insert_by after x (sort_by after xs) ∙ ap (max (rank x)) (max_rank-sort_by after xs)

max_rank-All : (xs : List Appointment) (n : ℕ) → max_rank xs ≤ n → All (λ x. rank x ≤ n) xs
max_rank-All [] n h = tt
max_rank-All (x ∷ xs) n h = (omega (arith, h), max_rank-All xs n (omega (arith, h)))

All-imp :
    {A : Type 0} {P Q : A → Type 0} (xs : List A) → ((x : A) → P x → Q x) → All P xs → All Q xs
All-imp [] f h = tt
All-imp (x ∷ xs) f h = (f x h.0, All-imp xs f h.1)

All-filter_tail :
    {A : Type 0} (P : A → Type 0) (q : A → Bool) (x : A) (xs : List A)
    → All P (filter q (x ∷ xs))
    → All P (filter q xs)
All-filter_tail P q x xs h = elim (Bool-cases (q x)) [
  | inl e ↦ (subst (λ b. All P (if b then x ∷ filter q xs else filter q xs)) e h).1
  | inr e ↦ subst (λ b. All P (if b then x ∷ filter q xs else filter q xs)) e h
]

module _ (last : ℕ) (a : Appointment) where
  behind :
      (y : Appointment)
      → rank y ≤ last
      → (goes_after (sent_back last a) y ≡ true) × (goes_after y (sent_back last a) ≡ false)
  unfolding goes_after
  behind y h = ground (arith, h)

  abbrev others : (Appointment → Bool) → List Appointment → List Appointment
  others q xs = filter (λ x. q x && not (x.id == a.id)) xs

  others-fresh :
      (q : Appointment → Bool) (xs : List Appointment) → IsFresh a.id xs → filter q xs ≡ others q xs
  others-fresh q [] h = refl
  others-fresh q (x ∷ xs) h = ground (arith, h.0, others-fresh q xs h.1)

  sort-save_back :
      (q : Appointment → Bool) (xs : List Appointment)
      → Distinct xs
      → find_key a.id xs ≡ some a
      → q (sent_back last a) ≡ true
      → All (λ x. rank x ≤ last) (filter q xs)
      → sort_by goes_after (filter q (save (sent_back last a) xs))
        ≡ sort_by goes_after (others q xs) ++ sent_back last a ∷ []
  unfolding save find_key sort_by
  sort-save_back q [] d found mine low = absurd (cc)
  sort-save_back q (x ∷ xs) d found mine low =
      let rest = All-filter_tail _ q x xs low in
      elim (Bool-cases (nat_beq x.id a.id)) [
        | inl e ↦
            let same : x.id ≡ a.id = ground arith in
            let fresh = others-fresh q xs (subst (λ k. IsFresh k xs) same d.0) in
            let last_one =
              insert_by-append goes_after (sent_back last a) (sort_by goes_after (filter q xs)) (
                All-sort_by goes_after _ (filter q xs)
                  (All-imp (filter q xs) (λ y h. (behind y h).0) rest)) in
            ground (arith, e, mine, sym fresh, last_one)
        | inr e ↦
            let ih = sort-save_back q xs d.1 (ground (arith, found, e)) mine rest in
            elim (Bool-cases (q x)) [
              | inl f ↦
                  let low_x : rank x ≤ last =
                    (subst
                      (λ b. All (λ y. rank y ≤ last) (if b then x ∷ filter q xs else filter q xs)) f
                      low).0 in
                  ground (
                    arith,
                    e,
                    f,
                    ih,
                    insert_by-before_last goes_after x (sent_back last a)
                        (sort_by goes_after (others q xs)) (behind x low_x).1,
                  )
              | inr f ↦ ground (arith, e, f, ih)
            ]
      ]

find?-owned :
    (tenant_id id : ℕ) (a : Appointment) (xs : List Appointment)
    → find_key id xs ≡ some a
    → a.professional_id ≡ tenant_id
    → find? (λ x. x.id == id && x.professional_id == tenant_id) xs ≡ some a
unfolding find_key
find?-owned tenant_id id a [] e own = absurd (cc)
find?-owned tenant_id id a (x ∷ xs) e own = ground (arith, own, find?-owned tenant_id id a xs)

found_by_id :
    (tenant_id id : ℕ) (a : Appointment) (db : Db)
    → find_key id db.appointments ≡ some a
    → a.professional_id ≡ tenant_id
    → find_by_id tenant_id id db ≡ (ok a, db)
unfolding find_by_id
found_by_id tenant_id id a db h own = rw (find?-owned tenant_id id a db.appointments h own) refl

send_to_back_ok :
    (day : Day) (tenant_id id : ℕ) (a : Appointment) (db : Db)
    → find_by_id tenant_id id db ≡ (ok a, db)
    → can_reorder a ≡ true
    → send_to_back day tenant_id id db ≡ (
      ok (sent_back (max_rank (ordered_queue_of day a db)) a),
      record db {
        appointments = save (sent_back (max_rank (ordered_queue_of day a db)) a) db.appointments;
      },
    )
unfolding send_to_back save_appointment
send_to_back_ok day tenant_id id a db found can = ground (arith, found, can)

in_queue-can :
    (day : Day) (a : Appointment)
    → can_reorder a ≡ true
    → is_today day a.checked_in_at ≡ true
    → in_queue_of day a a ≡ true
in_queue-can day a can today = ground (arith, can, today)

queue_low :
    (day : Day) (a : Appointment) (db : Db)
    → All
        (λ x. rank x ≤ max_rank (ordered_queue_of day a db))
        (filter (in_queue_of day a) db.appointments)
unfolding ordered_queue_of
queue_low day a db =
    max_rank-All (filter (in_queue_of day a) db.appointments) _
      (omega (arith, max_rank-sort_by goes_after (filter (in_queue_of day a) db.appointments)))

queue_after :
    (day : Day) (last : ℕ) (a : Appointment) (db : Db)
    → find_key a.id db.appointments ≡ some a
    → in_queue_of day a a ≡ true
    → All (λ x. rank x ≤ last) (filter (in_queue_of day a) db.appointments)
    → Distinct db.appointments
    → ordered_queue_of day
        (sent_back last a)
        (record db { appointments = save (sent_back last a) db.appointments })
      ≡ sort_by goes_after (filter (λ x. in_queue_of day a x && not (x.id == a.id)) db.appointments)
        ++ sent_back last a ∷ []
unfolding ordered_queue_of
queue_after day last a db found mine low d =
    sort-save_back last a (in_queue_of day a) db.appointments d found mine low

-- `sendToBack` of somebody who is present and confirmed today always returns; the appointment keeps
-- its number, and the queue afterwards is the others in the order they had, with it at the end.
pub send_to_back-last :
    (day : Day) (tenant_id id : ℕ) (a : Appointment) (db : Db)
    → find_key id db.appointments ≡ some a
    → a.professional_id ≡ tenant_id
    → can_reorder a ≡ true
    → is_today day a.checked_in_at ≡ true
    → Distinct db.appointments
    → (b : Appointment) × (db' : Db) × (send_to_back day tenant_id id db ≡ (ok b, db'))
      × (b.id ≡ id)
      × (b.ticket_number ≡ a.ticket_number)
      × (ordered_queue_of day b db'
          ≡ sort_by goes_after
              (filter (λ x. in_queue_of day a x && not (x.id == a.id)) db.appointments)
            ++ b ∷ [])
send_to_back-last day tenant_id id a db found own can today d =
    let b = sent_back (max_rank (ordered_queue_of day a db)) a in
    let same = find_key-key id db.appointments a found in
    (
      b,
      record db { appointments = save b db.appointments },
      send_to_back_ok day tenant_id id a db (found_by_id tenant_id id a db found own) can,
      same,
      refl,
      queue_after day (max_rank (ordered_queue_of day a db)) a db
          (subst (λ k. find_key k db.appointments ≡ some a) (sym same) found)
          (in_queue-can day a can today) (queue_low day a db) d,
    )
