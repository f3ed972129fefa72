-- ===== src/Booking/Capacity.antt =====
-- The conflict test of `book` (src/modules/appointments/appointments.service.ts) and the hour that it
-- protects: one service at a time, up to its capacity.
use back_costa_turnos.Base.{
  ℕ, ◌+◌, ◌≤◌, ◌<◌, ◌≡◌, refl, sym, ◌∙◌, ◌⊎◌, inl, inr, Bool, true, false, not, ◌&&◌, ◌||◌, List,
  [], ◌∷◌, ◌++◌, map, arith, leb, if◌then◌else◌, ◌==◌, nat_coded, Bool-cases, length, filter, any,
  all, count,
}
use back_costa_turnos.Base.Http.{conflict, ok, err}
use back_costa_turnos.Enums.{
  AppointmentStatus, CreatedVia, payment_method_coded, payment_option_coded, payment_status_coded,
  appointment_status_coded, created_via_coded,
}
use back_costa_turnos.Store.Rows.{Appointment, Service}
use back_costa_turnos.Store.Table.{
  save, appointment_row, payment_row, pending_booking_row, professional_row,
}
use back_costa_turnos.Store.Db.{Db, ◌>>=◌}
use back_costa_turnos.Combination.{AddonPricing}
use back_costa_turnos.Booking.{
  Slot, occupies, overlapping, pending_holds, ensure_professional_client, save_appointment,
  save_addons, snapshot, addon_row, new_appointment,
}
use back_costa_turnos.Booking.{is_owner_person, with_client}
use back_costa_turnos.Booking.Book.{assert_available, reserve}

-- Of the hour of a slot: nobody else's service is in it, and the appointments and the live holds of
-- its own service are at most its capacity.
pub record FitsIn (db : Db) (now : ℕ) (slot : Slot) (service : Service) : Type 0 where
  pub one_service :
      all
        (λ a. a.service_id == service.id)
        (overlapping db slot.professional_id slot.start_at slot.end_at)
      ≡ true
  pub one_held_service :
      all
        (λ h. h.service_id == service.id)
        (pending_holds db now slot.professional_id slot.start_at slot.end_at)
      ≡ true
  pub within :
      length (overlapping db slot.professional_id slot.start_at slot.end_at)
        + length (pending_holds db now slot.professional_id slot.start_at slot.end_at)
      ≤ service.capacity

-- Whatever row the table had under that key, one save adds at most one row to a query.
length-filter-save :
    (q : Appointment → Bool) (a : Appointment) (xs : List Appointment)
    → length (filter q (save a xs)) ≤ length (filter q xs) + 1
unfolding save
length-filter-save q a [] = ground arith
length-filter-save q a (x ∷ xs) = ground (arith, length-filter-save q a xs)

all-filter-save :
    (p q : Appointment → Bool) (a : Appointment) (xs : List Appointment)
    → p a ≡ true
    → all p (filter q xs) ≡ true
    → all p (filter q (save a xs)) ≡ true
unfolding save
all-filter-save p q a [] h k = ground arith
all-filter-save p q a (x ∷ xs) h k = ground (arith, all-filter-save p q a xs h)

pub all-of_none_other :
    {A : Type 0} (p : A → Bool) (xs : List A)
    → any (λ x. not (p x)) xs ≡ false
    → (all p xs ≡ true) × (count p xs ≡ length xs)
all-of_none_other p [] h = (refl, refl)
all-of_none_other p (x ∷ xs) h = ground (arith, all-of_none_other p xs)

pub case_clash : true ≡ false → ⊥
case_clash e = absurd (cc)

pub none_other-of_all :
    {A : Type 0} (p : A → Bool) (xs : List A)
    → all p xs ≡ true
    → (any (λ x. not (p x)) xs ≡ false) × (count p xs ≡ length xs)
none_other-of_all p [] h = (refl, refl)
none_other-of_all p (x ∷ xs) h = ground (arith, none_other-of_all p xs)

module _ (now : ℕ) (service : Service) (slot : Slot) where
  abbrev pub taken : Db → Bool
  taken db =
      any (λ a. not (a.service_id == service.id))
        (overlapping db slot.professional_id slot.start_at slot.end_at)
      || (any (λ h. not (h.service_id == service.id))
            (pending_holds db now slot.professional_id slot.start_at slot.end_at)
          || leb service.capacity (
              count (λ a. a.service_id == service.id)
                (overlapping db slot.professional_id slot.start_at slot.end_at)
              + count (λ h. h.service_id == service.id)
                  (pending_holds db now slot.professional_id slot.start_at slot.end_at)))

  pub assert_available_lem :
      (db : Db)
      → assert_available now slot.professional_id service slot.start_at slot.end_at db
        ≡ (if taken db then (err conflict, db) else (ok tt, db))
  unfolding assert_available
  assert_available_lem db = elim (Bool-cases (taken db)) [ inl e ↦ rw e | inr e ↦ rw e ]

  abbrev Fits : Db → Type 0
  Fits db = FitsIn db now slot service

  Fits-save :
      (a : Appointment) (db : Db)
      → (a.service_id == service.id) ≡ true
      → taken db ≡ false
      → Fits (record db { appointments = save a db.appointments })
  Fits-save a db mine free =
      let q = occupies slot.professional_id slot.start_at slot.end_at in
      let same_a =
        all-of_none_other (λ x. x.service_id == service.id)
          (overlapping db slot.professional_id slot.start_at slot.end_at) (ground arith) in
      let same_h =
        all-of_none_other (λ x. x.service_id == service.id)
          (pending_holds db now slot.professional_id slot.start_at slot.end_at) (ground arith) in
      let room : count (λ x. x.service_id == service.id)
              (overlapping db slot.professional_id slot.start_at slot.end_at)
            + count (λ x. x.service_id == service.id)
                (pending_holds db now slot.professional_id slot.start_at slot.end_at)
          < service.capacity =
        ground arith in
      record {
        one_service =
            all-filter-save (λ x. x.service_id == service.id) q a db.appointments mine same_a.0;
        one_held_service = same_h.0;
        within = omega (arith, length-filter-save q a db.appointments, same_a.1, same_h.1, room);
      }

  client-Fits : (p q : ℕ) (db : Db) → Fits db → Fits (with_client p q db)
  unfolding with_client
  client-Fits p q db f =
      elim (Bool-cases (
        is_owner_person p q db
        || any (λ c. c.professional_id == p && c.person_id == q) db.professional_clients)) [
          | inl e ↦ rw e f
          | inr e ↦ rw e (record {
            one_service = f.one_service;
            one_held_service = f.one_held_service;
            within = f.within;
          })
        ]

  pub free_reserve :
      (new_id : ℕ) (provisional : Bool) (via : CreatedVia) (addons : List AddonPricing) (db : Db)
      → taken db ≡ false
      → (db' : Db) × (reserve now new_id service slot provisional via addons db
          ≡ (ok (new_appointment new_id slot AppointmentStatus.confirmed provisional via), db'))
        × ((slot.service_id == service.id) ≡ true → Fits db')
  unfolding reserve save_appointment save_addons ensure_professional_client
  free_reserve new_id provisional via addons db free =
      let saved = new_appointment new_id slot AppointmentStatus.confirmed provisional via in
      let mid = record db { appointments = save saved db.appointments } in
      let client = with_client slot.professional_id slot.person_id mid in
      (
        record client {
          addons =
              client.addons
              ++ map (λ a. addon_row saved.id slot.professional_id (snapshot a)) addons;
        },
        simp (assert_available_lem db, free, ◌>>=◌),
        λ mine.
            let f =
              client-Fits slot.professional_id slot.person_id mid (Fits-save saved db mine free) in
            record {
              one_service = f.one_service;
              one_held_service = f.one_held_service;
              within = f.within;
            },
      )

  reserve-taken :
      (new_id : ℕ) (provisional : Bool) (via : CreatedVia) (addons : List AddonPricing) (db : Db)
      → taken db ≡ true
      → reserve now new_id service slot provisional via addons db ≡ (err conflict, db)
  unfolding reserve
  reserve-taken new_id provisional via addons db e = simp (assert_available_lem db, e, ◌>>=◌)

  -- Room for one more, in words of the hour's rows alone.
  pub record HasRoom (db : Db) : Type 0 where
    pub one_service :
        all
          (λ a. a.service_id == service.id)
          (overlapping db slot.professional_id slot.start_at slot.end_at)
        ≡ true
    pub one_held_service :
        all
          (λ h. h.service_id == service.id)
          (pending_holds db now slot.professional_id slot.start_at slot.end_at)
        ≡ true
    pub room :
        length (overlapping db slot.professional_id slot.start_at slot.end_at)
          + length (pending_holds db now slot.professional_id slot.start_at slot.end_at)
        < service.capacity

  taken-HasRoom : (db : Db) → taken db ≡ false → HasRoom db
  taken-HasRoom db free =
      let same_a =
        all-of_none_other (λ x. x.service_id == service.id)
          (overlapping db slot.professional_id slot.start_at slot.end_at) (ground arith) in
      let same_h =
        all-of_none_other (λ x. x.service_id == service.id)
          (pending_holds db now slot.professional_id slot.start_at slot.end_at) (ground arith) in
      record { one_service = same_a.0; one_held_service = same_h.0; room = ground arith }

  HasRoom-taken : (db : Db) → HasRoom db → taken db ≡ false
  HasRoom-taken db r =
      let same_a =
        none_other-of_all (λ x. x.service_id == service.id)
          (overlapping db slot.professional_id slot.start_at slot.end_at) r.one_service in
      let same_h =
        none_other-of_all (λ x. x.service_id == service.id)
          (pending_holds db now slot.professional_id slot.start_at slot.end_at)
          r.one_held_service in
      let room = r.room in ground arith

  -- For a slot of the service, `book` after its checks takes the hour exactly where it has room: with
  -- room it returns the confirmed appointment, and afterwards the hour holds one service within its
  -- capacity; without room it throws a conflict and writes nothing.
  pub reserve-FitsIn :
      (new_id : ℕ) (provisional : Bool) (via : CreatedVia) (addons : List AddonPricing) (db : Db)
      → (slot.service_id == service.id) ≡ true
      → (HasRoom db
          × ((db' : Db) × (reserve now new_id service slot provisional via addons db ≡ (
            ok (new_appointment new_id slot AppointmentStatus.confirmed provisional via),
            db',
          ))
              × FitsIn db' now slot service))
        ⊎ (¬ HasRoom db
            × (reserve now new_id service slot provisional via addons db ≡ (err conflict, db)))
  reserve-FitsIn new_id provisional via addons db mine = elim (Bool-cases (taken db)) [
    | inl e ↦ inr (
      λ r. case_clash (sym e ∙ HasRoom-taken db r),
      reserve-taken new_id provisional via addons db e,
    )
    | inr e ↦
        let (db', run, fits) = free_reserve new_id provisional via addons db e in
        inl (taken-HasRoom db e, (db', run, fits mine))
  ]
