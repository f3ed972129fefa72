-- ===== src/Assignment/Offered.antt =====
-- A slot that the page shows, and the reservation of it: `bookForMembership` of
-- src/modules/appointments/appointments.service.ts.
use back_costa_turnos.Base.{
  In, ◌≤◌, ℕ, ◌+◌, ◌*◌, ◌≡◌, refl, sym, ◌∙◌, ap, inl, inr, Bool, true, false, ◌&&◌, Option, some,
  List, [], arith, if◌then◌else◌, ◌==◌, nat_coded, Bool-cases, find?, nat_beq_refl,
}
use back_costa_turnos.Base.Http.{conflict, Result, ok, err}
use back_costa_turnos.Enums.{
  AppointmentStatus, CreatedVia, created_via_coded, MembershipStatus, membership_status_coded,
}
use back_costa_turnos.Store.Rows.{Appointment, Membership, Service, Staff, Person}
use back_costa_turnos.Store.Db.{Db, ◌>>=◌}
use back_costa_turnos.Booking.{
  NewIds, ClientRef, Slot, load_service, get_active_membership, resolve_booking_membership,
  resolve_person_id, is_assigned, new_appointment,
}
use back_costa_turnos.Booking.Book.{BookDto, book, slot_of, is_provisional_booking}
use back_costa_turnos.Booking.Capacity.{
  case_clash, FitsIn, taken, assert_available_lem, free_reserve,
}
use back_costa_turnos.Combination.{resolve_addons}
use back_costa_turnos.Payments.{Provider}
use back_costa_turnos.Availability.{Luxon, get_membership_by_id, staff_of}
use back_costa_turnos.Availability.Slots.{AvailableSlot}
use back_costa_turnos.Availability.Inputs.{args_of, addon_duration, compute_slots_by_membership}
use back_costa_turnos.Availability.Promise.{
  Loaded, IsAccepted, IsSteady, compute_slots_by_membership-IsAccepted,
}
use back_costa_turnos.Availability.Bookable.{IsCalendar, IsTidy}
use back_costa_turnos.Assignment.{
  resolve_membership_booking_target, assert_not_walk_in_slot, book_for_membership,
}

abbrev is_ok : {A : Type 0} → Result A × Db → Bool
is_ok (r, db) = elim r [ ok a ↦ true | err e ↦ false ]

ok_clash :
    {A : Type 0} {db db' : Db} {a : A} → ◌≡◌ {A = Result A × Db} (ok a, db) (err conflict, db') → ⊥
ok_clash e = case_clash (ap is_ok e)

-- What a reservation without payment finds: the service is active and needs no payment, the
-- professional works in its comercio by this membership and has a chair, and the client is known or
-- is entered.
pub record Ready (db : Db) (ids : NewIds) (client : ClientRef) (account_id : Option ℕ)
    (m : Membership) (service : Service) : Type 0 where
  pub chair : Staff
  pub person_id : ℕ
  pub persons : List Person
  pub is_found : find? (λ s. s.id == service.id && s.is_active) db.services ≡ some service
  pub is_free_of_charge : service.allow_no_payment ≡ true
  pub works_there :
      find?
        (λ x.
          x.professional_id == m.professional_id
          && (x.comercio_id == service.comercio_id && x.status == MembershipStatus.active))
        db.memberships
      ≡ some m
  pub offers_it : is_assigned service.id m.id db ≡ true
  pub has_chair : find? (λ s. s.professional_id == m.professional_id) db.staff ≡ some chair
  pub has_person :
      resolve_person_id ids.person client account_id db
      ≡ (ok person_id, record db { persons = persons })

module _ (zones : ℕ → Luxon) (grace_days : ℕ) (provider : Provider)
    (now membership_id service_id first last : ℕ) (db : Db)
    (loaded : Loaded db membership_id service_id) (slot : AvailableSlot)
    (accepted : IsAccepted zones now membership_id service_id first last [] db loaded slot)
    (ids : NewIds) (client : ClientRef) (account_id : Option ℕ)
    (ready : Ready db ids client account_id loaded.m loaded.service) where
  abbrev pub booked_slot : Slot
  booked_slot =
      slot_of loaded.m.professional_id loaded.m loaded.service ready.chair.id ready.person_id
        slot.start_at slot.end_at

  -- The request: the slot, without added services; the chair is the membership's, whatever it says.
  abbrev pub request : ℕ → BookDto
  request staff_id = record {
    service_id = loaded.service.id;
    start_at = slot.start_at;
    staff_id = staff_id;
    client = client;
    addon_service_ids = [];
  }

  abbrev db1 : Db
  db1 = record db { persons = ready.persons }

  not_taken : taken now loaded.service booked_slot db ≡ false
  not_taken = elim (Bool-cases (taken now loaded.service booked_slot db)) [
    | inr e ↦ e
    | inl e ↦
        let refused : ◌≡◌ {A = Result (Unit {0}) × Db}
            (if taken now loaded.service booked_slot db then (err conflict, db) else (ok tt, db))
            (err conflict, db) =
          rw e refl in
        absurd (
          ok_clash (
            sym accepted.is_free
            ∙ assert_available_lem now loaded.service booked_slot db
            ∙ refused))
  ]

  target_lem :
      resolve_membership_booking_target membership_id db
      ≡ (ok (record { professional_id = loaded.m.professional_id; staff_id = ready.chair.id }), db)
  unfolding resolve_membership_booking_target get_membership_by_id staff_of
  target_lem = ground (arith, loaded.has_membership, ready.has_chair)

  guard_lem :
      assert_not_walk_in_slot zones grace_days provider membership_id loaded.service.id
        slot.start_at db
      ≡ (ok tt, db)
  unfolding assert_not_walk_in_slot get_membership_by_id
  guard_lem = simp (loaded.has_membership, accepted.has_appointments, ◌>>=◌)

  load_lem : load_service loaded.service.id db ≡ (ok loaded.service, db)
  unfolding load_service
  load_lem = ground (arith, ready.is_found)

  membership_lem :
      resolve_booking_membership loaded.m.professional_id loaded.service db ≡ (ok loaded.m, db)
  unfolding resolve_booking_membership get_active_membership
  membership_lem = ground (arith, ready.works_there, ready.offers_it)

  book_lem :
      (db' : Db) × (book now ids loaded.m.professional_id
          (request ready.chair.id)
          CreatedVia.client_self
          account_id
          db
        ≡ (
          ok (
              new_appointment ids.appointment booked_slot AppointmentStatus.confirmed
                (is_provisional_booking loaded.m loaded.service)
                CreatedVia.client_self),
          db',
        ))
      × FitsIn db' now booked_slot loaded.service
  unfolding book resolve_addons args_of addon_duration
  book_lem =
      let (db', e, fits) =
        free_reserve now loaded.service booked_slot ids.appointment
          (is_provisional_booking loaded.m loaded.service) CreatedVia.client_self [] db1
          not_taken in
      let ends : slot.start_at + (loaded.service.duration_minutes + 0) * 60000 ≡ slot.end_at =
        omega (arith, accepted.ends) in
      (
        db',
        ground (
          arith, load_lem, ready.is_free_of_charge, membership_lem, accepted.is_in_time,
          accepted.is_in_window, ready.has_person, ends, e,
        ),
        fits (nat_beq_refl loaded.service.id),
      )

  accepted-booked :
      (staff_id : ℕ)
      → (db' : Db) × (book_for_membership zones grace_days provider now ids membership_id
            (request staff_id)
            CreatedVia.client_self
            account_id
            db
          ≡ (
            ok (
                new_appointment ids.appointment booked_slot AppointmentStatus.confirmed
                  (is_provisional_booking loaded.m loaded.service)
                  CreatedVia.client_self),
            db',
          ))
        × FitsIn db' now booked_slot loaded.service
  unfolding book_for_membership
  accepted-booked staff_id =
      let (db', e, fits) = book_lem in (db', ground (arith, target_lem, guard_lem, e), fits)

-- What a client sees can be had: the slots of a membership and a service come, and a client who asks
-- for any of them at once gets a confirmed appointment at its hour, after which the hour still holds
-- no more than its service has room for. The rows that a booking reads are there and rules end before
-- midnight, nothing that began before the first day still goes on then, and the clock of the zone does
-- not change.
pub book_for_membership-offered :
    (zones : ℕ → Luxon) (grace_days : ℕ) (provider : Provider)
    (now membership_id service_id first last : ℕ) (db : Db)
    (loaded : Loaded db membership_id service_id) (ids : NewIds) (client : ClientRef)
    (account_id : Option ℕ)
    → Ready db ids client account_id loaded.m loaded.service
    → first ≤ last
    → IsCalendar (zones loaded.comercio.timezone)
    → IsSteady (zones loaded.comercio.timezone)
    → IsTidy db ((zones loaded.comercio.timezone).start_of first)
    → (slots : List AvailableSlot) × (compute_slots_by_membership zones now membership_id service_id
          (some first)
          (some last)
          []
          db
        ≡ (ok slots, db))
      × ((slot : AvailableSlot) (staff_id : ℕ)
          → In slot slots
          → (a : Appointment) × (db' : Db) × (book_for_membership zones grace_days provider now ids
                membership_id
                (record {
                  service_id = loaded.service.id;
                  start_at = slot.start_at;
                  staff_id = staff_id;
                  client = client;
                  addon_service_ids = [];
                })
                CreatedVia.client_self
                account_id
                db
              ≡ (ok a, db'))
            × (a.start_at ≡ slot.start_at)
            × (a.end_at ≡ slot.end_at)
            × (a.status ≡ AppointmentStatus.confirmed)
            × FitsIn db' now
                (record {
                  professional_id = a.professional_id;
                  comercio_id = a.comercio_id;
                  membership_id = a.membership_id;
                  staff_id = a.staff_id;
                  person_id = a.person_id;
                  service_id = a.service_id;
                  start_at = a.start_at;
                  end_at = a.end_at;
                })
                loaded.service)
book_for_membership-offered zones grace_days provider now membership_id service_id first last db
      loaded ids client account_id ready range calendar steady tidy =
    let (slots, e, accept) =
      compute_slots_by_membership-IsAccepted zones now membership_id service_id first last [] db
        loaded range calendar steady tidy in
    (
      slots,
      e,
      λ slot staff_id i.
          let (db', b, fits) =
            accepted-booked zones grace_days provider now membership_id service_id first last db
              loaded slot (accept slot i) ids client account_id ready staff_id in
          (_, db', b, refl, refl, refl, fits),
    )
