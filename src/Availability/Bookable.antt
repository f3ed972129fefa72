-- ===== src/Availability/Bookable.antt =====
-- A slot of the agenda and the conflict test of a booking: `computeSlotsByMembership` of
-- src/modules/availability/availability.service.ts and `book` of
-- src/modules/appointments/appointments.service.ts.
use back_costa_turnos.Base.{
  All-imp, ℕ, ◌+◌, ◌≤◌, ◌<◌, ◌≡◌, refl, sym, ap, subst, ◌∙◌, Bool, true, false, not, ◌&&◌, ◌||◌,
  List, map, arith, leb, ◌==◌, nat_coded, filter, any, count, All, count-append, any-append,
}
use back_costa_turnos.Base.Http.{ok}
use back_costa_turnos.Enums.{appointment_status_coded}
use back_costa_turnos.Store.Rows.{Appointment, PendingBooking, Service}
use back_costa_turnos.Store.Table.{membership_row, comercio_row, service_row}
use back_costa_turnos.Store.Db.{Db}
use back_costa_turnos.Booking.{occupies, holds_slot, overlapping, pending_holds}
use back_costa_turnos.Booking.Book.{assert_available}
use back_costa_turnos.Availability.{Luxon}
use back_costa_turnos.Availability.Slots.{BuildSlotsArgs, BusyInterval, step_ms, taken_by_booking}
use back_costa_turnos.Availability.Inputs.{blocks, still_held, busy_visit, busy_hold, busy_of}
use back_costa_turnos.Availability.Free.{
  OverlapsMeets, any-filter, any-map, count-filter, count-map, count_le, any_le, reaches,
  taken_by_booking-reaches,
}

-- The calendar: a minute of a day of a range lies between the ends of the range.
pub record IsCalendar (luxon : Luxon) : Type 0 where
  pub overlaps_meets : OverlapsMeets luxon
  pub after_start :
      (first day minute : ℕ) → first ≤ day → luxon.start_of first ≤ luxon.at day minute
  pub before_end :
      (day last minute : ℕ) → day ≤ last → minute < 1440 → luxon.at day minute ≤ luxon.end_of last

-- A row that is not empty and, if it began before that instant, has ended by then.
abbrev pub Settled : ℕ → ℕ → ℕ → Type 0
Settled instant start end' = (start < end') × (start < instant → end' ≤ instant)

-- Every visit and hold is settled at the instant.
abbrev pub IsTidy : Db → ℕ → Type 0
IsTidy db instant =
    All (λ a. Settled instant a.start_at a.end_at) db.appointments
    × All (λ h. Settled instant h.start_at h.end_at) db.pending_bookings

lt→not_leb : (a b : ℕ) → a < b → leb b a ≡ false
lt→not_leb a b h = ground (arith, h)

module _ (luxon : Luxon) (now : ℕ) (args : BuildSlotsArgs) (overlap : OverlapsMeets luxon)
    (professional_id first last start : ℕ) where
  abbrev end_of_slot : ℕ
  end_of_slot = start + step_ms luxon now args

  visit-blocks :
      (a : Appointment) (p : Bool)
      → start < end_of_slot
      → first ≤ start
      → end_of_slot ≤ last
      → Settled first a.start_at a.end_at
      → (occupies professional_id start end_of_slot a && p) ≡ true
      → (blocks professional_id first last a && (reaches luxon now args start (busy_visit a) && p))
        ≡ true
  visit-blocks a p pos lo hi settled h =
      rw (overlap start end_of_slot a.start_at a.end_at pos settled.0)
        (ground (arith, settled.1, h))

  hold-still_held :
      (a : PendingBooking) (p : Bool)
      → start < end_of_slot
      → first ≤ start
      → end_of_slot ≤ last
      → Settled first a.start_at a.end_at
      → (holds_slot now professional_id start end_of_slot a && p) ≡ true
      → (still_held now professional_id first last a
          && (reaches luxon now args start (busy_hold a) && p))
        ≡ true
  hold-still_held a p pos lo hi settled h =
      rw (overlap start end_of_slot a.start_at a.end_at pos settled.0)
        (ground (arith, settled.1, h))

  module _ (db : Db) (tidy : IsTidy db first) (pos : start < end_of_slot) (lo : first ≤ start)
      (hi : end_of_slot ≤ last) (here : args.busy ≡ busy_of db now professional_id first last) where
    abbrev visits : (ℕ → Bool) → Appointment → Bool
    visits p a =
        blocks professional_id first last a
        && (reaches luxon now args start (busy_visit a) && p a.service_id)

    abbrev helds : (ℕ → Bool) → PendingBooking → Bool
    helds p h =
        still_held now professional_id first last h
        && (reaches luxon now args start (busy_hold h) && p h.service_id)

    any-busy :
        (p : ℕ → Bool)
        → any (λ b. reaches luxon now args start b && p b.service_id) args.busy
          ≡ (any (visits p) db.appointments || any (helds p) db.pending_bookings)
    unfolding busy_of
    any-busy p =
        let q : BusyInterval → Bool = λ b. reaches luxon now args start b && p b.service_id in
        ap (any q) here
        ∙ any-append q (map busy_visit (filter (blocks professional_id first last) db.appointments))
            (map busy_hold (filter (still_held now professional_id first last) db.pending_bookings))
        ∙ rw
            (
              any-map q busy_visit (filter (blocks professional_id first last) db.appointments),
              any-map q busy_hold
                  (filter (still_held now professional_id first last) db.pending_bookings),
              any-filter (λ a. q (busy_visit a)) (blocks professional_id first last)
                  db.appointments,
              any-filter (λ h. q (busy_hold h)) (still_held now professional_id first last)
                  db.pending_bookings,
            )
            refl

    count-busy :
        (p : ℕ → Bool)
        → count (λ b. reaches luxon now args start b && p b.service_id) args.busy
          ≡ count (visits p) db.appointments + count (helds p) db.pending_bookings
    unfolding busy_of
    count-busy p =
        let q : BusyInterval → Bool = λ b. reaches luxon now args start b && p b.service_id in
        ap (count q) here
        ∙ count-append q
            (map busy_visit (filter (blocks professional_id first last) db.appointments))
            (map busy_hold (filter (still_held now professional_id first last) db.pending_bookings))
        ∙ rw
            (
              count-map q busy_visit (filter (blocks professional_id first last) db.appointments),
              count-map q busy_hold
                  (filter (still_held now professional_id first last) db.pending_bookings),
              count-filter (λ a. q (busy_visit a)) (blocks professional_id first last)
                  db.appointments,
              count-filter (λ h. q (busy_hold h)) (still_held now professional_id first last)
                  db.pending_bookings,
            )
            refl

    abbrev conflicts : List Appointment
    conflicts = overlapping db professional_id start end_of_slot

    abbrev holds : List PendingBooking
    holds = pending_holds db now professional_id start end_of_slot

    any-conflicts :
        (p : ℕ → Bool)
        → any (λ b. reaches luxon now args start b && p b.service_id) args.busy ≡ false
        → (any (λ a. p a.service_id) conflicts ≡ false) × (any (λ h. p h.service_id) holds ≡ false)
    any-conflicts p h =
        let none : (any (visits p) db.appointments || any (helds p) db.pending_bookings) ≡ false =
          sym (any-busy p) ∙ h in
        (
          any-filter _ (occupies professional_id start end_of_slot) db.appointments
              ∙ any_le _ (visits p) db.appointments
                  (All-imp _ _ db.appointments (λ a s. visit-blocks a (p a.service_id) pos lo hi s)
                    tidy.0)
                  (ground (arith, none)),
          any-filter _ (holds_slot now professional_id start end_of_slot) db.pending_bookings
              ∙ any_le _ (helds p) db.pending_bookings
                  (All-imp _ _ db.pending_bookings
                    (λ a s. hold-still_held a (p a.service_id) pos lo hi s) tidy.1)
                  (ground (arith, none)),
        )

    count-conflicts :
        (p : ℕ → Bool)
        → count (λ a. p a.service_id) conflicts + count (λ h. p h.service_id) holds
          ≤ count (λ b. reaches luxon now args start b && p b.service_id) args.busy
    count-conflicts p = omega (
      arith,
      count-busy p,
      count-filter (λ a. p a.service_id) (occupies professional_id start end_of_slot)
          db.appointments,
      count-filter (λ h. p h.service_id) (holds_slot now professional_id start end_of_slot)
          db.pending_bookings,
      count_le _ (visits p) db.appointments
          (All-imp _ _ db.appointments (λ a s. visit-blocks a (p a.service_id) pos lo hi s) tidy.0),
      count_le _ (helds p) db.pending_bookings (
          All-imp _ _ db.pending_bookings (λ a s. hold-still_held a (p a.service_id) pos lo hi s)
            tidy.1),
    )

    -- An hour that the agenda shows as free passes the conflict test.
    pub assert_available-free :
        (service : Service)
        → args.target_service_id ≡ service.id
        → args.capacity ≡ service.capacity
        → taken_by_booking luxon now args start ≡ false
        → assert_available now professional_id service start end_of_slot db ≡ (ok tt, db)
    unfolding assert_available
    assert_available-free service target capacity free =
        let (others, room) = taken_by_booking-reaches luxon now args start free in
        let none = any-conflicts (λ s. not (s == args.target_service_id)) others in
        let no_visit : any (λ (a : Appointment). not (a.service_id == service.id)) conflicts
            ≡ false =
          subst (λ t. any (λ (a : Appointment). not (a.service_id == t)) conflicts ≡ false) target
            none.0 in
        let no_hold : any (λ (h : PendingBooking). not (h.service_id == service.id)) holds ≡ false =
          subst (λ t. any (λ (h : PendingBooking). not (h.service_id == t)) holds ≡ false) target
            none.1 in
        let few : count (λ (a : Appointment). a.service_id == service.id) conflicts
              + count (λ (h : PendingBooking). h.service_id == service.id) holds
            < service.capacity =
          subst
            (λ t.
              count (λ (a : Appointment). a.service_id == t) conflicts
                + count (λ (h : PendingBooking). h.service_id == t) holds
              < service.capacity)
            target
            (omega (arith, count-conflicts (λ s. s == args.target_service_id), room, capacity)) in
        let left : leb service.capacity (
              count (λ (a : Appointment). a.service_id == service.id) conflicts
              + count (λ (h : PendingBooking). h.service_id == service.id) holds)
            ≡ false =
          lt→not_leb _ _ few in
        rw (no_visit, no_hold, left) refl
