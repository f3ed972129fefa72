-- ===== src/Booking/Holds.antt =====
-- `confirmPaidBooking` (src/modules/appointments/appointments.service.ts) and what it does to the payments.
use back_costa_turnos.Base.{
  ◌∙◌, ℕ, ◌≡◌, refl, ap, inl, inr, true, false, none, some, List, [], ◌∷◌, ◌++◌, map, arith,
  if◌then◌else◌, ◌==◌, nat_coded, Bool-cases, Option-cases, is_some, filter, find?,
}
use back_costa_turnos.Base.Http.{ok}
use back_costa_turnos.Enums.{
  AppointmentStatus, CreatedVia, NotificationType, payment_method_coded, payment_option_coded,
  payment_status_coded, appointment_status_coded, created_via_coded,
}
use back_costa_turnos.Store.Rows.{Appointment, PendingBooking, Payment}
use back_costa_turnos.Store.Table.{
  save, find_key, delete_where, appointment_row, payment_row, pending_booking_row, professional_row,
}
use back_costa_turnos.Store.Db.{Db, ◌>>=◌}
use back_costa_turnos.Booking.{
  overlapping, ensure_professional_client, save_appointment, save_addons, enqueue, addon_row,
  new_appointment,
}
use back_costa_turnos.Booking.{with_client}
use back_costa_turnos.Booking.Deposit.{bump_all, bumped, notice}
use back_costa_turnos.Booking.Confirm.{
  set_appointment, slot_of_hold, has_appointment, confirm_hold, confirm_paid_booking,
  confirm_paid_booking_body,
}

-- What displacing appointments leaves alone.
record SameMoney (a b : Db) : Type 0 where
  payments : b.payments ≡ a.payments
  pending_bookings : b.pending_bookings ≡ a.pending_bookings

bump_all-returns :
    (tenant_id : ℕ) (xs : List Appointment) (db : Db)
    → (db' : Db) × (bump_all tenant_id xs db ≡ (ok tt, db')) × SameMoney db db'
unfolding bump_all save_appointment enqueue
bump_all-returns tenant_id [] db = (db, refl, record { payments = refl; pending_bookings = refl })
bump_all-returns tenant_id (x ∷ xs) db =
    let (db', e, s) = bump_all-returns tenant_id xs (record db {
      appointments = save (bumped x) db.appointments;
      notifications =
          db.notifications ++ notice tenant_id x.person_id NotificationType.bumped x.id ∷ [];
    }) in
    (db', e, record { payments = s.payments; pending_bookings = s.pending_bookings })

with_client-SameMoney : (p q : ℕ) (db : Db) → SameMoney db (with_client p q db)
unfolding with_client
with_client-SameMoney p q db = ground arith

find_key-set :
    (k new_id : ℕ) (xs : List Payment)
    → is_some (find_key k xs) ≡ true
    → has_appointment (find_key k (map (λ p. if p.id == k then set_appointment new_id p else p) xs))
      ≡ true
unfolding find_key has_appointment
find_key-set k new_id [] h = h
find_key-set k new_id (x ∷ xs) h = ground (arith, find_key-set k new_id xs)

-- The payments once the appointment `new_id` is that of the payment `k`.
abbrev linked_to : ℕ → ℕ → List Payment → List Payment
linked_to k new_id xs = map (λ p. if p.id == k then set_appointment new_id p else p) xs

confirm_hold-returns :
    (new_id : ℕ) (payment : Payment) (pending : PendingBooking) (db : Db)
    → (db' : Db) × (confirm_hold new_id payment pending db ≡ (ok tt, db'))
      × (db'.payments ≡ linked_to payment.id new_id db.payments)
unfolding confirm_hold save_appointment save_addons enqueue ensure_professional_client
confirm_hold-returns new_id payment pending db =
    let (db', e, s) =
      bump_all-returns payment.professional_id
        (filter (λ a. a.is_provisional)
          (overlapping db payment.professional_id pending.start_at pending.end_at))
        db in
    let saved =
      new_appointment new_id (slot_of_hold payment.professional_id pending)
        AppointmentStatus.confirmed false CreatedVia.client_self in
    let client =
      with_client payment.professional_id pending.person_id
        (record db' { appointments = save saved db'.appointments }) in
    let money =
      with_client-SameMoney payment.professional_id pending.person_id
        (record db' { appointments = save saved db'.appointments }) in
    (
      record client {
        addons = client.addons ++ map (addon_row new_id payment.professional_id) pending.addon_data;
        payments =
            map (λ p. if p.id == payment.id then set_appointment new_id p else p) client.payments;
        pending_bookings = delete_where (λ p. p.id == pending.id) client.pending_bookings;
        notifications =
            client.notifications
            ++ notice payment.professional_id pending.person_id NotificationType.deposit new_id
              ∷ [];
      },
      simp (e, ◌>>=◌),
      ap (linked_to payment.id new_id) (money.payments ∙ s.payments),
    )

-- A payment that has its appointment is confirmed already: nothing is written.
pub confirm_done :
    (new_id : ℕ) (payment : Payment) (db : Db)
    → has_appointment (find_key payment.id db.payments) ≡ true
    → confirm_paid_booking new_id payment db ≡ (ok tt, db)
unfolding confirm_paid_booking confirm_paid_booking_body
confirm_done new_id payment db h = ground (arith, h)

pub confirm_no_hold :
    (new_id : ℕ) (payment : Payment) (db : Db)
    → find? (λ p. p.payment_id == payment.id) db.pending_bookings ≡ none
    → confirm_paid_booking new_id payment db ≡ (ok tt, db)
unfolding confirm_paid_booking confirm_paid_booking_body
confirm_no_hold new_id payment db h =
    elim (Bool-cases (has_appointment (find_key payment.id db.payments))) [
      | inl e ↦ ground arith
      | inr e ↦ ground arith
    ]

confirm_held :
    (new_id : ℕ) (payment : Payment) (pending : PendingBooking) (db db' : Db)
    → has_appointment (find_key payment.id db.payments) ≡ false
    → find? (λ p. p.payment_id == payment.id) db.pending_bookings ≡ some pending
    → confirm_hold new_id payment pending db ≡ (ok tt, db')
    → confirm_paid_booking new_id payment db ≡ (ok tt, db')
unfolding confirm_paid_booking confirm_paid_booking_body
confirm_held new_id payment pending db db' h k e = ground (arith, h, k, e)

-- `confirmPaidBooking` on a payment of the table never throws, and a second report of the same payment
-- returns and writes nothing.
pub confirm_paid_booking-idempotent :
    (new_id : ℕ) (payment : Payment) (db : Db)
    → is_some (find_key payment.id db.payments) ≡ true
    → (db' : Db) × (confirm_paid_booking new_id payment db ≡ (ok tt, db'))
      × ((again_id : ℕ) → confirm_paid_booking again_id payment db' ≡ (ok tt, db'))
confirm_paid_booking-idempotent new_id payment db h =
    elim (Bool-cases (has_appointment (find_key payment.id db.payments))) [
      | inl e ↦
          (db, confirm_done new_id payment db e, λ again_id. confirm_done again_id payment db e)
      | inr e ↦ elim (Option-cases (find? (λ p. p.payment_id == payment.id) db.pending_bookings)) [
        | inl n ↦ (
          db,
          confirm_no_hold new_id payment db n,
          λ again_id. confirm_no_hold again_id payment db n,
        )
        | inr (pending, s) ↦
            let (db', run, same) = confirm_hold-returns new_id payment pending db in
            let linked : has_appointment (find_key payment.id db'.payments) ≡ true =
              rw same (find_key-set payment.id new_id db.payments h) in
            (
              db',
              confirm_held new_id payment pending db db' e s run,
              λ again_id. confirm_done again_id payment db' linked,
            )
      ]
    ]

find_key-linked_to :
    (k new_id : ℕ) (a : Payment) (xs : List Payment)
    → find_key k xs ≡ some a
    → find_key k (linked_to k new_id xs) ≡ some (set_appointment new_id a)
unfolding find_key
find_key-linked_to k new_id a [] e = absurd (cc)
find_key-linked_to k new_id a (x ∷ xs) e = ground (arith, find_key-linked_to k new_id a xs)

-- A confirmation returns, and the payment keeps its status.
pub confirm_paid_booking-status :
    (new_id : ℕ) (payment a : Payment) (db : Db)
    → find_key payment.id db.payments ≡ some a
    → (db' : Db) × (q : Payment) × (confirm_paid_booking new_id payment db ≡ (ok tt, db'))
      × (find_key payment.id db'.payments ≡ some q)
      × (q.status ≡ a.status)
confirm_paid_booking-status new_id payment a db h =
    elim (Bool-cases (has_appointment (find_key payment.id db.payments))) [
      | inl e ↦ (db, a, confirm_done new_id payment db e, h, refl)
      | inr e ↦ elim (Option-cases (find? (λ p. p.payment_id == payment.id) db.pending_bookings)) [
        | inl n ↦ (db, a, confirm_no_hold new_id payment db n, h, refl)
        | inr (pending, s) ↦
            let (db', run, same) = confirm_hold-returns new_id payment pending db in
            (
              db',
              set_appointment new_id a,
              confirm_held new_id payment pending db db' e s run,
              rw same (find_key-linked_to payment.id new_id a db.payments h),
              refl,
            )
      ]
    ]
