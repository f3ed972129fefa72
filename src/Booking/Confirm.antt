-- ===== src/Booking/Confirm.antt =====
-- `confirmPaidBooking`, `releasePending` and `purgeExpiredHolds`: what becomes of a hold
-- (src/modules/appointments/appointments.service.ts).
use back_costa_turnos.Base.{
  ℕ, ◌+◌, ◌*◌, Bool, false, Option, none, some, map, ltb, if◌then◌else◌, ◌==◌, nat_coded, is_some,
  filter, find?, count,
}
use back_costa_turnos.Base.Http.{ok}
use back_costa_turnos.Enums.{
  AppointmentStatus, CreatedVia, NotificationType, payment_method_coded, payment_option_coded,
  payment_status_coded, appointment_status_coded, created_via_coded,
}
use back_costa_turnos.Store.Rows.{PendingBooking, Payment}
use back_costa_turnos.Store.Table.{
  find_key, delete_where, appointment_row, payment_row, pending_booking_row, professional_row,
}
use back_costa_turnos.Store.Db.{Action, pure, gets, ◌>>=◌, ◌>>◌, modify, transaction}
use back_costa_turnos.Booking.{
  Slot, overlapping, ensure_professional_client, save_appointment, save_addons, enqueue, addon_row,
  new_appointment,
}
use back_costa_turnos.Booking.Deposit.{bump_all, notice}

abbrev pub set_appointment : ℕ → Payment → Payment
set_appointment appointment_id p = record p { appointment_id = some appointment_id }

abbrev pub slot_of_hold : ℕ → PendingBooking → Slot
slot_of_hold professional_id p = record {
  professional_id = professional_id;
  comercio_id = p.comercio_id;
  membership_id = p.membership_id;
  staff_id = p.staff_id;
  person_id = p.person_id;
  service_id = p.service_id;
  start_at = p.start_at;
  end_at = p.end_at;
}

-- The appointment of a hold, created even where a firm one is in the way (the code logs that).
unfoldable pub confirm_hold : ℕ → Payment → PendingBooking → Action (Unit {0})
confirm_hold new_id payment pending = do
  let tenant_id = payment.professional_id
  conflicts ← gets (λ db. overlapping db tenant_id pending.start_at pending.end_at)
  bump_all tenant_id (filter (λ a. a.is_provisional) conflicts)
  let appointment =
      new_appointment new_id (slot_of_hold tenant_id pending) AppointmentStatus.confirmed false
        CreatedVia.client_self
  save_appointment appointment
  ensure_professional_client tenant_id pending.person_id
  save_addons (map (addon_row new_id tenant_id) pending.addon_data)
  modify (λ db. record db {
    payments = map (λ p. if p.id == payment.id then set_appointment new_id p else p) db.payments;
    pending_bookings = delete_where (λ p. p.id == pending.id) db.pending_bookings;
  })
  enqueue (notice tenant_id pending.person_id NotificationType.deposit new_id)

unfoldable pub has_appointment : Option Payment → Bool
has_appointment none = false
has_appointment (some p) = is_some p.appointment_id

unfoldable pub confirm_paid_booking_body : ℕ → Payment → Action (Unit {0})
confirm_paid_booking_body new_id payment = do
  done ← gets (λ db. has_appointment (find_key payment.id db.payments))
  pending ← gets (λ db. find? (λ p. p.payment_id == payment.id) db.pending_bookings)
  if done then pure tt else elim pending [ none ↦ pure tt | some p ↦ confirm_hold new_id payment p ]

unfoldable pub confirm_paid_booking : ℕ → Payment → Action (Unit {0})
confirm_paid_booking new_id payment = transaction (confirm_paid_booking_body new_id payment)

unfoldable pub release_pending : ℕ → Action (Unit {0})
release_pending payment_id = modify (λ db. record db {
  pending_bookings = delete_where (λ p. p.payment_id == payment_id) db.pending_bookings;
})

-- Holds that ran out more than an hour ago; the result is their number.
unfoldable pub purge_expired_holds : ℕ → Action ℕ
purge_expired_holds now db = (
  ok (count (λ p. ltb (p.expires_at + 60 * 60000) now) db.pending_bookings),
  record db {
    pending_bookings = delete_where (λ p. ltb (p.expires_at + 60 * 60000) now) db.pending_bookings;
  },
)
