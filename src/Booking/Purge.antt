-- ===== src/Booking/Purge.antt =====
-- The clean-up of old holds, `purgeExpiredHolds` of
-- src/modules/appointments/appointments.service.ts.
use back_costa_turnos.Base.{
  ℕ, ◌+◌, ◌*◌, ◌≡◌, refl, Bool, List, [], ◌∷◌, arith, ltb, nat_coded, length, filter, count,
}
use back_costa_turnos.Base.Http.{ok}
use back_costa_turnos.Enums.{
  payment_method_coded, payment_option_coded, payment_status_coded, appointment_status_coded,
  created_via_coded,
}
use back_costa_turnos.Store.Rows.{PendingBooking}
use back_costa_turnos.Store.Table.{
  delete_where, appointment_row, payment_row, pending_booking_row, professional_row,
}
use back_costa_turnos.Store.Db.{Db}
use back_costa_turnos.Booking.{holds_slot, pending_holds}
use back_costa_turnos.Booking.Confirm.{purge_expired_holds}

abbrev is_old : ℕ → PendingBooking → Bool
is_old now p = ltb (p.expires_at + 60 * 60000) now

filter-delete_old :
    (now professional_id start end' : ℕ) (xs : List PendingBooking)
    → filter (holds_slot now professional_id start end') (delete_where (is_old now) xs)
      ≡ filter (holds_slot now professional_id start end') xs
unfolding delete_where
filter-delete_old now professional_id start end' [] = refl
filter-delete_old now professional_id start end' (x ∷ xs) =
    ground (arith, filter-delete_old now professional_id start end' xs)

length-delete_old :
    (now : ℕ) (xs : List PendingBooking)
    → length xs ≡ count (is_old now) xs + length (delete_where (is_old now) xs)
unfolding delete_where
length-delete_old now [] = refl
length-delete_old now (x ∷ xs) = ground (arith, length-delete_old now xs)

-- The clean-up always returns the number of holds that it removes, and frees or blocks no hour: every
-- query for the live holds of an hour gives what it gave before.
pub purge_expired_holds-pending_holds :
    (now : ℕ) (db : Db)
    → (n : ℕ) × (db' : Db) × (purge_expired_holds now db ≡ (ok n, db'))
      × (length db.pending_bookings ≡ n + length db'.pending_bookings)
      × ((professional_id start end' : ℕ)
          → pending_holds db' now professional_id start end'
            ≡ pending_holds db now professional_id start end')
unfolding purge_expired_holds
purge_expired_holds-pending_holds now db = (
  count (is_old now) db.pending_bookings,
  record db { pending_bookings = delete_where (is_old now) db.pending_bookings },
  refl,
  length-delete_old now db.pending_bookings,
  λ professional_id start end'.
      filter-delete_old now professional_id start end' db.pending_bookings,
)
