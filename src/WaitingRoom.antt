-- ===== src/WaitingRoom.antt =====
-- The waiting room of src/modules/appointments/appointments.service.ts: the arrival, which gives the
-- number of the day, and the order of the queue. The bounds of the professional's day are computed by
-- luxon and are an argument; the random token of the personal link is one too.
pub mod Queue
pub mod Tickets
pub mod Order
pub mod Client
pub mod Turns
pub mod Eta
use back_costa_turnos.Base.Sort.{sort_by}
use back_costa_turnos.Base.{
  ℕ, ◌+◌, max, Bool, false, ◌&&◌, ◌||◌, Option, none, some, List, [], ◌∷◌, ltb, leb, if◌then◌else◌,
  ◌==◌, nat_coded, or_else, is_some, filter, find?,
}
use back_costa_turnos.Base.Http.{not_found}
use back_costa_turnos.Enums.{
  AppointmentStatus, payment_method_coded, payment_option_coded, payment_status_coded,
  appointment_status_coded, created_via_coded,
}
use back_costa_turnos.Store.Rows.{Appointment}
use back_costa_turnos.Store.Table.{
  appointment_row, payment_row, pending_booking_row, professional_row,
}
use back_costa_turnos.Store.Db.{Db, Action, pure, gets, ◌>>=◌, ◌>>◌, or_raise}
use back_costa_turnos.Booking.{save_appointment}

pub record Day : Type 0 where
  pub start : ℕ
  pub end_of : ℕ

-- `checkedInAt: Between(start, end)`
abbrev pub is_today : Day → Option ℕ → Bool
is_today day none = false
is_today day (some at) = leb day.start at && leb at day.end_of

unfoldable pub find_by_id : ℕ → ℕ → Action Appointment
find_by_id tenant_id id = do
  or_raise
      (← gets (λ db. find? (λ a. a.id == id && a.professional_id == tenant_id) db.appointments))
      not_found

abbrev pub has_token : ℕ → Option ℕ → Bool
has_token token none = false
has_token token (some t) = t == token

unfoldable pub find_by_token : ℕ → Action Appointment
find_by_token token = do
  or_raise (← gets (λ db. find? (λ a. has_token token a.public_token) db.appointments)) not_found

-- `SELECT MAX(a.ticket_number)`, 0 where there is none.
abbrev pub max_ticket : List Appointment → ℕ
max_ticket [] = 0
max_ticket (a ∷ as') = max (or_else a.ticket_number 0) (max_ticket as')

abbrev pub arrived_today : ℕ → Day → Appointment → Bool
arrived_today staff_id day a = a.staff_id == staff_id && is_today day a.checked_in_at

abbrev pub arrived : ℕ → ℕ → ℕ → Appointment → Appointment
arrived now ticket token a = record a {
  checked_in_at = some now;
  ticket_number = some ticket;
  queue_rank = some now;
  public_token = some (or_else a.public_token token);
}

-- The arrival is recorded once; under the lock of the staff member the number is the next of the day.
unfoldable pub mark_arrival : ℕ → Day → ℕ → Appointment → Action Appointment
mark_arrival now day token a = if is_some a.checked_in_at then pure a else do
  last ← gets (λ db. max_ticket (filter (arrived_today a.staff_id day) db.appointments))
  let saved = arrived now (last + 1) token a
  save_appointment saved
  pure saved

-- `resetQueueState`
abbrev pub reset_queue : Appointment → Appointment
reset_queue a = record a {
  checked_in_at = none;
  ticket_number = none;
  queue_rank = none;
  is_priority = false;
  called_at = none;
  call_count = 0;
  away_until = none;
  notified_second_at = none;
  notified_next_at = none;
}

abbrev pub rank : Appointment → ℕ
rank a = or_else a.queue_rank (or_else a.checked_in_at 0)

-- `byQueueOrder(a, b) > 0`: priority first, then the rank, then the number.
unfoldable pub goes_after : Appointment → Appointment → Bool
goes_after a b =
    if a.is_priority
    then b.is_priority
      && (ltb (rank b) (rank a)
          || rank a == rank b && ltb (or_else b.ticket_number 0) (or_else a.ticket_number 0))
    else b.is_priority
      || (ltb (rank b) (rank a)
          || rank a == rank b && ltb (or_else b.ticket_number 0) (or_else a.ticket_number 0))

abbrev pub in_queue_of : Day → Appointment → Appointment → Bool
in_queue_of day ref a =
    a.professional_id == ref.professional_id
    && (a.staff_id == ref.staff_id
        && (a.comercio_id == ref.comercio_id
            && (a.status == AppointmentStatus.confirmed && is_today day a.checked_in_at)))

unfoldable pub ordered_queue_of : Day → Appointment → Db → List Appointment
ordered_queue_of day ref db = sort_by goes_after (filter (in_queue_of day ref) db.appointments)

-- Present and confirmed: who can be called, sent to the back or marked as urgent.
abbrev pub can_reorder : Appointment → Bool
can_reorder a = a.status == AppointmentStatus.confirmed && is_some a.checked_in_at
