-- ===== src/Lifecycle.antt =====
-- The transitions of an appointment of src/modules/appointments/appointments.service.ts: `transition`
-- and the operations that give it a change. The web push and the broadcast of the room are left out.
pub mod Steps
pub mod Moves
pub mod Final
pub mod Writes
pub mod NewRows
pub mod Deposits
pub mod Terminal
use Prim.Native.String.{String}
use back_costa_turnos.Base.{
  ℕ, Bool, false, not, ◌&&◌, ◌||◌, Option, none, some, if◌then◌else◌, ◌==◌, nat_coded, find?,
}
use back_costa_turnos.Base.Http.{bad_request, Result, ok, err}
use back_costa_turnos.Enums.{
  CashOutcome, AppointmentStatus, CancellationReason, PaymentStatus, payment_method_coded,
  payment_option_coded, payment_status_coded, appointment_status_coded, created_via_coded,
}
use back_costa_turnos.Store.Rows.{Appointment, Payment}
use back_costa_turnos.Store.Table.{
  appointment_row, payment_row, pending_booking_row, professional_row,
}
use back_costa_turnos.Store.Db.{Action, pure, gets, query, ◌>>=◌, ◌>>◌, raise_if}
use back_costa_turnos.Booking.{save_appointment}
use back_costa_turnos.Payments.{is_off_system, save_payment}
use back_costa_turnos.WaitingRoom.{Day, find_by_id, mark_arrival}

unfoldable pub transition : ℕ → ℕ → (Appointment → Result Appointment) → Action Appointment
transition tenant_id id apply = do
  a ← find_by_id tenant_id id
  saved ← query (λ _. apply a)
  save_appointment saved
  pure saved

abbrev pub accepted : Appointment → Result Appointment
accepted a =
    if a.status == AppointmentStatus.requested
    then ok (record a { status = AppointmentStatus.confirmed })
    else err bad_request

unfoldable pub confirm : ℕ → ℕ → Action Appointment
confirm tenant_id id = transition tenant_id id accepted

abbrev pub started : ℕ → Appointment → Result Appointment
started now a = ok (record a {
  status = AppointmentStatus.in_progress;
  actual_start_at = some now;
  away_until = none;
})

-- Whoever is attended to is present: the arrival is marked first.
unfoldable pub start : ℕ → Day → ℕ → ℕ → ℕ → Action Appointment
start now day token tenant_id id = do
  a ← find_by_id tenant_id id
  raise_if (not (a.status == AppointmentStatus.confirmed)) bad_request
  mark_arrival now day token a
  transition tenant_id id (started now)

abbrev pub finished : ℕ → Appointment → Result Appointment
finished now a =
    if a.status == AppointmentStatus.in_progress
    then ok (record a { status = AppointmentStatus.done; completed_at = some now })
    else err bad_request

abbrev belongs_to : ℕ → Option ℕ → Bool
belongs_to id none = false
belongs_to id (some a) = a == id

abbrev pub cash_settled : ℕ → CashOutcome → Option String → Payment → Payment
cash_settled now CashOutcome.collected memo p = record p {
  status = PaymentStatus.paid;
  paid_at = some now;
}
cash_settled now CashOutcome.deferred memo p = record p {
  status = PaymentStatus.deferred;
  note = memo;
}

abbrev pub awaits_cash : ℕ → ℕ → Payment → Bool
awaits_cash tenant_id id p =
    p.professional_id == tenant_id
    && (belongs_to id p.appointment_id
        && (is_off_system p.method && p.status == PaymentStatus.pending))

unfoldable pub apply_cash_outcome : ℕ → ℕ → ℕ → CashOutcome → Option String → Action (Unit {0})
apply_cash_outcome now tenant_id id outcome memo = do
  payment ← gets (λ db. find? (awaits_cash tenant_id id) db.payments)
  elim payment [ none ↦ pure tt | some p ↦ save_payment (cash_settled now outcome memo p) ]

unfoldable pub complete : ℕ → ℕ → ℕ → Option CashOutcome → Option String → Action Appointment
complete now tenant_id id outcome memo = do
  saved ← transition tenant_id id (finished now)
  elim outcome [ none ↦ pure tt | some o ↦ apply_cash_outcome now tenant_id id o memo ]
  pure saved

abbrev pub missed : Appointment → Result Appointment
missed a = ok (record a {
  status = AppointmentStatus.no_show;
  cancellation_reason = some CancellationReason.no_show;
})

unfoldable pub no_show : ℕ → ℕ → Action Appointment
no_show tenant_id id = transition tenant_id id missed

abbrev pub called_off : CancellationReason → Appointment → Result Appointment
called_off reason a =
    if a.status == AppointmentStatus.done || a.status == AppointmentStatus.cancelled
    then err bad_request
    else ok (record a { status = AppointmentStatus.cancelled; cancellation_reason = some reason })

unfoldable pub cancel : ℕ → ℕ → CancellationReason → Action Appointment
cancel tenant_id id reason = transition tenant_id id (called_off reason)
