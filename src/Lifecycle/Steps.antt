-- ===== src/Lifecycle/Steps.antt =====
-- The state machine of an appointment as a step relation, and the calls by their labels.
use back_costa_turnos.Base.{
  ℕ, ◌≡◌, refl, Bool, true, not, ◌&&◌, ◌||◌, Option, ◌==◌, nat_coded, find?,
}
use back_costa_turnos.Enums.{
  CashOutcome, AppointmentStatus, CancellationReason, payment_method_coded, payment_option_coded,
  payment_status_coded, appointment_status_coded, created_via_coded,
}
use back_costa_turnos.Store.Rows.{Appointment}
use back_costa_turnos.Store.Table.{
  appointment_row, payment_row, pending_booking_row, professional_row,
}
use back_costa_turnos.Store.Db.{Db, Action}
use Prim.Native.String.{String}
use back_costa_turnos.WaitingRoom.{Day}
use back_costa_turnos.Lifecycle.{confirm, start, complete, no_show, cancel}

pub data Label : Type 0 where
  confirming starting completing missing cancelling : Label

-- Which change of status a call makes. Marking an absence asks for no state; a cancellation asks for
-- one that is neither done nor cancelled.
pub data Step : Label → AppointmentStatus → AppointmentStatus → Type 0 where
  accepts : Step Label.confirming AppointmentStatus.requested AppointmentStatus.confirmed
  starts : Step Label.starting AppointmentStatus.confirmed AppointmentStatus.in_progress
  finishes : Step Label.completing AppointmentStatus.in_progress AppointmentStatus.done
  misses : (s : AppointmentStatus) → Step Label.missing s AppointmentStatus.no_show
  drops_request : Step Label.cancelling AppointmentStatus.requested AppointmentStatus.cancelled
  drops_confirmed : Step Label.cancelling AppointmentStatus.confirmed AppointmentStatus.cancelled
  drops_started : Step Label.cancelling AppointmentStatus.in_progress AppointmentStatus.cancelled
  drops_missed : Step Label.cancelling AppointmentStatus.no_show AppointmentStatus.cancelled

-- The arguments of the calls.
pub record Call : Type 0 where
  pub now : ℕ
  pub day : Day
  pub token : ℕ
  pub outcome : Option CashOutcome
  pub memo : Option String
  pub reason : CancellationReason

abbrev pub run : Label → Call → ℕ → ℕ → Action Appointment
run Label.confirming c tenant_id id = confirm tenant_id id
run Label.starting c tenant_id id = start c.now c.day c.token tenant_id id
run Label.completing c tenant_id id = complete c.now tenant_id id c.outcome c.memo
run Label.missing c tenant_id id = no_show tenant_id id
run Label.cancelling c tenant_id id = cancel tenant_id id c.reason

abbrev pub appointment_of : ℕ → ℕ → Db → Option Appointment
appointment_of tenant_id id db =
    find? (λ a. a.id == id && a.professional_id == tenant_id) db.appointments

abbrev pub allows : Label → AppointmentStatus → Bool
allows Label.confirming s = s == AppointmentStatus.requested
allows Label.starting s = s == AppointmentStatus.confirmed
allows Label.completing s = s == AppointmentStatus.in_progress
allows Label.missing s = true
allows Label.cancelling s = not (s == AppointmentStatus.done || s == AppointmentStatus.cancelled)

abbrev pub next : Label → AppointmentStatus
next Label.confirming = AppointmentStatus.confirmed
next Label.starting = AppointmentStatus.in_progress
next Label.completing = AppointmentStatus.done
next Label.missing = AppointmentStatus.no_show
next Label.cancelling = AppointmentStatus.cancelled

pub Step-allows : {l : Label} {s t : AppointmentStatus} → Step l s t → allows l s ≡ true
Step-allows accepts = refl
Step-allows starts = refl
Step-allows finishes = refl
Step-allows (misses s) = refl
Step-allows drops_request = refl
Step-allows drops_confirmed = refl
Step-allows drops_started = refl
Step-allows drops_missed = refl

pub allows-Step : (l : Label) (s : AppointmentStatus) → allows l s ≡ true → Step l s (next l)
allows-Step Label.confirming AppointmentStatus.requested h = accepts
allows-Step Label.confirming AppointmentStatus.confirmed h = absurd (cc)
allows-Step Label.confirming AppointmentStatus.in_progress h = absurd (cc)
allows-Step Label.confirming AppointmentStatus.done h = absurd (cc)
allows-Step Label.confirming AppointmentStatus.no_show h = absurd (cc)
allows-Step Label.confirming AppointmentStatus.cancelled h = absurd (cc)
allows-Step Label.starting AppointmentStatus.requested h = absurd (cc)
allows-Step Label.starting AppointmentStatus.confirmed h = starts
allows-Step Label.starting AppointmentStatus.in_progress h = absurd (cc)
allows-Step Label.starting AppointmentStatus.done h = absurd (cc)
allows-Step Label.starting AppointmentStatus.no_show h = absurd (cc)
allows-Step Label.starting AppointmentStatus.cancelled h = absurd (cc)
allows-Step Label.completing AppointmentStatus.requested h = absurd (cc)
allows-Step Label.completing AppointmentStatus.confirmed h = absurd (cc)
allows-Step Label.completing AppointmentStatus.in_progress h = finishes
allows-Step Label.completing AppointmentStatus.done h = absurd (cc)
allows-Step Label.completing AppointmentStatus.no_show h = absurd (cc)
allows-Step Label.completing AppointmentStatus.cancelled h = absurd (cc)
allows-Step Label.missing s h = misses s
allows-Step Label.cancelling AppointmentStatus.requested h = drops_request
allows-Step Label.cancelling AppointmentStatus.confirmed h = drops_confirmed
allows-Step Label.cancelling AppointmentStatus.in_progress h = drops_started
allows-Step Label.cancelling AppointmentStatus.done h = absurd (cc)
allows-Step Label.cancelling AppointmentStatus.no_show h = drops_missed
allows-Step Label.cancelling AppointmentStatus.cancelled h = absurd (cc)
