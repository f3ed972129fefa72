-- ===== src/WaitingRoom/Queue.antt =====
-- What the professional and the client do with a place in the queue, and walk-ins
-- (src/modules/appointments/appointments.service.ts).
use back_costa_turnos.Base.{
  ℕ, zero, suc, ◌+◌, ◌*◌, min, max, Bool, false, not, ◌&&◌, ◌||◌, Option, none, some, List, [], ◌∷◌,
  ltb, leb, if◌then◌else◌, ◌==◌, nat_coded, or_else, is_some, length, find?,
}
use back_costa_turnos.Base.Http.{bad_request, not_found, internal}
use back_costa_turnos.Enums.{
  AppointmentStatus, CreatedVia, CancellationReason, payment_method_coded, payment_option_coded,
  payment_status_coded, appointment_status_coded, created_via_coded,
}
use back_costa_turnos.Store.Rows.{Appointment, Membership}
use back_costa_turnos.Store.Table.{
  appointment_row, payment_row, pending_booking_row, professional_row,
}
use back_costa_turnos.Store.Db.{Action, pure, gets, ◌>>=◌, ◌>>◌, raise_if, or_raise}
use back_costa_turnos.WaitingRoom.{
  Day, find_by_id, find_by_token, mark_arrival, reset_queue, rank, ordered_queue_of, can_reorder,
}
use back_costa_turnos.Booking.{
  ClientRef, Slot, load_service, get_active_membership, is_assigned, resolve_person_id,
  ensure_professional_client, save_appointment, new_appointment,
}

unfoldable pub check_in : ℕ → Day → ℕ → ℕ → ℕ → Action Appointment
check_in now day token tenant_id id = do
  a ← find_by_id tenant_id id
  raise_if (a.status == AppointmentStatus.done || a.status == AppointmentStatus.cancelled)
      bad_request
  mark_arrival now day token a

unfoldable pub undo_check_in : ℕ → ℕ → Action Appointment
undo_check_in tenant_id id = do
  a ← find_by_id tenant_id id
  save_appointment (reset_queue a)
  pure (reset_queue a)

unfoldable pub call : ℕ → ℕ → ℕ → Action Appointment
call now tenant_id id = do
  a ← find_by_id tenant_id id
  raise_if (not (can_reorder a)) bad_request
  let saved = record a { called_at = some now; call_count = a.call_count + 1; away_until = none }
  save_appointment saved
  pure saved

abbrev pub max_rank : List Appointment → ℕ
max_rank [] = 0
max_rank (a ∷ as') = max (rank a) (max_rank as')

abbrev pub sent_back : ℕ → Appointment → Appointment
sent_back last a = record a {
  queue_rank = some (last + 1000);
  is_priority = false;
  called_at = none;
  away_until = none;
  notified_second_at = none;
  notified_next_at = none;
}

unfoldable pub send_to_back : Day → ℕ → ℕ → Action Appointment
send_to_back day tenant_id id = do
  a ← find_by_id tenant_id id
  raise_if (not (can_reorder a)) bad_request
  queue ← gets (ordered_queue_of day a)
  let saved = sent_back (max_rank queue) a
  save_appointment saved
  pure saved

-- `'up' | 'down'`
pub data Direction : Type 0 where
  up down : Direction

abbrev find_index_from : ℕ → ℕ → List Appointment → Option ℕ
find_index_from i id [] = none
find_index_from i id (a ∷ as') = if a.id == id then some i else find_index_from (i + 1) id as'

-- The place `j` to change with; none where it is outside the queue.
abbrev target : Direction → ℕ → ℕ → Option ℕ
target up zero n = none
target up (suc i) n = some i
target down i n = if ltb (i + 1) n then some (i + 1) else none

abbrev pub item_at : ℕ → List Appointment → Option Appointment
item_at i [] = none
item_at zero (a ∷ as') = some a
item_at (suc i) (a ∷ as') = item_at i as'

abbrev pub put_at : ℕ → Appointment → List Appointment → List Appointment
put_at i x [] = []
put_at zero x (a ∷ as') = x ∷ as'
put_at (suc i) x (a ∷ as') = a ∷ put_at i x as'

abbrev pub ranked_from : ℕ → List Appointment → List Appointment
ranked_from i [] = []
ranked_from i (a ∷ as') = record a { queue_rank = some ((i + 1) * 1000) } ∷ ranked_from (i + 1) as'

unfoldable pub save_queue : List Appointment → Action (Unit {0})
save_queue [] = pure tt
save_queue (a ∷ as') = do save_appointment a; save_queue as'

abbrev same_bool : Bool → Bool → Bool
same_bool b c = if b then c else not c

unfoldable pub swap_ranks : Appointment → List Appointment → ℕ → ℕ → Action Appointment
swap_ranks a queue i j = do
  x ← or_raise (item_at i queue) internal
  y ← or_raise (item_at j queue) internal
  raise_if (not (same_bool y.is_priority x.is_priority)) bad_request
  let moved = ranked_from 0 (put_at i y (put_at j x queue))
  save_queue moved
  pure (or_else (find? (λ q. q.id == a.id) moved) a)

-- At an end of the queue nothing moves.
unfoldable pub move_to : Appointment → List Appointment → ℕ → Option ℕ → Action Appointment
move_to a queue i none = pure a
move_to a queue i (some j) = swap_ranks a queue i j

unfoldable pub move_in_queue : Day → ℕ → ℕ → Direction → Action Appointment
move_in_queue day tenant_id id direction = do
  a ← find_by_id tenant_id id
  queue ← gets (ordered_queue_of day a)
  i ← or_raise (find_index_from 0 a.id queue) bad_request
  move_to a queue i (target direction i (length queue))

unfoldable pub set_priority : ℕ → ℕ → Bool → Action Appointment
set_priority tenant_id id priority = do
  a ← find_by_id tenant_id id
  raise_if (not (can_reorder a)) bad_request
  let saved = record a {
    is_priority = priority;
    notified_second_at = none;
    notified_next_at = none;
  }
  save_appointment saved
  pure saved

-- `TERMINAL_STATUSES`
abbrev pub is_terminal : AppointmentStatus → Bool
is_terminal s =
    s == AppointmentStatus.done
    || (s == AppointmentStatus.no_show || s == AppointmentStatus.cancelled)

abbrev pub is_scheduled : Appointment → Bool
is_scheduled a =
    not (a.created_via == CreatedVia.walk_in) && a.status == AppointmentStatus.confirmed

-- A scheduled appointment only leaves the queue; any other is cancelled. The result tells whether the
-- appointment was kept.
unfoldable pub leave_by_token : ℕ → Action Bool
leave_by_token token = do
  a ← find_by_token token
  raise_if (a.status == AppointmentStatus.in_progress) bad_request
  raise_if (is_terminal a.status) bad_request
  save_appointment (
      if is_scheduled a then reset_queue a else record a {
        status = AppointmentStatus.cancelled;
        cancellation_reason = some CancellationReason.client;
      })
  pure (is_scheduled a)

abbrev pub max_aways : ℕ
max_aways = 2

-- `minutes` is a whole number, which `Math.round` leaves as it is.
unfoldable pub set_away_by_token : ℕ → ℕ → ℕ → Action Appointment
set_away_by_token now token minutes = do
  a ← find_by_token token
  raise_if (not (can_reorder a)) bad_request
  raise_if (is_some a.called_at) bad_request
  raise_if (leb max_aways a.away_count) bad_request
  let mins = min 15 (max 1 minutes)
  let saved = record a { away_until = some (now + mins * 60000); away_count = a.away_count + 1 }
  save_appointment saved
  pure saved

unfoldable pub back_by_token : ℕ → Action Appointment
back_by_token token = do
  a ← find_by_token token
  let saved = record a { away_until = none }
  save_appointment saved
  pure saved

-- A client without an appointment: the queue orders them, the calendar is not asked.
unfoldable pub create_walk_in :
    ℕ → Day → ℕ → ℕ → ℕ → ℕ → Membership → ℕ → ℕ → ClientRef → Bool → Option ℕ → Action Appointment
create_walk_in now day token new_id person_key professional_id m staff_id service_id client
      needs_approval account_id =
    do
      service ← load_service service_id
      raise_if (not (service.comercio_id == m.comercio_id)) not_found
      assigned ← gets (is_assigned service.id m.id)
      raise_if (not assigned) not_found
      person_id ← resolve_person_id person_key client account_id
      let slot : Slot = record {
        professional_id = professional_id;
        comercio_id = m.comercio_id;
        membership_id = m.id;
        staff_id = staff_id;
        person_id = person_id;
        service_id = service.id;
        start_at = now;
        end_at = now + service.duration_minutes * 60000;
      }
      let status =
          if needs_approval then AppointmentStatus.requested else AppointmentStatus.confirmed
      let created = new_appointment new_id slot status false CreatedVia.walk_in
      save_appointment created
      saved ← mark_arrival now day token created
      ensure_professional_client professional_id person_id
      pure saved

unfoldable pub create_walk_in_for_tenant :
    ℕ → Day → ℕ → ℕ → ℕ → ℕ → ℕ → ℕ → ClientRef → Action Appointment
create_walk_in_for_tenant now day token new_id person_key tenant_id staff_id service_id client = do
  service ← load_service service_id
  m ← get_active_membership tenant_id service.comercio_id
  create_walk_in now day token new_id person_key tenant_id m staff_id service_id client false none
