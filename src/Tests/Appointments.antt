-- ===== src/Tests/Appointments.antt =====
-- The appointments at a concrete agenda.
use back_costa_turnos.Base.Sort.{sort_by}
use back_costa_turnos.Base.{
  ℕ, ◌≤◌, ◌<◌, ◌≡◌, refl, ◌⊎◌, true, false, not, ◌&&◌, none, some, List, [], ◌∷◌, ◌++◌, arith, ◌==◌,
  nat_coded, is_some, filter, count,
}
use back_costa_turnos.Base.Http.{bad_request, conflict, internal, ok, err}
use back_costa_turnos.Enums.{
  AppointmentStatus, CreatedVia, CancellationReason, PaymentStatus, appointment_status_coded,
}
use back_costa_turnos.Store.Rows.{Appointment}
use back_costa_turnos.Store.Table.{find_key, appointment_row, payment_row, delete_where}
use back_costa_turnos.Store.Db.{Db}
use back_costa_turnos.Store.SaveEach.{Distinct}
use back_costa_turnos.Tests.{
  haircut, visit, expected, provisional, first_in, second_in, cash_payment, online_payment, agenda,
  slot, today, offline,
}
use back_costa_turnos.Booking.{NewIds, new_appointment}
use back_costa_turnos.Booking.Book.{BookDto, book}
use back_costa_turnos.Booking.Capacity.{FitsIn, HasRoom, reserve-FitsIn}
use back_costa_turnos.Booking.Book.{reserve}
use back_costa_turnos.Booking.Deposit.{plan_slot, open_checkout, Booked, drop_hold, on_error}
use back_costa_turnos.Booking.Bump.{SameService, firm, IsPlan, plan_slot-IsPlan}
use back_costa_turnos.Booking.Confirm.{confirm_paid_booking}
use back_costa_turnos.Booking.Holds.{confirm_paid_booking-idempotent}
use back_costa_turnos.Booking.Checkout.{open_checkout-releases}
use back_costa_turnos.Payments.{create_mercado_pago_preference}
use back_costa_turnos.Lifecycle.Steps.{Label, Step, Call, run}
use back_costa_turnos.Lifecycle.Moves.{Moved, run-Step}
use back_costa_turnos.Lifecycle.Terminal.{Write, Reaches, Reaches-IsFinal}
use back_costa_turnos.Lifecycle.Final.{IsFinal}
use back_costa_turnos.WaitingRoom.{mark_arrival, ordered_queue_of, goes_after, in_queue_of}
use back_costa_turnos.WaitingRoom.Queue.{send_to_back}
use back_costa_turnos.WaitingRoom.Tickets.{TicketsUnique, mark_arrival-TicketsUnique}
use back_costa_turnos.WaitingRoom.Order.{send_to_back-last}
use back_costa_turnos.WaitingRoom.Eta.{room_queue, IsRoom, room_queue-places}
use back_costa_turnos.Base.{Bool, true, false, ◌↔◌, inr}
use back_costa_turnos.Store.Table.{save}
use back_costa_turnos.WaitingRoom.{find_by_token}
use back_costa_turnos.WaitingRoom.Queue.{set_away_by_token, leave_by_token}
use back_costa_turnos.WaitingRoom.Client.{
  IsBooked, MayLeaveAWhile, IsAbsence, set_away_by_token-IsAbsence, leave_by_token-keeps,
}
use back_costa_turnos.Base.{ℕ, ◌+◌, length}
use back_costa_turnos.Booking.{pending_holds}
use back_costa_turnos.Booking.Confirm.{purge_expired_holds}
use back_costa_turnos.Booking.Purge.{purge_expired_holds-pending_holds}

abbrev a_call : Call
a_call = record {
  now = 960000;
  day = today;
  token = 9;
  outcome = none;
  memo = none;
  reason = CancellationReason.client;
}

abbrev one : Db
one = agenda (expected ∷ [])

run-Step_example :
    Moved 1 30 expected one refl Label.starting a_call
    ⊎ ((run Label.starting a_call 1 30 one ≡ (err bad_request, one))
        × ((s : AppointmentStatus) → ¬ Step Label.starting expected.status s))
run-Step_example = run-Step 1 30 expected one refl Label.starting a_call

abbrev finished : Appointment
finished = visit 30 AppointmentStatus.done false none none

ended : IsFinal 30 (agenda (finished ∷ []))
unfolding find_key
ended = record { is_there = refl; ended = (λ e. refl, tt) }

abbrev ids : NewIds
ids = record { appointment = 70; payment = 71; pending = 72; person = 73 }

abbrev known_visit : BookDto
known_visit = record {
  service_id = 7;
  start_at = 2_000_000;
  staff_id = 6;
  client = record { person_id = some 20; full_name = none; email = none; phone = none };
  addon_service_ids = [];
}

-- It is marked as missed, and another visit is booked.
abbrev after_two : Db
after_two =
    (book 960000 ids 1 known_visit CreatedVia.professional none
      (run Label.missing a_call 1 30 (agenda (finished ∷ []))).1).1

Reaches-IsFinal_example : IsFinal 30 after_two
Reaches-IsFinal_example =
    Reaches-IsFinal offline 30
      (Reaches.after (Reaches.after Reaches.here (Write.moves Label.missing a_call 1 30))
        (Write.books 960000 ids 1 known_visit CreatedVia.professional none (omega arith)))
      ended

-- The hold is over at 960000, so one of the two places is free.
reserve-FitsIn_example :
    (HasRoom 960000 haircut slot one
      × ((db' : Db) × (reserve 960000 70 haircut slot true CreatedVia.client_self [] one ≡ (
        ok (new_appointment 70 slot AppointmentStatus.confirmed true CreatedVia.client_self),
        db',
      ))
          × FitsIn db' 960000 slot haircut))
    ⊎ (¬ HasRoom 960000 haircut slot one
        × (reserve 960000 70 haircut slot true CreatedVia.client_self [] one ≡ (err conflict, one)))
reserve-FitsIn_example =
    reserve-FitsIn 960000 haircut slot 70 true CreatedVia.client_self [] one refl

plan_slot-IsPlan_example :
    ((plan_slot haircut (expected ∷ provisional ∷ []) [] ≡ err conflict)
      × (SameService haircut (expected ∷ provisional ∷ []) []
          → haircut.capacity ≤ firm haircut (expected ∷ provisional ∷ []) []))
    ⊎ (SameService haircut (expected ∷ provisional ∷ []) []
        × (firm haircut (expected ∷ provisional ∷ []) [] < haircut.capacity)
        × ((gone : List Appointment) × (plan_slot haircut (expected ∷ provisional ∷ []) []
              ≡ ok gone)
            × IsPlan haircut (expected ∷ provisional ∷ []) [] gone))
plan_slot-IsPlan_example = plan_slot-IsPlan haircut (expected ∷ provisional ∷ []) []

payment_known : is_some (find_key 41 one.payments) ≡ true
unfolding find_key
payment_known = refl

confirm_paid_booking-idempotent_example :
    (db' : Db) × (confirm_paid_booking 70 online_payment one ≡ (ok tt, db'))
    × ((again_id : ℕ) → confirm_paid_booking again_id online_payment db' ≡ (ok tt, db'))
confirm_paid_booking-idempotent_example =
    confirm_paid_booking-idempotent 70 online_payment one payment_known

purge_expired_holds-pending_holds_example :
    (n : ℕ) × (db' : Db) × (purge_expired_holds 9000000 one ≡ (ok n, db'))
    × (length one.pending_bookings ≡ n + length db'.pending_bookings)
    × ((professional_id start end' : ℕ)
        → pending_holds db' 9000000 professional_id start end'
          ≡ pending_holds one 9000000 professional_id start end')
purge_expired_holds-pending_holds_example = purge_expired_holds-pending_holds 9000000 one

abbrev checkout : Booked
checkout = record {
  appointment = none;
  payment = record online_payment { status = PaymentStatus.pending };
  mp_init_point = none;
}

abbrev before_checkout : Db
before_checkout = record one { payments = cash_payment ∷ checkout.payment ∷ [] }

abbrev after_checkout : Db
after_checkout = record one { payments = cash_payment ∷ []; pending_bookings = [] }

checkout_fails :
    open_checkout offline 960000 1 checkout before_checkout ≡ (err internal, after_checkout)
unfolding open_checkout on_error create_mercado_pago_preference drop_hold delete_where find_key
checkout_fails = refl

open_checkout-releases_example :
    (count (λ p. p.payment_id == checkout.payment.id) after_checkout.pending_bookings ≡ 0)
    × (count (λ p. p.id == checkout.payment.id) after_checkout.payments ≡ 0)
open_checkout-releases_example =
    open_checkout-releases offline 960000 1 checkout before_checkout after_checkout internal
      checkout_fails

abbrev queue : Db
queue = agenda (first_in ∷ second_in ∷ expected ∷ [])

queue-TicketsUnique : (staff_id : ℕ) → TicketsUnique staff_id today queue
queue-TicketsUnique staff_id n h = ground arith

expected_stored : find_key 30 queue.appointments ≡ some expected
unfolding find_key
expected_stored = refl

mark_arrival-TicketsUnique_example :
    (b : Appointment) × (db' : Db) × (mark_arrival 960000 today 9 expected queue ≡ (ok b, db'))
    × (is_some b.checked_in_at ≡ true)
    × ((staff_id : ℕ) → TicketsUnique staff_id today db')
mark_arrival-TicketsUnique_example =
    mark_arrival-TicketsUnique 960000 today 9 expected queue expected_stored (omega arith)
      (omega arith) queue-TicketsUnique

first_stored : find_key 32 queue.appointments ≡ some first_in
unfolding find_key
first_stored = refl

queue-Distinct : Distinct queue.appointments
queue-Distinct = ground arith

send_to_back-last_example :
    (b : Appointment) × (db' : Db) × (send_to_back today 1 32 queue ≡ (ok b, db'))
    × (b.id ≡ 32)
    × (b.ticket_number ≡ first_in.ticket_number)
    × (ordered_queue_of today b db'
        ≡ sort_by goes_after (
            filter
              (λ x. in_queue_of today first_in x && not (x.id == first_in.id))
              queue.appointments)
          ++ b ∷ [])
send_to_back-last_example =
    send_to_back-last today 1 32 first_in queue first_stored refl refl refl queue-Distinct

-- Somebody in the queue with a personal link.
abbrev linked : Appointment
linked = record first_in { public_token = some 9 }

abbrev linked_db : Db
linked_db = agenda (linked ∷ [])

linked_found : find_by_token 9 linked_db ≡ (ok linked, linked_db)
unfolding find_by_token
linked_found = refl

set_away_by_token-IsAbsence_example :
    (MayLeaveAWhile 9 linked linked_db linked_found
      → (b : Appointment) × (set_away_by_token 960000 9 10 linked_db
          ≡ (ok b, record linked_db { appointments = save b linked_db.appointments }))
        × IsAbsence 9 linked linked_db linked_found 960000 b)
    × (¬ MayLeaveAWhile 9 linked linked_db linked_found
        → set_away_by_token 960000 9 10 linked_db ≡ (err bad_request, linked_db))
set_away_by_token-IsAbsence_example =
    set_away_by_token-IsAbsence 9 linked linked_db linked_found 960000 10

leave_by_token-keeps_example :
    (kept : Bool) × (b : Appointment) × (leave_by_token 9 linked_db
      ≡ (ok kept, record linked_db { appointments = save b linked_db.appointments }))
    × (kept ≡ true ↔ IsBooked 9 linked linked_db linked_found)
    × (kept ≡ true
        → (b.status ≡ AppointmentStatus.confirmed)
          × (b.checked_in_at ≡ none)
          × (b.ticket_number ≡ none)
          × (b.start_at ≡ linked.start_at))
    × (kept ≡ false
        → (b.status ≡ AppointmentStatus.cancelled)
          × (b.cancellation_reason ≡ some CancellationReason.client))
leave_by_token-keeps_example = leave_by_token-keeps 9 linked linked_db linked_found (inr refl)

abbrev minutes : Appointment → ℕ
minutes a = 30

room_queue-places_example :
    IsRoom 960000 minutes
      (first_in ∷ second_in ∷ [])
      (room_queue 960000 minutes (first_in ∷ second_in ∷ []))
room_queue-places_example = room_queue-places 960000 minutes (first_in ∷ second_in ∷ [])
