-- ===== src/WaitingRoom/Tickets.antt =====
-- The numbers of the day that `markArrival` (src/modules/appointments/appointments.service.ts) gives.
use back_costa_turnos.Base.{
  ℕ, ◌+◌, ◌≤◌, ◌<◌, ◌≡◌, refl, inl, inr, Bool, true, false, ◌&&◌, some, List, [], ◌∷◌, arith, ◌==◌,
  nat_coded, Bool-cases, Option-cases, or_else, is_some, filter, count,
}
use back_costa_turnos.Base.Http.{ok}
use back_costa_turnos.Enums.{
  payment_method_coded, payment_option_coded, payment_status_coded, appointment_status_coded,
  created_via_coded,
}
use back_costa_turnos.Store.Rows.{Appointment}
use back_costa_turnos.Store.Table.{
  save, find_key, appointment_row, payment_row, pending_booking_row, professional_row,
}
use back_costa_turnos.Store.Db.{Db}
use back_costa_turnos.Store.TableLaws.{count-save}
use back_costa_turnos.Booking.{save_appointment}
use back_costa_turnos.WaitingRoom.{Day, max_ticket, arrived_today, arrived, mark_arrival}

-- `a` arrived on the day at that staff member and holds the number.
abbrev pub has_ticket : ℕ → Day → ℕ → Appointment → Bool
has_ticket staff_id day n a = arrived_today staff_id day a && or_else a.ticket_number 0 == n

-- At most one appointment holds each number from 1 on.
abbrev pub TicketsUnique : ℕ → Day → Db → Type 0
TicketsUnique staff_id day db =
    (n : ℕ) → 1 ≤ n → count (has_ticket staff_id day n) db.appointments ≤ 1

no_ticket_above :
    (staff_id n : ℕ) (day : Day) (xs : List Appointment)
    → max_ticket (filter (arrived_today staff_id day) xs) < n
    → count (has_ticket staff_id day n) xs ≡ 0
no_ticket_above staff_id n day [] h = refl
no_ticket_above staff_id n day (x ∷ xs) h = elim (Bool-cases (arrived_today staff_id day x)) [
  | inl e ↦ ground (arith, e, no_ticket_above staff_id n day xs)
  | inr e ↦ ground (arith, e, no_ticket_above staff_id n day xs)
]

not_arrived :
    (staff_id n : ℕ) (day : Day) (a : Appointment)
    → is_some a.checked_in_at ≡ false
    → has_ticket staff_id day n a ≡ false
not_arrived staff_id n day a h = elim (Option-cases a.checked_in_at) [
  | inl e ↦ ground (arith, e)
  | inr (t, e) ↦ absurd (cc)
]

next_ticket_unique :
    (staff_id n : ℕ) (day : Day) (a b : Appointment) (xs : List Appointment)
    → find_key a.id xs ≡ some a
    → is_some a.checked_in_at ≡ false
    → b.id ≡ a.id
    → b.staff_id ≡ a.staff_id
    → b.ticket_number ≡ some (max_ticket (filter (arrived_today a.staff_id day) xs) + 1)
    → count (has_ticket staff_id day n) xs ≤ 1
    → count (has_ticket staff_id day n) (save b xs) ≤ 1
next_ticket_unique staff_id n day a b xs found away same_id same_staff next unique =
    let step = count-save (has_ticket staff_id day n) a b xs (rw same_id found) in
    let before = not_arrived staff_id n day a away in
    elim (Bool-cases (has_ticket staff_id day n b)) [
      | inl e ↦
          let same : staff_id ≡ a.staff_id = ground arith in
          let number : n ≡ max_ticket (filter (arrived_today a.staff_id day) xs) + 1 =
            ground (arith, next) in
          let none_yet = no_ticket_above a.staff_id n day xs (ground arith) in
          let none_here : count (has_ticket staff_id day n) xs ≡ 0 = rw same none_yet in
          ground (arith, step, before, e, none_here)
      | inr e ↦ ground (arith, step, before)
    ]

-- `markArrival` of an appointment of the table, within the day, never throws and gives a present
-- appointment; where no two arrivals of the day share a number at a staff member, none do afterwards.
pub mark_arrival-TicketsUnique :
    (now : ℕ) (day : Day) (token : ℕ) (a : Appointment) (db : Db)
    → find_key a.id db.appointments ≡ some a
    → day.start ≤ now
    → now ≤ day.end_of
    → ((staff_id : ℕ) → TicketsUnique staff_id day db)
    → (b : Appointment) × (db' : Db) × (mark_arrival now day token a db ≡ (ok b, db'))
      × (is_some b.checked_in_at ≡ true)
      × ((staff_id : ℕ) → TicketsUnique staff_id day db')
unfolding mark_arrival save_appointment
mark_arrival-TicketsUnique now day token a db found h1 h2 unique =
    elim (Bool-cases (is_some a.checked_in_at)) [
      | inl e ↦ (a, db, rw e refl, e, unique)
      | inr e ↦
          let b =
            arrived now (max_ticket (filter (arrived_today a.staff_id day) db.appointments) + 1)
              token a in
          (
            b,
            record db { appointments = save b db.appointments },
            rw e refl,
            refl,
            λ staff_id n pos.
                next_ticket_unique staff_id n day a b db.appointments found e refl refl refl
                  (unique staff_id n pos),
          )
    ]
