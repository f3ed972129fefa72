-- ===== src/Lifecycle/Moves.antt =====
-- The operations of an appointment (src/modules/appointments/appointments.service.ts), call by call,
-- against its state machine.
use back_costa_turnos.Base.{
  ℕ, ◌+◌, ◌≡◌, refl, sym, ◌∙◌, subst, ◌⊎◌, inl, inr, true, false, ◌&&◌, Option, none, some, List,
  [], ◌∷◌, arith, ◌==◌, nat_coded, Bool-cases, Option-cases, is_some, filter, find?,
}
use back_costa_turnos.Base.Http.{HttpError, bad_request, Result, ok, err}
use back_costa_turnos.Enums.{
  CashOutcome, AppointmentStatus, CancellationReason, payment_method_coded, payment_option_coded,
  payment_status_coded, appointment_status_coded, created_via_coded,
}
use back_costa_turnos.Store.Rows.{Appointment}
use back_costa_turnos.Store.Table.{
  save, appointment_row, payment_row, pending_booking_row, professional_row,
}
use back_costa_turnos.Store.Db.{Db, Action, pure, ◌>>=◌}
use back_costa_turnos.Booking.Capacity.{case_clash}
use Prim.Native.String.{String}
use back_costa_turnos.Booking.{save_appointment}
use back_costa_turnos.Payments.{save_payment}
use back_costa_turnos.WaitingRoom.{
  Day, find_by_id, mark_arrival, max_ticket, arrived, arrived_today,
}
use back_costa_turnos.Lifecycle.{
  transition, accepted, started, finished, missed, called_off, cash_settled, awaits_cash,
  apply_cash_outcome, confirm, start, complete, no_show, cancel,
}
use back_costa_turnos.Lifecycle.Steps.{
  Label, Step, Call, run, appointment_of, allows, next, Step-allows, allows-Step,
}

find_found :
    (tenant_id id : ℕ) (a : Appointment) (db : Db)
    → appointment_of tenant_id id db ≡ some a
    → find_by_id tenant_id id db ≡ (ok a, db)
unfolding find_by_id
find_found tenant_id id a db e = rw e refl

-- What is saved under its key is what the next read of that key returns.
find?-save :
    (tenant_id id : ℕ) (a : Appointment) (xs : List Appointment)
    → a.id ≡ id
    → a.professional_id ≡ tenant_id
    → find? (λ x. x.id == id && x.professional_id == tenant_id) (save a xs) ≡ some a
unfolding save
find?-save tenant_id id a [] h k = ground arith
find?-save tenant_id id a (x ∷ xs) h k = ground (arith, find?-save tenant_id id a xs h k)

find?-key :
    (tenant_id id : ℕ) (a : Appointment) (xs : List Appointment)
    → find? (λ x. x.id == id && x.professional_id == tenant_id) xs ≡ some a
    → (a.id ≡ id) × (a.professional_id ≡ tenant_id)
find?-key tenant_id id a [] e = absurd (cc)
find?-key tenant_id id a (x ∷ xs) e = ground (arith, find?-key tenant_id id a xs)

abbrev put : Appointment → Db → Db
put a db = record db { appointments = save a db.appointments }

module _ (tenant_id id : ℕ) (a : Appointment) (db : Db)
    (found : appointment_of tenant_id id db ≡ some a) where
  transition_ok :
      (apply : Appointment → Result Appointment) (b : Appointment)
      → apply a ≡ ok b
      → transition tenant_id id apply db ≡ (ok b, put b db)
  unfolding transition save_appointment
  transition_ok apply b e = simp (find_found tenant_id id a db found, e, ◌>>=◌)

  transition_err :
      (apply : Appointment → Result Appointment) (c : HttpError)
      → apply a ≡ err c
      → transition tenant_id id apply db ≡ (err c, db)
  unfolding transition
  transition_err apply c e = simp (find_found tenant_id id a db found, e, ◌>>=◌)

  arrive :
      (now : ℕ) (day : Day) (token : ℕ)
      → (b : Appointment) × (db' : Db) × (mark_arrival now day token a db ≡ (ok b, db'))
        × (appointment_of tenant_id id db' ≡ some b)
        × (b.status ≡ a.status)
        × (b.id ≡ a.id)
        × (b.professional_id ≡ a.professional_id)
  unfolding mark_arrival save_appointment
  arrive now day token = elim (Bool-cases (is_some a.checked_in_at)) [
    | inl e ↦ (a, db, rw e refl, found, refl, refl, refl)
    | inr e ↦
        let (e1, e2) = find?-key tenant_id id a db.appointments found in
        let b =
          arrived now (max_ticket (filter (arrived_today a.staff_id day) db.appointments) + 1) token
            a in
        (b, put b db, rw e refl, find?-save tenant_id id b db.appointments e1 e2, refl, refl, refl)
  ]

  start_ok :
      (now : ℕ) (day : Day) (token : ℕ) (b r : Appointment) (db1 db2 : Db)
      → (a.status == AppointmentStatus.confirmed) ≡ true
      → mark_arrival now day token a db ≡ (ok b, db1)
      → transition tenant_id id (started now) db1 ≡ (ok r, db2)
      → start now day token tenant_id id db ≡ (ok r, db2)
  unfolding start
  start_ok now day token b r db1 db2 h e k =
      ground (arith, find_found tenant_id id a db found, h, e, k)

settle :
    (now tenant_id id : ℕ) (outcome : Option CashOutcome) (memo : Option String) (db : Db)
    → (db' : Db) × (elim outcome as (λ _. Action (Unit {0})) [
      | none ↦ pure tt
      | some o ↦ apply_cash_outcome now tenant_id id o memo
    ]
          db
        ≡ (ok tt, db'))
      × (db'.appointments ≡ db.appointments)
unfolding apply_cash_outcome save_payment
settle now tenant_id id none memo db = (db, refl, refl)
settle now tenant_id id (some o) memo db =
    elim (Option-cases (find? (awaits_cash tenant_id id) db.payments)) [
      | inl e ↦ (db, ground arith, refl)
      | inr (p, e) ↦ (
        record db { payments = save (cash_settled now o memo p) db.payments },
        ground arith,
        refl,
      )
    ]

module _ (tenant_id id : ℕ) (a : Appointment) (db : Db)
    (found : appointment_of tenant_id id db ≡ some a) where
  -- What a call does to the appointment.
  pub record Moved (l : Label) (c : Call) : Type 0 where
    pub result : Appointment
    pub tables : Db
    pub returns : run l c tenant_id id db ≡ (ok result, tables)
    pub step : Step l a.status result.status
    pub stored : appointment_of tenant_id id tables ≡ some result

  moved :
      (l : Label) (c : Call) (b : Appointment) (db' : Db)
      → run l c tenant_id id db ≡ (ok b, db')
      → allows l a.status ≡ true
      → b.status ≡ next l
      → appointment_of tenant_id id db' ≡ some b
      → Moved l c
  moved l c b db' e h k st = record {
    result = b;
    tables = db';
    returns = e;
    step = subst (Step l a.status) (sym k) (allows-Step l a.status h);
    stored = st;
  }

  put-stored :
      (b : Appointment)
      → b.id ≡ a.id
      → b.professional_id ≡ a.professional_id
      → appointment_of tenant_id id (put b db) ≡ some b
  put-stored b h k =
      let (e1, e2) = find?-key tenant_id id a db.appointments found in
      find?-save tenant_id id b db.appointments (h ∙ e1) (k ∙ e2)

  run-allowed : (l : Label) (c : Call) → allows l a.status ≡ true → Moved l c
  unfolding confirm start complete no_show cancel
  run-allowed Label.confirming c h =
      let b = record a { status = AppointmentStatus.confirmed } in
      moved Label.confirming c b (put b db)
        (transition_ok tenant_id id a db found accepted b (rw h refl)) h refl
        (put-stored b refl refl)
  run-allowed Label.starting c h =
      let (b, db1, e, found1, st, k1, k2) = arrive tenant_id id a db found c.now c.day c.token in
      let r = record b {
        status = AppointmentStatus.in_progress;
        actual_start_at = some c.now;
        away_until = none;
      } in
      let (e1, e2) = find?-key tenant_id id b db1.appointments found1 in
      moved Label.starting c r (put r db1)
        (start_ok tenant_id id a db found c.now c.day c.token b r db1 (put r db1) h e
          (transition_ok tenant_id id b db1 found1 (started c.now) r refl))
        h refl (find?-save tenant_id id r db1.appointments e1 e2)
  run-allowed Label.completing c h =
      let b = record a { status = AppointmentStatus.done; completed_at = some c.now } in
      let (db', e, same) = settle c.now tenant_id id c.outcome c.memo (put b db) in
      moved Label.completing c b db'
        (simp (transition_ok tenant_id id a db found (finished c.now) b (rw h refl), e, ◌>>=◌)) h
        refl (rw same (put-stored b refl refl))
  run-allowed Label.missing c h =
      let b = record a {
        status = AppointmentStatus.no_show;
        cancellation_reason = some CancellationReason.no_show;
      } in
      moved Label.missing c b (put b db) (transition_ok tenant_id id a db found missed b refl) h
        refl (put-stored b refl refl)
  run-allowed Label.cancelling c h =
      let b = record a {
        status = AppointmentStatus.cancelled;
        cancellation_reason = some c.reason;
      } in
      moved Label.cancelling c b (put b db)
        (transition_ok tenant_id id a db found (called_off c.reason) b (ground arith)) h refl
        (put-stored b refl refl)

  run-refused :
      (l : Label) (c : Call)
      → allows l a.status ≡ false
      → run l c tenant_id id db ≡ (err bad_request, db)
  unfolding confirm start complete no_show cancel
  run-refused Label.confirming c h =
      transition_err tenant_id id a db found accepted bad_request (rw h refl)
  run-refused Label.starting c h = simp (find_found tenant_id id a db found, h, ◌>>=◌)
  run-refused Label.completing c h =
      simp (transition_err tenant_id id a db found (finished c.now) bad_request (rw h refl), ◌>>=◌)
  run-refused Label.missing c h = absurd (cc)
  run-refused Label.cancelling c h =
      transition_err tenant_id id a db found (called_off c.reason) bad_request (ground arith)

  -- Every call on a stored appointment moves it along the state machine or refuses it: where a step from its
  -- status exists the call returns, makes that step and the stored row is the result; where none
  -- exists it throws a bad request and writes nothing.
  pub run-Step :
      (l : Label) (c : Call)
      → Moved l c
        ⊎ ((run l c tenant_id id db ≡ (err bad_request, db))
            × ((s : AppointmentStatus) → ¬ Step l a.status s))
  run-Step l c = elim (Bool-cases (allows l a.status)) [
    | inl e ↦ inl (run-allowed l c e)
    | inr e ↦ inr (run-refused l c e, λ s step. case_clash (sym (Step-allows step) ∙ e))
  ]
