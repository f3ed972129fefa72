-- ===== src/WaitingRoom/Client.antt =====
-- What a client can do from the personal link (src/modules/appointments/appointments.service.ts): be
-- away for a while, or leave.
use back_costa_turnos.Base.{
  ℕ, ◌+◌, ◌*◌, ◌≤◌, ◌<◌, min, max, ◌≡◌, refl, sym, ◌∙◌, ◌≢◌, ◌↔◌, ◌==◌, ◌⊎◌, inl, inr, Bool, true,
  false, none, some, arith, leb, nat_coded, Bool-cases, is_some,
}
use back_costa_turnos.Base.Http.{bad_request, ok, err}
use back_costa_turnos.Enums.{
  AppointmentStatus, CreatedVia, CancellationReason, payment_method_coded, payment_option_coded,
  payment_status_coded, appointment_status_coded, created_via_coded,
}
use back_costa_turnos.Store.Rows.{Appointment}
use back_costa_turnos.Store.Table.{
  save, appointment_row, payment_row, pending_booking_row, professional_row,
}
use back_costa_turnos.Store.Db.{Db}
use back_costa_turnos.Booking.{save_appointment}
use back_costa_turnos.Booking.Capacity.{case_clash}
use back_costa_turnos.WaitingRoom.{find_by_token, reset_queue, can_reorder}
use back_costa_turnos.WaitingRoom.Queue.{is_scheduled, leave_by_token, max_aways, set_away_by_token}

module _ (token : ℕ) (a : Appointment) (db : Db) (found : find_by_token token db ≡ (ok a, db)) where
  -- The absence that is granted: one of at most two, from one to fifteen minutes long, with the place and
  -- the number kept.
  pub record IsAbsence (now : ℕ) (b : Appointment) : Type 0 where
    pub until : ℕ
    pub away_until : b.away_until ≡ some until
    pub at_least : now + 60000 ≤ until
    pub at_most : until ≤ now + 15 * 60000
    pub counted : b.away_count ≡ a.away_count + 1
    pub within : b.away_count ≤ max_aways
    pub same_rank : b.queue_rank ≡ a.queue_rank
    pub same_number : b.ticket_number ≡ a.ticket_number

  abbrev pub MayLeaveAWhile : Type 0
  MayLeaveAWhile =
      (can_reorder a ≡ true) × (is_some a.called_at ≡ false) × (a.away_count < max_aways)

  abbrev away : ℕ → ℕ → Appointment
  away now minutes = record a {
    away_until = some (now + min 15 (max 1 minutes) * 60000);
    away_count = a.away_count + 1;
  }

  set_away_ok :
      (now minutes : ℕ)
      → MayLeaveAWhile
      → set_away_by_token now token minutes db ≡ (
        ok (away now minutes),
        record db { appointments = save (away now minutes) db.appointments },
      )
  unfolding set_away_by_token save_appointment
  set_away_ok now minutes h = ground (arith, found, h.0, h.1, h.2)

  set_away_err :
      (now minutes : ℕ)
      → ¬ MayLeaveAWhile
      → set_away_by_token now token minutes db ≡ (err bad_request, db)
  unfolding set_away_by_token
  set_away_err now minutes n = elim (Bool-cases (can_reorder a)) [
    | inr e ↦ ground (arith, found, e)
    | inl e ↦ elim (Bool-cases (is_some a.called_at)) [
      | inl f ↦ ground (arith, found, e, f)
      | inr f ↦ elim (Bool-cases (leb max_aways a.away_count)) [
        | inl g ↦ ground (arith, found, e, f, g)
        | inr g ↦ absurd (n (e, f, ground (arith, g)))
      ]
    ]
  ]

  -- `setAwayByToken` grants an absence exactly to those who are in the queue, not called, and have used
  -- fewer than two: it then returns with the absence stored; otherwise it throws and writes nothing.
  pub set_away_by_token-IsAbsence :
      (now minutes : ℕ)
      → (MayLeaveAWhile
          → (b : Appointment) × (set_away_by_token now token minutes db
              ≡ (ok b, record db { appointments = save b db.appointments }))
            × IsAbsence now b)
        × (¬ MayLeaveAWhile → set_away_by_token now token minutes db ≡ (err bad_request, db))
  set_away_by_token-IsAbsence now minutes = (
    λ h. (
      away now minutes,
      set_away_ok now minutes h,
      record {
        until = now + min 15 (max 1 minutes) * 60000;
        away_until = refl;
        at_least = omega arith;
        at_most = omega arith;
        counted = refl;
        within = omega (arith, h.2);
        same_rank = refl;
        same_number = refl;
      },
    ),
    set_away_err now minutes,
  )

  abbrev pub IsWaiting : Type 0
  IsWaiting = (a.status ≡ AppointmentStatus.requested) ⊎ (a.status ≡ AppointmentStatus.confirmed)

  abbrev cancelled_by_client : Appointment
  cancelled_by_client = record a {
    status = AppointmentStatus.cancelled;
    cancellation_reason = some CancellationReason.client;
  }

  abbrev pub IsBooked : Type 0
  IsBooked = (a.created_via ≢ CreatedVia.walk_in) × (a.status ≡ AppointmentStatus.confirmed)

  walk_in_not_scheduled : a.created_via ≡ CreatedVia.walk_in → is_scheduled a ≡ false
  walk_in_not_scheduled h = ground (arith, h)

  scheduled-IsBooked : is_scheduled a ≡ true → IsBooked
  scheduled-IsBooked h =
      (λ walk. case_clash (sym h ∙ walk_in_not_scheduled walk), ground (arith, h))

  other_of_walk_in : (v : CreatedVia) → v ≢ CreatedVia.walk_in → (v == CreatedVia.walk_in) ≡ false
  other_of_walk_in v n = elim (Bool-cases (v == CreatedVia.walk_in)) [
    | inl e ↦ absurd (n (ground (arith, e)))
    | inr e ↦ e
  ]

  IsBooked-scheduled : IsBooked → is_scheduled a ≡ true
  IsBooked-scheduled h = rw (other_of_walk_in a.created_via h.0, h.1) refl

  leave_scheduled :
      IsWaiting
      → is_scheduled a ≡ true
      → leave_by_token token db
        ≡ (ok true, record db { appointments = save (reset_queue a) db.appointments })
  unfolding leave_by_token save_appointment
  leave_scheduled w e = ground (arith, found, w, e)

  leave_other :
      IsWaiting
      → is_scheduled a ≡ false
      → leave_by_token token db
        ≡ (ok false, record db { appointments = save cancelled_by_client db.appointments })
  unfolding leave_by_token save_appointment
  leave_other w e = ground (arith, found, w, e)

  -- `leaveByToken` of somebody who waits always returns and never loses a booking: an appointment is kept
  -- exactly if it was booked, not a walk-in, and confirmed. One that is kept stays confirmed at its hour
  -- and only leaves the queue; any other is cancelled by the client. The result tells which.
  pub leave_by_token-keeps :
      IsWaiting
      → (kept : Bool) × (b : Appointment) × (leave_by_token token db
          ≡ (ok kept, record db { appointments = save b db.appointments }))
        × (kept ≡ true ↔ IsBooked)
        × (kept ≡ true
            → (b.status ≡ AppointmentStatus.confirmed)
              × (b.checked_in_at ≡ none)
              × (b.ticket_number ≡ none)
              × (b.start_at ≡ a.start_at))
        × (kept ≡ false
            → (b.status ≡ AppointmentStatus.cancelled)
              × (b.cancellation_reason ≡ some CancellationReason.client))
  leave_by_token-keeps w = elim (Bool-cases (is_scheduled a)) [
    | inl e ↦ (
      true,
      reset_queue a,
      leave_scheduled w e,
      (λ _. scheduled-IsBooked e, λ _. refl),
      λ _. ((scheduled-IsBooked e).1, refl, refl, refl),
      λ h. absurd (cc),
    )
    | inr e ↦ (
      false,
      cancelled_by_client,
      leave_other w e,
      (λ h. absurd (cc), λ b. absurd (case_clash (sym (IsBooked-scheduled b) ∙ e))),
      λ h. absurd (cc),
      λ _. (refl, refl),
    )
  ]
