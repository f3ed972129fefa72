-- ===== src/Lifecycle/Writes.antt =====
-- The transitions, the calls of the waiting room and those of the personal link
-- (src/modules/appointments/appointments.service.ts), by the rules for final states.
use back_costa_turnos.Base.{
  ℕ, zero, suc, ◌+◌, ◌≡◌, ◌≢◌, refl, ◌∙◌, inl, inr, Bool, true, false, not, Option, none, some,
  List, [], ◌∷◌, arith, if◌then◌else◌, ◌==◌, nat_coded, nat_beq→eq, Bool-cases, All,
}
use Prim.Native.String.{String}
use back_costa_turnos.Base.Http.{Result, ok}
use back_costa_turnos.Enums.{
  AppointmentStatus, CashOutcome, CancellationReason, appointment_status_coded,
}
use back_costa_turnos.Store.Rows.{Appointment, Payment}
use back_costa_turnos.Store.Db.{Action, pure, query, ◌>>=◌}
use back_costa_turnos.Store.Frame.{Keeps, steps, >>=-Keeps, pure-Keeps, gets-Keeps}
use back_costa_turnos.Booking.{save_appointment}
use back_costa_turnos.Payments.{save_payment}
use back_costa_turnos.Lifecycle.{
  transition, accepted, started, finished, missed, called_off, apply_cash_outcome, cash_settled,
  confirm, start, complete, no_show, cancel,
}
use back_costa_turnos.WaitingRoom.{Day, mark_arrival}
use back_costa_turnos.WaitingRoom.Queue.{
  check_in, undo_check_in, call, send_to_back, set_priority, leave_by_token, set_away_by_token,
  back_by_token, Direction, move_in_queue, swap_ranks, save_queue, ranked_from, item_at, put_at,
  move_to,
}
use back_costa_turnos.Lifecycle.Final.{
  Ended, final, save-Keeps, other-Keeps, query_then, or_raise_then, refused, queue_then,
  find_by_id_then, find_by_token_then,
}

module _ (k : ℕ) where
  pub mark_arrival-Keeps :
      (now : ℕ) (day : Day) (token : ℕ) (a : Appointment)
      → Ended k a
      → Keeps (final k) (mark_arrival now day token a)
  unfolding mark_arrival
  mark_arrival-Keeps now day token a e = search (steps, save-Keeps k) depth 12

  pub undo_check_in-Keeps : (t i : ℕ) → Keeps (final k) (undo_check_in t i)
  unfolding undo_check_in
  undo_check_in-Keeps t i = search (steps, find_by_id_then k, save-Keeps k) depth 16

  pub check_in-Keeps :
      (now : ℕ) (day : Day) (token t i : ℕ) → Keeps (final k) (check_in now day token t i)
  unfolding check_in
  check_in-Keeps now day token t i = search (steps, find_by_id_then k, mark_arrival-Keeps) depth 16

  pub call-Keeps : (now t i : ℕ) → Keeps (final k) (call now t i)
  unfolding call
  call-Keeps now t i = search (steps, find_by_id_then k, save-Keeps k) depth 16

  pub send_to_back-Keeps : (day : Day) (t i : ℕ) → Keeps (final k) (send_to_back day t i)
  unfolding send_to_back
  send_to_back-Keeps day t i = search (steps, find_by_id_then k, save-Keeps k) depth 16

  pub set_priority-Keeps : (t i : ℕ) (b : Bool) → Keeps (final k) (set_priority t i b)
  unfolding set_priority
  set_priority-Keeps t i b = search (steps, find_by_id_then k, save-Keeps k) depth 16

  left-Ended : (b : Bool) (x y : Appointment) → Ended k x → Ended k y → Ended k (if b then x else y)
  left-Ended true x y h g = h
  left-Ended false x y h g = g

  pub leave_by_token-Keeps : (token : ℕ) → Keeps (final k) (leave_by_token token)
  unfolding leave_by_token
  leave_by_token-Keeps token =
      search (steps, find_by_token_then k, save-Keeps k, left-Ended) depth 16

  pub set_away_by_token-Keeps :
      (now token minutes : ℕ) → Keeps (final k) (set_away_by_token now token minutes)
  unfolding set_away_by_token
  set_away_by_token-Keeps now token minutes =
      search (steps, find_by_token_then k, save-Keeps k) depth 16

  pub back_by_token-Keeps : (token : ℕ) → Keeps (final k) (back_by_token token)
  unfolding back_by_token
  back_by_token-Keeps token = search (steps, find_by_token_then k, save-Keeps k) depth 16

  save_queue-Keeps : (xs : List Appointment) → All (Ended k) xs → Keeps (final k) (save_queue xs)
  unfolding save_queue
  save_queue-Keeps [] h = pure-Keeps (final k) tt
  save_queue-Keeps (x ∷ xs) h =
      >>=-Keeps (final k) _ _ (save-Keeps k x h.0) λ _. save_queue-Keeps xs h.1

  item_at-Ended :
      (i : ℕ) (a : Appointment) (xs : List Appointment)
      → All (Ended k) xs
      → item_at i xs ≡ some a
      → Ended k a
  item_at-Ended i a [] h e = absurd (cc)
  item_at-Ended zero a (x ∷ xs) h e = ground (arith, e, h.0)
  item_at-Ended (suc i) a (x ∷ xs) h e = item_at-Ended i a xs h.1 e

  put_at-Ended :
      (i : ℕ) (a : Appointment) (xs : List Appointment)
      → Ended k a
      → All (Ended k) xs
      → All (Ended k) (put_at i a xs)
  put_at-Ended i a [] e h = tt
  put_at-Ended zero a (x ∷ xs) e h = (e, h.1)
  put_at-Ended (suc i) a (x ∷ xs) e h = (h.0, put_at-Ended i a xs e h.1)

  ranked_from-Ended :
      (i : ℕ) (xs : List Appointment) → All (Ended k) xs → All (Ended k) (ranked_from i xs)
  ranked_from-Ended i [] h = tt
  ranked_from-Ended i (x ∷ xs) h = (h.0, ranked_from-Ended (i + 1) xs h.1)

  swap_ranks-Keeps :
      (a : Appointment) (queue : List Appointment) (i j : ℕ)
      → All (Ended k) queue
      → Keeps (final k) (swap_ranks a queue i j)
  unfolding swap_ranks
  swap_ranks-Keeps a queue i j h =
      search
        (steps, or_raise_then k, item_at-Ended, save_queue-Keeps, ranked_from-Ended, put_at-Ended)
        depth 20

  move_to-Keeps :
      (a : Appointment) (queue : List Appointment) (i : ℕ) (o : Option ℕ)
      → All (Ended k) queue
      → Keeps (final k) (move_to a queue i o)
  unfolding move_to
  move_to-Keeps a queue i none h = pure-Keeps (final k) a
  move_to-Keeps a queue i (some j) h = swap_ranks-Keeps a queue i j h

  pub move_in_queue-Keeps :
      (day : Day) (t i : ℕ) (direction : Direction)
      → Keeps (final k) (move_in_queue day t i direction)
  unfolding move_in_queue
  move_in_queue-Keeps day t i direction =
      search (steps, find_by_id_then k, queue_then k, move_to-Keeps) depth 20

  transition-Keeps :
      (t i : ℕ) (apply : Appointment → Result Appointment)
      → ((a b : Appointment) → Ended k a → a.id ≡ i → apply a ≡ ok b → Ended k b)
      → Keeps (final k) (transition t i apply)
  unfolding transition
  transition-Keeps t i apply h =
      find_by_id_then k t i
        (λ a. query (λ _. apply a) >>= λ saved. save_appointment saved >>= λ _. pure saved)
        (λ a e q.
          query_then k (apply a) (λ saved. save_appointment saved >>= λ _. pure saved)
            (λ b r.
              >>=-Keeps (final k) _ _ (save-Keeps k b (h a b e q r)) λ _. pure-Keeps (final k) b))

  accepted-Ended : (a b : Appointment) → Ended k a → accepted a ≡ ok b → Ended k b
  accepted-Ended a b h e q = ground (arith, h, e, q)

  finished-Ended : (now : ℕ) (a b : Appointment) → finished now a ≡ ok b → Ended k b
  finished-Ended now a b e q = ground (arith, e, q)

  missed-Ended : (a b : Appointment) → missed a ≡ ok b → Ended k b
  missed-Ended a b e q = ground (arith, e, q)

  called_off-Ended :
      (reason : CancellationReason) (a b : Appointment) → called_off reason a ≡ ok b → Ended k b
  called_off-Ended reason a b e q = ground (arith, e, q)

  started-Ended :
      (now i : ℕ) (a b : Appointment) → i ≢ k → a.id ≡ i → started now a ≡ ok b → Ended k b
  started-Ended now i a b ne h e q = ground (arith, ne, h, e, q)

  not_confirmed :
      (i : ℕ) (a : Appointment)
      → i ≡ k
      → Ended k a
      → a.id ≡ i
      → not (a.status == AppointmentStatus.confirmed) ≡ true
  not_confirmed i a q e h = ground (arith, e (h ∙ q))

  pub confirm-Keeps : (t i : ℕ) → Keeps (final k) (confirm t i)
  unfolding confirm
  confirm-Keeps t i = transition-Keeps t i accepted (λ a b e _ r. accepted-Ended a b e r)

  pub no_show-Keeps : (t i : ℕ) → Keeps (final k) (no_show t i)
  unfolding no_show
  no_show-Keeps t i = transition-Keeps t i missed (λ a b _ _ r. missed-Ended a b r)

  pub cancel-Keeps : (t i : ℕ) (reason : CancellationReason) → Keeps (final k) (cancel t i reason)
  unfolding cancel
  cancel-Keeps t i reason =
      transition-Keeps t i (called_off reason) (λ a b _ _ r. called_off-Ended reason a b r)

  pub save_payment-Keeps : (p : Payment) → Keeps (final k) (save_payment p)
  unfolding save_payment
  save_payment-Keeps p = other-Keeps k _ (λ db. refl)

  settled-Keeps :
      (now : ℕ) (o : CashOutcome) (memo : Option String) (payment : Option Payment)
      → Keeps (final k) (elim payment as (λ _. Action (Unit {0})) [
        | none ↦ pure tt
        | some p ↦ save_payment (cash_settled now o memo p)
      ])
  settled-Keeps now o memo none = pure-Keeps (final k) tt
  settled-Keeps now o memo (some p) = save_payment-Keeps (cash_settled now o memo p)

  apply_cash_outcome-Keeps :
      (now t i : ℕ) (o : CashOutcome) (memo : Option String)
      → Keeps (final k) (apply_cash_outcome now t i o memo)
  unfolding apply_cash_outcome
  apply_cash_outcome-Keeps now t i o memo =
      >>=-Keeps (final k) _ _ (gets-Keeps (final k) _) λ p. settled-Keeps now o memo p

  pub complete-Keeps :
      (now t i : ℕ) (o : Option CashOutcome) (memo : Option String)
      → Keeps (final k) (complete now t i o memo)
  unfolding complete
  complete-Keeps now t i none memo = search (steps, transition-Keeps, finished-Ended) depth 16
  complete-Keeps now t i (some o) memo =
      search (steps, transition-Keeps, finished-Ended, apply_cash_outcome-Keeps) depth 16

  pub start-Keeps :
      (now : ℕ) (day : Day) (token t i : ℕ) → Keeps (final k) (start now day token t i)
  unfolding start
  start-Keeps now day token t i = elim (Bool-cases (i == k)) [
    | inl e ↦
        let same : i ≡ k = nat_beq→eq _ _ e in
        search (steps, find_by_id_then k, refused k, not_confirmed) depth 16
    | inr e ↦
        let other : i ≢ k = λ q. ground (arith, e, q) in
        search (steps, find_by_id_then k, mark_arrival-Keeps, transition-Keeps, started-Ended) depth
          16
  ]
