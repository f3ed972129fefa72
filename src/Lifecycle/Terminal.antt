-- ===== src/Lifecycle/Terminal.antt =====
-- Final states, `TERMINAL_STATUSES` of src/modules/appointments/appointments.service.ts, under
-- sequences of the calls that write appointments.
use back_costa_turnos.Base.{ℕ, ◌≢◌, Bool, Option}
use back_costa_turnos.Enums.{CreatedVia}
use back_costa_turnos.Store.Rows.{Payment, Membership}
use back_costa_turnos.Store.Db.{Db}
use back_costa_turnos.Store.Frame.{Keeps}
use back_costa_turnos.Payments.{Provider}
use back_costa_turnos.Booking.{NewIds, ClientRef}
use back_costa_turnos.Booking.Book.{BookDto, book}
use back_costa_turnos.Booking.Deposit.{DepositDto, book_with_deposit}
use back_costa_turnos.Booking.Confirm.{confirm_paid_booking}
use back_costa_turnos.WaitingRoom.{Day}
use back_costa_turnos.WaitingRoom.Queue.{
  Direction, check_in, undo_check_in, call, send_to_back, move_in_queue, set_priority,
  leave_by_token, set_away_by_token, back_by_token, create_walk_in,
}
use back_costa_turnos.Lifecycle.Steps.{Label, Call, run}
use back_costa_turnos.Lifecycle.Final.{IsFinal, final}
use back_costa_turnos.Lifecycle.Writes.{
  confirm-Keeps, start-Keeps, complete-Keeps, no_show-Keeps, cancel-Keeps, check_in-Keeps,
  undo_check_in-Keeps, call-Keeps, send_to_back-Keeps, move_in_queue-Keeps, set_priority-Keeps,
  leave_by_token-Keeps, set_away_by_token-Keeps, back_by_token-Keeps,
}
use back_costa_turnos.Lifecycle.NewRows.{book-Keeps, create_walk_in-Keeps}
use back_costa_turnos.Lifecycle.Deposits.{confirm_paid_booking-Keeps, book_with_deposit-Keeps}

-- A call that writes appointments, of any professional and any client; `k` is an appointment that is
-- there already, so that what is inserted has another key.
module _ (provider : Provider) (k : ℕ) where
  pub data Write (db : Db) : Db → Type 0 where
    moves : (l : Label) (c : Call) (t i : ℕ) → Write db (run l c t i db).1
    checks_in : (now : ℕ) (day : Day) (token t i : ℕ) → Write db (check_in now day token t i db).1
    checks_out : (t i : ℕ) → Write db (undo_check_in t i db).1
    calls : (now t i : ℕ) → Write db (call now t i db).1
    sends_back : (day : Day) (t i : ℕ) → Write db (send_to_back day t i db).1
    reorders : (day : Day) (t i : ℕ) (d : Direction) → Write db (move_in_queue day t i d db).1
    hurries : (t i : ℕ) (b : Bool) → Write db (set_priority t i b db).1
    leaves : (token : ℕ) → Write db (leave_by_token token db).1
    goes_away : (now token minutes : ℕ) → Write db (set_away_by_token now token minutes db).1
    comes_back : (token : ℕ) → Write db (back_by_token token db).1
    walks_in :
        (now : ℕ) (day : Day) (token id person professional : ℕ) (m : Membership)
        (staff service : ℕ) (client : ClientRef) (approval : Bool) (account : Option ℕ)
        → id ≢ k
        → Write db
            (create_walk_in now day token id person professional m staff service client approval
              account db).1
    books :
        (now : ℕ) (ids : NewIds) (t : ℕ) (dto : BookDto) (via : CreatedVia) (account : Option ℕ)
        → ids.appointment ≢ k
        → Write db (book now ids t dto via account db).1
    pays_deposit :
        (now : ℕ) (ids : NewIds) (t : ℕ) (dto : DepositDto) (account : Option ℕ)
        → ids.appointment ≢ k
        → Write db (book_with_deposit provider now ids t dto account db).1
    is_paid :
        (id : ℕ) (payment : Payment) → id ≢ k → Write db (confirm_paid_booking id payment db).1

  -- What a sequence of such calls comes to, those that throw included.
  pub data Reaches (db : Db) : Db → Type 0 where
    here : Reaches db db
    after : {mid db' : Db} → Reaches db mid → Write mid db' → Reaches db db'

  run-Keeps : (l : Label) (c : Call) (t i : ℕ) → Keeps (final k) (run l c t i)
  run-Keeps Label.confirming c t i = confirm-Keeps k t i
  run-Keeps Label.starting c t i = start-Keeps k c.now c.day c.token t i
  run-Keeps Label.completing c t i = complete-Keeps k c.now t i c.outcome c.memo
  run-Keeps Label.missing c t i = no_show-Keeps k t i
  run-Keeps Label.cancelling c t i = cancel-Keeps k t i c.reason

  Write-IsFinal : {db db' : Db} → Write db db' → IsFinal k db → IsFinal k db'
  Write-IsFinal {db} (moves l c t i) = (run-Keeps l c t i).keeps db
  Write-IsFinal {db} (checks_in now day token t i) = (check_in-Keeps k now day token t i).keeps db
  Write-IsFinal {db} (checks_out t i) = (undo_check_in-Keeps k t i).keeps db
  Write-IsFinal {db} (calls now t i) = (call-Keeps k now t i).keeps db
  Write-IsFinal {db} (sends_back day t i) = (send_to_back-Keeps k day t i).keeps db
  Write-IsFinal {db} (reorders day t i d) = (move_in_queue-Keeps k day t i d).keeps db
  Write-IsFinal {db} (hurries t i b) = (set_priority-Keeps k t i b).keeps db
  Write-IsFinal {db} (leaves token) = (leave_by_token-Keeps k token).keeps db
  Write-IsFinal {db} (goes_away now token minutes) =
      (set_away_by_token-Keeps k now token minutes).keeps db
  Write-IsFinal {db} (comes_back token) = (back_by_token-Keeps k token).keeps db
  Write-IsFinal {db} (walks_in now day token id person p m s v client approval account ne) =
      (create_walk_in-Keeps k now day token id person p m s v client approval account ne).keeps db
  Write-IsFinal {db} (books now ids t dto via account ne) =
      (book-Keeps k now ids t dto via account ne).keeps db
  Write-IsFinal {db} (pays_deposit now ids t dto account ne) =
      (book_with_deposit-Keeps k provider now ids t dto account ne).keeps db
  Write-IsFinal {db} (is_paid id payment ne) = (confirm_paid_booking-Keeps k id payment ne).keeps db

  -- An appointment that is done, missed or cancelled stays in one of these states through every sequence
  -- of the calls of `Write`, in any order, for any professional and client, and whether they throw: the
  -- transitions, the arrival, the queue, what the client does from the link, the walk-ins, and the
  -- reservations without and with a deposit up to the payment. What they insert has other keys.
  pub Reaches-IsFinal : {db db' : Db} → Reaches db db' → IsFinal k db → IsFinal k db'
  Reaches-IsFinal here h = h
  Reaches-IsFinal (after r w) h = Write-IsFinal w (Reaches-IsFinal r h)
