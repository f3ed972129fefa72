-- ===== src/Charge/Sums.antt =====
-- What is due for an appointment, as sums over its payments.
use back_costa_turnos.Base.{
  ℕ, ◌≡◌, refl, inl, inr, Bool, true, List, [], ◌∷◌, ◌++◌, map, arith, nat_coded, Bool-cases,
}
use mathlib.Core.List.{append-nil, append_assoc}
use back_costa_turnos.Base.Int.{ℤ, pos, ◌+ℤ◌, ◌-ℤ◌, pos_part}
use back_costa_turnos.Base.Http.{ok}
use back_costa_turnos.Enums.{appointment_status_coded, payment_status_coded, payment_method_coded}
use back_costa_turnos.Store.Rows.{Appointment, Payment, AuditLog}
use back_costa_turnos.Store.Table.{save, save_each, payment_row}
use back_costa_turnos.Store.TableLaws.{IsFresh}
use back_costa_turnos.Store.SaveEach.{filter-save_fresh}
use back_costa_turnos.Store.Db.{Db}
use back_costa_turnos.Charge.{
  is_paid, of_appointment, payments_of, net_paid, total_of, due_of, summary_of,
}
use back_costa_turnos.Charge.Operations.{save_and_audit}

-- The loop writes the rows in turn and adds their entries to the log, in the same order.
pub save_and_audit_lem :
    (f : Payment → Payment) (e : Payment → AuditLog) (ps : List Payment) (db : Db)
    → save_and_audit f e ps db ≡ (
      ok tt,
      record db { payments = save_each f ps db.payments; audit_logs = db.audit_logs ++ map e ps },
    )
unfolding save_and_audit save_each
save_and_audit_lem f e [] db = rw append-nil
save_and_audit_lem f e (p ∷ ps) db = rw (save_and_audit_lem f e ps _, append_assoc)

pub pos_zero : (a : ℤ) → a ≡ pos 0 +ℤ a
unfolding ◌+ℤ◌
pos_zero a = ground arith

+ℤ_regroup : (a b c : ℤ) → a +ℤ (b +ℤ c) ≡ a +ℤ b +ℤ c
unfolding ◌+ℤ◌
+ℤ_regroup a b c = ground arith

-- Once what is due is paid, nothing is due.
pub due_paid : (t : ℕ) (n : ℤ) → pos_part (pos t -ℤ (n +ℤ pos (pos_part (pos t -ℤ n)))) ≡ 0
unfolding ◌+ℤ◌ ◌-ℤ◌
due_paid t n = ground arith

pub net_paid-append : (xs ys : List Payment) → net_paid (xs ++ ys) ≡ net_paid xs +ℤ net_paid ys
unfolding net_paid
net_paid-append [] ys = pos_zero (net_paid ys)
net_paid-append (x ∷ xs) ys = elim (Bool-cases (is_paid x)) [
  | inl e ↦ rw (e, net_paid-append xs ys) (+ℤ_regroup _ (net_paid xs) (net_paid ys))
  | inr e ↦ rw (e, net_paid-append xs ys)
]

pub net_paid_one :
    (d : ℕ) (p : Payment)
    → is_paid p ≡ true
    → p.vat_amount_cents ≡ 0
    → p.amount_cents ≡ d
    → net_paid (p ∷ []) ≡ pos d
unfolding net_paid ◌+ℤ◌
net_paid_one d p h v a = ground arith

-- What is due after a paid row of the appointment was added.
pub due_of-save :
    (db : Db) (apt : Appointment) (row : Payment) (logs : List AuditLog)
    → IsFresh row.id db.payments
    → of_appointment apt.id row ≡ true
    → due_of (record db { payments = save row db.payments; audit_logs = logs }) apt
      ≡ pos_part
          (pos (total_of db apt) -ℤ (net_paid (payments_of db apt.id) +ℤ net_paid (row ∷ [])))
unfolding due_of total_of
due_of-save db apt row logs fresh mine = rw (
  filter-save_fresh (of_appointment apt.id) row db.payments fresh,
  mine,
  net_paid-append (payments_of db apt.id) (row ∷ []),
)

pub due_of-logs :
    (db : Db) (apt : Appointment) (logs : List AuditLog)
    → due_of (record db { audit_logs = logs }) apt ≡ due_of db apt
unfolding due_of total_of
due_of-logs db apt logs = refl

pub due_of_lem :
    (db : Db) (apt : Appointment)
    → due_of db apt ≡ pos_part (pos (total_of db apt) -ℤ net_paid (payments_of db apt.id))
unfolding due_of
due_of_lem db apt = refl

pub due_cents_lem :
    (is_configured : Bool) (db : Db) (tenant_id : ℕ) (apt : Appointment)
    → (summary_of is_configured db tenant_id apt).due_cents ≡ due_of db apt
unfolding summary_of
due_cents_lem is_configured db tenant_id apt = refl

pub fully_paid_due :
    (is_configured : Bool) (db : Db) (tenant_id : ℕ) (apt : Appointment)
    → (summary_of is_configured db tenant_id apt).fully_paid ≡ true
    → due_of db apt ≡ 0
unfolding summary_of
fully_paid_due is_configured db tenant_id apt h = ground arith
