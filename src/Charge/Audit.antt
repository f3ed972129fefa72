-- ===== src/Charge/Audit.antt =====
-- The audit log of payments under the calls of src/modules/payments/charge.service.ts.
use back_costa_turnos.Base.{ℕ, ◌≡◌, refl, sym, ap, ◌∙◌, Option, List, [], ◌∷◌, ◌++◌, nat_coded}
use Prim.Native.String.{String}
use mathlib.Core.List.{append-nil, append_assoc}
use back_costa_turnos.Enums.{payment_method_coded, payment_status_coded}
use back_costa_turnos.Store.Rows.{Appointment, Payment, AuditLog}
use back_costa_turnos.Store.Db.{Db}
use back_costa_turnos.Store.Frame.{Preorder, Keeps, pure-Keeps, >>=-Keeps, steps}
use back_costa_turnos.Payments.{Provider, find_by_id, save_payment, audit}
use back_costa_turnos.Charge.{load_appointment}
use back_costa_turnos.Charge.Operations.{
  ManualMethod, save_and_audit, summary, charge_rest, mark_paid_open, mark_paid, defer_rows,
  mark_deferred_open, mark_deferred, revert,
}

-- The log after is the log before with entries added at its end.
abbrev pub Extends : Db → Db → Type 0
Extends db db' = (new : List AuditLog) × (db'.audit_logs ≡ db.audit_logs ++ new)

pub Extends-trans : (a b c : Db) → Extends a b → Extends b c → Extends a c
Extends-trans a b c (xs, p) (ys, q) =
    (xs ++ ys, q ∙ ap (λ l. l ++ ys) p ∙ append_assoc a.audit_logs xs ys)

abbrev pub appending : Preorder
appending = record {
  Rel = Extends;
  rel_refl = λ db. ([], sym (append-nil db.audit_logs));
  rel_trans = Extends-trans;
}

audit-Appends : (e : AuditLog) → Keeps appending (audit e)
unfolding audit
audit-Appends e = record { keeps = λ db. (e ∷ [], refl) }

save_payment-Appends : (p : Payment) → Keeps appending (save_payment p)
unfolding save_payment
save_payment-Appends p = record { keeps = λ db. ([], sym (append-nil db.audit_logs)) }

save_and_audit-Appends :
    (f : Payment → Payment) (e : Payment → AuditLog) (ps : List Payment)
    → Keeps appending (save_and_audit f e ps)
unfolding save_and_audit
save_and_audit-Appends f e [] = pure-Keeps appending tt
save_and_audit-Appends f e (p ∷ ps) =
    >>=-Keeps appending _ _ (save_payment-Appends (f p))
      λ _. >>=-Keeps appending _ _ (audit-Appends (e p)) λ _. save_and_audit-Appends f e ps

load_appointment-Appends : (t id : ℕ) → Keeps appending (load_appointment t id)
unfolding load_appointment
load_appointment-Appends t id = search steps depth 12

ruleset writes =
    (steps, audit-Appends, save_payment-Appends, save_and_audit-Appends, load_appointment-Appends)

find_by_id-Appends : (t id : ℕ) → Keeps appending (find_by_id t id)
unfolding find_by_id
find_by_id-Appends t id = search steps depth 12

module _ (provider : Provider) (t acc : ℕ) where
  summary-Appends : (id : ℕ) → Keeps appending (summary provider t acc id)
  unfolding summary
  summary-Appends id = search writes depth 12

  charge_rest-Appends :
      (k : ℕ) (method : ManualMethod) (memo : Option String) (now : ℕ) (apt : Appointment) (due : ℕ)
      → Keeps appending (charge_rest provider t acc k method memo now apt due)
  unfolding charge_rest
  charge_rest-Appends k method memo now apt due = search writes depth 12

  mark_paid_open-Appends :
      (k now : ℕ) (method : ManualMethod) (memo : Option String) (id : ℕ)
      → Keeps appending (mark_paid_open provider t acc k now method memo id)
  unfolding mark_paid_open
  mark_paid_open-Appends k now method memo id =
      search (writes, summary-Appends, charge_rest-Appends) depth 20

  mark_paid-Appends :
      (k now : ℕ) (method : ManualMethod) (memo : Option String) (id : ℕ)
      → Keeps appending (mark_paid provider t acc k now method memo id)
  unfolding mark_paid
  mark_paid-Appends k now method memo id =
      search (writes, summary-Appends, mark_paid_open-Appends) depth 20

  defer_rows-Appends :
      (k : ℕ) (memo : Option String) (apt : Appointment) (due : ℕ) (ps : List Payment)
      → Keeps appending (defer_rows provider t acc k memo apt due ps)
  unfolding defer_rows
  defer_rows-Appends k memo apt due [] = search writes depth 12
  defer_rows-Appends k memo apt due (p ∷ ps) = search writes depth 12

  mark_deferred_open-Appends :
      (k : ℕ) (memo : Option String) (id due : ℕ)
      → Keeps appending (mark_deferred_open provider t acc k memo id due)
  unfolding mark_deferred_open
  mark_deferred_open-Appends k memo id due =
      search (writes, summary-Appends, defer_rows-Appends) depth 20

  mark_deferred-Appends :
      (k : ℕ) (memo : Option String) (id : ℕ)
      → Keeps appending (mark_deferred provider t acc k memo id)
  unfolding mark_deferred
  mark_deferred-Appends k memo id =
      search (writes, summary-Appends, mark_deferred_open-Appends) depth 20

  revert-Appends : (id : ℕ) → Keeps appending (revert provider t acc id)
  unfolding revert
  revert-Appends id = search (writes, find_by_id-Appends) depth 20

  -- `markPaid`, `markDeferred` and `revert` leave every entry of the audit log and only add entries at
  -- its end, also when they throw.
  pub audit_log_only_grows :
      (k now : ℕ) (method : ManualMethod) (memo : Option String) (id : ℕ)
      → Keeps appending (mark_paid provider t acc k now method memo id)
        × Keeps appending (mark_deferred provider t acc k memo id)
        × Keeps appending (revert provider t acc id)
  audit_log_only_grows k now method memo id =
      (mark_paid-Appends k now method memo id, mark_deferred-Appends k memo id, revert-Appends id)
