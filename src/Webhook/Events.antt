-- ===== src/Webhook/Events.antt =====
-- Sequences of notifications to `handleWebhook` (src/modules/payments/payments.service.ts).
use back_costa_turnos.Base.{ℕ, Bool, none, some, [], ◌∷◌, ◌++◌, ◌==◌, nat_coded}
use back_costa_turnos.Enums.{
  payment_method_coded, payment_option_coded, payment_status_coded, appointment_status_coded,
  created_via_coded,
}
use back_costa_turnos.Store.Rows.{Payment}
use back_costa_turnos.Store.Table.{
  save, delete_where, appointment_row, payment_row, pending_booking_row, professional_row,
}
use back_costa_turnos.Store.Db.{Db}
use back_costa_turnos.Store.Rows.{AuditAction}
use back_costa_turnos.Payments.{entry_of}
use back_costa_turnos.Webhook.{of_payment, WebhookResult, credited, rejected}

abbrev pub event : ℕ → Bool → ℕ → WebhookResult
event id paid ref = record {
  external_reference = some (of_payment id);
  paid = paid;
  provider_payment_id = ref;
}

module _ (new_id now : ℕ) (p : Payment) (db : Db) where
  abbrev after_reject : ℕ → Db
  after_reject ref = record db {
    payments = save (rejected ref p) db.payments;
    pending_bookings = delete_where (λ h. h.payment_id == p.id) db.pending_bookings;
  }

  abbrev after_credit : ℕ → Db
  after_credit ref = record db {
    payments = save (credited now ref p) db.payments;
    audit_logs = db.audit_logs ++ entry_of none AuditAction.mp_paid (credited now ref p) none ∷ [];
  }
