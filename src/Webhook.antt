-- ===== src/Webhook.antt =====
-- `handleWebhook` of src/modules/payments/payments.service.ts, and the port through which it confirms or
-- releases a booking (src/modules/payments/ports/appointment-confirmer.port.ts), which the bookings fill.
pub mod Events
use back_costa_turnos.Base.{
  ℕ, zero, suc, ◌+◌, ◌-◌, ◌*◌, ◌/◌, ◌≤◌, ◌<◌, min, max, ◌≡◌, refl, sym, ap, ◌∙◌, subst, ◌≢◌, ◌↔◌,
  ◌⊎◌, inl, inr, Bool, true, false, not, ◌&&◌, ◌||◌, Option, none, some, List, [], ◌∷◌, ◌++◌, map,
  arith, ltb, leb, nat_beq, nat_beq_refl, nat_beq→eq, if◌then◌else◌, Coded, ◌==◌, nat_coded,
  Bool-cases, Option-cases, and_true, or_else, is_some, length, filter, find?, any, all, count,
  sum_by, drop, All, length-append, sum_by-append, length-filter, count-append, All-append, In,
  any-In, In-any, any_none, any-append, In-all, all-of_In, In-filter,
}
use back_costa_turnos.Base.Http.{
  HttpError, bad_request, not_found, conflict, internal, Result, ok, err, throw_if,
}
use back_costa_turnos.Enums.{
  AppointmentStatus, CreatedVia, CancellationReason, NotificationType, PaymentMethod, PaymentOption,
  PaymentStatus, PaymentType, payment_method_coded, payment_option_coded, payment_status_coded,
  appointment_status_coded, created_via_coded,
}
use back_costa_turnos.Store.Rows.{
  Appointment, PendingBooking, Payment, AppointmentAddon, AddonBookingSnapshot, Service,
  Professional, Membership, Notification,
}
use back_costa_turnos.Store.Table.{
  save, find_key, delete_where, appointment_row, payment_row, pending_booking_row, professional_row,
}
use back_costa_turnos.Store.Db.{
  Db, Action, pure, throw, gets, query, ◌>>=◌, ◌>>◌, modify, raise_if, or_raise, transaction,
}
use back_costa_turnos.Store.Rows.{AuditAction}
use back_costa_turnos.Payments.{audit, save_payment, entry_of}
use back_costa_turnos.Booking.Confirm.{confirm_paid_booking, release_pending}

-- `external_reference`: with the prefix of the payments and a key after it, or of another handler.
pub data Reference : Type 0 where
  of_payment : ℕ → Reference
  foreign : Reference

pub record WebhookResult : Type 0 where
  pub external_reference : Option Reference
  pub paid : Bool
  pub provider_payment_id : ℕ

-- `AppointmentConfirmer`
pub record AppointmentConfirmer : Type 0 where
  pub confirm_paid : Payment → Action (Unit {0})
  pub release : ℕ → Action (Unit {0})

-- What the appointments register as the confirmer.
abbrev pub appointments_confirmer : ℕ → AppointmentConfirmer
appointments_confirmer new_id = record {
  confirm_paid = confirm_paid_booking new_id;
  release = release_pending;
}

abbrev has_ref : ℕ → Option ℕ → Bool
has_ref ref none = false
has_ref ref (some r) = r == ref

unfoldable pub payment_of : WebhookResult → Db → Option Payment
payment_of result db = elim result.external_reference [
  | some reference ↦ elim reference [ of_payment id ↦ find_key id db.payments | foreign ↦ none ]
  | none ↦ find? (λ p. has_ref result.provider_payment_id p.mercadopago_ref) db.payments
]

abbrev pub credited : ℕ → ℕ → Payment → Payment
credited now ref p = record p {
  mercadopago_ref = some ref;
  status = PaymentStatus.paid;
  paid_at = some now;
}

abbrev pub rejected : ℕ → Payment → Payment
rejected ref p = record p { mercadopago_ref = some ref; status = PaymentStatus.failed }

module _ (confirmer : AppointmentConfirmer) where
  unfoldable pub credit : ℕ → ℕ → Payment → Action (Unit {0})
  credit now ref p = do
    save_payment (credited now ref p)
    audit (entry_of none AuditAction.mp_paid (credited now ref p) none)
    if is_some p.appointment_id then pure tt else confirmer.confirm_paid (credited now ref p)

  unfoldable pub reject : ℕ → Payment → Action (Unit {0})
  reject ref p = do
    save_payment (rejected ref p)
    if is_some p.appointment_id then pure tt else confirmer.release p.id

  -- `parsed` is what the provider makes of the notification; none is one that it cannot read. A
  -- reference of another handler finds no payment here, which ends the call in the same way.
  unfoldable pub handle_webhook : ℕ → Option WebhookResult → Action (Unit {0})
  handle_webhook now none = pure tt
  handle_webhook now (some result) = do
    found ← gets (payment_of result)
    elim found [
      | none ↦ pure tt
      | some p ↦
          if p.status == PaymentStatus.paid
          then pure tt
          else if result.paid
          then credit now result.provider_payment_id p
          else reject result.provider_payment_id p
    ]
