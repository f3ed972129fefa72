-- ===== src/Charge/Operations.antt =====
-- The operations of src/modules/payments/charge.service.ts that move money.
use back_costa_turnos.Base.{
  ℕ, ◌-◌, ◌*◌, Bool, not, ◌&&◌, ◌||◌, Option, none, some, List, [], ◌∷◌, ltb, if◌then◌else◌, ◌==◌,
  nat_coded, or_else, filter, find?,
}
use Prim.Native.String.{String}
use back_costa_turnos.Base.Http.{bad_request}
use back_costa_turnos.Enums.{
  PaymentMethod, PaymentStatus, PaymentType, payment_method_coded, payment_status_coded,
}
use back_costa_turnos.Store.Rows.{Appointment, Payment, AuditLog, AuditAction, superseded, mp_qr}
use back_costa_turnos.Store.Db.{Db, Action, pure, gets, ◌>>=◌, ◌>>◌, raise_if}
use back_costa_turnos.Pricing.{round_div}
use back_costa_turnos.Payments.{
  Provider, is_open, find_by_id, save_payment, audit, entry_of, create_mercado_pago_preference,
}
use back_costa_turnos.Charge.{
  ChargePaymentDto, ChargeSummary, is_manual, of_appointment, load_appointment, to_payment_dto,
  payments_of, summary_of,
}

-- The argument `method` of "ya pagó".
pub data ManualMethod : Type 0 where
  cash transfer : ManualMethod

abbrev pub chosen : ManualMethod → PaymentMethod
chosen cash = PaymentMethod.cash
chosen transfer = PaymentMethod.transfer

-- A loop that changes each row, saves it and leaves an audit entry about the row as it was.
unfoldable pub save_and_audit :
    (Payment → Payment) → (Payment → AuditLog) → List Payment → Action (Unit {0})
unfolding save_payment audit
save_and_audit f e [] = pure tt
save_and_audit f e (p ∷ ps) = do save_payment (f p); audit (e p); save_and_audit f e ps

abbrev pub settled : ManualMethod → Option String → ℕ → Payment → Payment
settled method note now p = record p {
  status = PaymentStatus.paid;
  method = chosen method;
  paid_at = some now;
  note = note;
}

abbrev pub failed : Payment → Payment
failed p = record p { status = PaymentStatus.failed }

abbrev pub promised : Option String → Payment → Payment
promised note p = record p { status = PaymentStatus.deferred; paid_at = none; note = note }

abbrev pub is_open_manual : Payment → Bool
is_open_manual p = is_manual p && is_open p.status

abbrev pub is_open_qr : Payment → Bool
is_open_qr p = p.method == PaymentMethod.mercado_pago && p.status == PaymentStatus.pending

-- A payment that the service creates; the VAT columns have their default 0.
abbrev pub new_payment :
    ℕ → ℕ → Appointment → PaymentMethod → PaymentStatus → ℕ → Option ℕ → Option String → Payment
new_payment id tenant_id apt method status amount paid_at note = record {
  id = id;
  professional_id = tenant_id;
  appointment_id = some apt.id;
  person_id = apt.person_id;
  type = PaymentType.service;
  amount_cents = amount;
  vat_percent = 0;
  vat_amount_cents = 0;
  method = method;
  status = status;
  mercadopago_ref = none;
  paid_at = paid_at;
  note = note;
}

-- The first row that passes, where the row belongs to the appointment.
abbrev pub open_qr_of : ℕ → Db → Option Payment
open_qr_of appointment_id db =
    find? (λ p. of_appointment appointment_id p && is_open_qr p) db.payments

module _ (provider : Provider) (tenant_id account_id : ℕ) where
  unfoldable pub summary : ℕ → Action ChargeSummary
  summary appointment_id = do
    apt ← load_appointment tenant_id appointment_id
    gets (λ db. summary_of provider.is_configured db tenant_id apt)

  abbrev pub audited : AuditAction → Option PaymentStatus → Payment → AuditLog
  audited action previous p = record (entry_of (some account_id) action p previous) {
    professional_id = tenant_id;
  }

  -- The returned pair is the payment and the `init_point`.
  unfoldable pub create_qr : ℕ → ℕ → ℕ → Action (Payment × ℕ)
  create_qr new_id now appointment_id = do
    sum ← summary appointment_id
    raise_if (sum.fully_paid || sum.due_mp_cents == 0) bad_request
    raise_if (not sum.mp_connected) bad_request
    apt ← load_appointment tenant_id appointment_id
    existing ← gets (open_qr_of apt.id)
    let row = or_else existing (
        new_payment new_id tenant_id apt PaymentMethod.mercado_pago PaymentStatus.pending 0 none
          none)
    let vat = sum.due_mp_cents - sum.due_cents
    let saved = record row {
      amount_cents = sum.due_mp_cents;
      vat_amount_cents = vat;
      vat_percent = if ltb 0 sum.due_cents then round_div (vat * 10000) sum.due_cents else 0;
    }
    save_payment saved
    init_point ← create_mercado_pago_preference provider tenant_id saved.id now
    audit (audited mp_qr none saved)
    pure (saved, init_point)

  -- What is left after the open payments are settled comes in as a new payment.
  unfoldable pub charge_rest :
      ℕ → ManualMethod → Option String → ℕ → Appointment → ℕ → Action (Unit {0})
  unfolding save_payment audit
  charge_rest new_id method note now apt due =
      if ltb 0 due
      then (do
        let created =
            new_payment new_id tenant_id apt (chosen method) PaymentStatus.paid due (some now) note
        save_payment created
        audit (audited AuditAction.mark_paid none created))
      else pure tt

  unfoldable pub mark_paid_open : ℕ → ℕ → ManualMethod → Option String → ℕ → Action ChargeSummary
  mark_paid_open new_id now method note appointment_id = do
    apt ← load_appointment tenant_id appointment_id
    rows ← gets (λ db. payments_of db apt.id)
    save_and_audit (settled method note now)
        (λ p. audited AuditAction.mark_paid (some p.status) (settled method note now p))
        (filter is_open_manual rows)
    save_and_audit failed (λ p. audited superseded none (failed p)) (filter is_open_qr rows)
    mid ← summary appointment_id
    charge_rest new_id method note now apt mid.due_cents
    summary appointment_id

  unfoldable pub mark_paid : ℕ → ℕ → ManualMethod → Option String → ℕ → Action ChargeSummary
  mark_paid new_id now method note appointment_id = do
    before ← summary appointment_id
    if before.fully_paid then pure before else mark_paid_open new_id now method note appointment_id

  unfoldable pub defer_rows : ℕ → Option String → Appointment → ℕ → List Payment → Action (Unit {0})
  unfolding save_payment audit
  defer_rows new_id note apt due [] = do
    let created =
        new_payment new_id tenant_id apt PaymentMethod.cash PaymentStatus.deferred due none note
    save_payment created
    audit (audited AuditAction.mark_deferred none created)
  defer_rows new_id note apt due (p ∷ ps) =
      save_and_audit (promised note) (λ q. audited AuditAction.mark_deferred none (promised note q))
        (p ∷ ps)

  unfoldable pub mark_deferred_open : ℕ → Option String → ℕ → ℕ → Action ChargeSummary
  mark_deferred_open new_id note appointment_id due = do
    apt ← load_appointment tenant_id appointment_id
    rows ← gets (λ db. payments_of db apt.id)
    defer_rows new_id note apt due (filter is_open_manual rows)
    summary appointment_id

  unfoldable pub mark_deferred : ℕ → Option String → ℕ → Action ChargeSummary
  mark_deferred new_id note appointment_id = do
    before ← summary appointment_id
    if before.fully_paid
        then pure before
        else mark_deferred_open new_id note appointment_id before.due_cents

  unfoldable pub revert : ℕ → Action ChargePaymentDto
  unfolding find_by_id save_payment audit
  revert payment_id = do
    p ← find_by_id tenant_id payment_id
    raise_if (p.method == PaymentMethod.mercado_pago) bad_request
    raise_if (not (p.status == PaymentStatus.paid)) bad_request
    let saved = record p { status = PaymentStatus.pending; paid_at = none }
    save_payment saved
    audit (audited AuditAction.revert (some p.status) saved)
    pure (to_payment_dto saved)
