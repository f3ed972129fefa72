-- ===== src/Charge.antt =====
-- src/modules/payments/charge.service.ts: charging an appointment from the waiting room. Amounts are
-- cents; an instant `now` and the key of a row that is created are arguments.
pub mod Operations
pub mod Sums
pub mod Settle
pub mod Audit
use back_costa_turnos.Base.{
  ℕ, ◌+◌, ◌-◌, Bool, false, not, ◌&&◌, ◌||◌, Option, none, some, List, [], ◌∷◌, map, ltb,
  if◌then◌else◌, ◌==◌, nat_coded, is_some, filter, find?, sum_by,
}
use Prim.Native.String.{String}
use back_costa_turnos.Base.Int.{ℤ, pos, ◌+ℤ◌, ◌-ℤ◌, pos_part, sub_ℕ}
use back_costa_turnos.Base.Http.{bad_request, not_found}
use back_costa_turnos.Enums.{
  AppointmentStatus, PaymentMethod, PaymentStatus, PaymentType, payment_method_coded,
  payment_status_coded, appointment_status_coded,
}
use back_costa_turnos.Store.Rows.{Appointment, AppointmentAddon, Payment, Service, Professional}
use back_costa_turnos.Store.Table.{find_key, professional_row, payment_row}
use back_costa_turnos.Store.Db.{Db, Action, pure, gets, ◌>>=◌, ◌>>◌, raise_if, or_raise}
use back_costa_turnos.Pricing.{Vat, resolve_service_vat, compute_price}
use back_costa_turnos.Payments.{is_off_system}

pub record ChargePaymentDto : Type 0 where
  pub id : ℕ
  pub method : PaymentMethod
  pub status : PaymentStatus
  pub type : PaymentType
  pub amount_cents : ℕ
  pub paid_at : Option ℕ
  pub note : Option String
  pub revertible : Bool

pub record ChargeSummary : Type 0 where
  pub appointment_id : ℕ
  pub total_cents : ℕ
  pub paid_cents : ℤ
  pub due_cents : ℕ
  pub due_mp_cents : ℕ
  pub fully_paid : Bool
  pub mp_connected : Bool
  pub payments : List ChargePaymentDto

-- `MANUAL_METHODS.includes(p.method)`
abbrev pub is_manual : Payment → Bool
is_manual p = is_off_system p.method

abbrev pub is_paid : Payment → Bool
is_paid p = p.status == PaymentStatus.paid

abbrev pub of_appointment : ℕ → Payment → Bool
of_appointment id p = elim p.appointment_id [ none ↦ false | some a ↦ a == id ]

unfoldable pub load_appointment : ℕ → ℕ → Action Appointment
load_appointment tenant_id id = do
  a ←
      or_raise
        (← gets (λ db. find? (λ a. a.id == id && a.professional_id == tenant_id) db.appointments))
        not_found
  raise_if (a.status == AppointmentStatus.cancelled || a.status == AppointmentStatus.no_show)
      bad_request
  pure a

unfoldable pub addon_cents : AppointmentAddon → ℕ
addon_cents a = if a.is_free then 0 else a.price_at_booking_cents - a.discount_applied_cents

-- What was collected without its VAT, an integer: the rows are those of the appointment.
unfoldable pub net_paid : List Payment → ℤ
net_paid [] = pos 0
net_paid (p ∷ ps) =
    if is_paid p then sub_ℕ p.amount_cents p.vat_amount_cents +ℤ net_paid ps else net_paid ps

unfoldable pub to_payment_dto : Payment → ChargePaymentDto
to_payment_dto p = record {
  id = p.id;
  method = p.method;
  status = p.status;
  type = p.type;
  amount_cents = p.amount_cents;
  paid_at = p.paid_at;
  note = p.note;
  revertible = is_manual p && is_paid p;
}

abbrev service_price : Option Service → ℕ
service_price none = 0
service_price (some s) = s.price_cents

abbrev service_vat : Option Service → Option Professional → Vat
service_vat none pro = record { percent = 0; charged_to_client = false }
service_vat (some s) pro = resolve_service_vat s pro

abbrev has_mp_user : Option Professional → Bool
has_mp_user none = false
has_mp_user (some p) = is_some p.mp_user_id

-- The value of an appointment: the price of its service and of its additional services.
unfoldable pub total_of : Db → Appointment → ℕ
unfolding addon_cents
total_of db apt =
    service_price (find? (λ s. s.id == apt.service_id) db.services)
    + sum_by addon_cents (filter (λ a. a.appointment_id == apt.id) db.addons)

abbrev pub payments_of : Db → ℕ → List Payment
payments_of db appointment_id = filter (of_appointment appointment_id) db.payments

-- `Math.max(0, totalCents - paidCents)`
unfoldable pub due_of : Db → Appointment → ℕ
due_of db apt = pos_part (pos (total_of db apt) -ℤ net_paid (payments_of db apt.id))

unfoldable pub summary_of : Bool → Db → ℕ → Appointment → ChargeSummary
summary_of is_configured db tenant_id apt =
    let service = find? (λ s. s.id == apt.service_id) db.services in
    let pro = find_key tenant_id db.professionals in
    let vat = service_vat service pro in
    let due = due_of db apt in
    record {
      appointment_id = apt.id;
      total_cents = total_of db apt;
      paid_cents = net_paid (payments_of db apt.id);
      due_cents = due;
      due_mp_cents = (compute_price due vat.percent vat.charged_to_client).total_cents;
      fully_paid = due == 0 && ltb 0 (total_of db apt);
      mp_connected = not is_configured || has_mp_user pro;
      payments = map to_payment_dto (payments_of db apt.id);
    }
