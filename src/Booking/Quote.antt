-- ===== src/Booking/Quote.antt =====
-- What `bookWithDeposit` charges: the amount and the type of the payment, and its VAT.
use back_costa_turnos.Base.{ℕ, Option, none, some, if◌then◌else◌, ◌==◌, nat_coded}
use back_costa_turnos.Base.Http.{bad_request, Result, ok, err}
use back_costa_turnos.Enums.{
  PaymentMethod, PaymentOption, PaymentType, payment_method_coded, payment_option_coded,
  payment_status_coded, appointment_status_coded, created_via_coded,
}
use back_costa_turnos.Store.Rows.{Service, Professional}
use back_costa_turnos.Store.Table.{
  appointment_row, payment_row, pending_booking_row, professional_row,
}
use back_costa_turnos.Pricing.{resolve_service_vat, compute_price}
use back_costa_turnos.Payments.{is_off_system}

pub record Charge : Type 0 where
  pub base_cents : ℕ
  pub payment_type : PaymentType

abbrev deposit_charge : Option ℕ → Result Charge
deposit_charge none = err bad_request
deposit_charge (some cents) =
    if cents == 0
    then err bad_request
    else ok (record { base_cents = cents; payment_type = PaymentType.deposit })

abbrev full_charge : Service → Charge
full_charge service = record {
  base_cents = service.price_cents;
  payment_type = PaymentType.service;
}

-- Base amount and type of the payment.
unfoldable pub resolve_charge : Service → PaymentMethod → PaymentOption → Result Charge
resolve_charge service PaymentMethod.cash option =
    if service.allow_cash then ok (full_charge service) else err bad_request
resolve_charge service PaymentMethod.transfer option =
    if service.allow_transfer then ok (full_charge service) else err bad_request
resolve_charge service PaymentMethod.mercado_pago PaymentOption.full =
    if service.allow_full_payment then ok (full_charge service) else err bad_request
resolve_charge service PaymentMethod.mercado_pago PaymentOption.deposit =
    if service.allow_deposit then deposit_charge service.deposit_amount_cents else err bad_request

pub record VatShare : Type 0 where
  pub percent : ℕ
  pub amount_cents : ℕ

unfoldable pub vat_share : Service → Option Professional → PaymentMethod → ℕ → VatShare
vat_share service professional method base_cents =
    if is_off_system method
    then record { percent = 0; amount_cents = 0 }
    else let vat = resolve_service_vat service professional in
      record {
        percent = vat.percent;
        amount_cents =
            (compute_price base_cents vat.percent vat.charged_to_client).vat_amount_cents;
      }
