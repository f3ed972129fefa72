-- ===== src/Pricing.antt =====
-- src/modules/catalog/pricing.ts: the VAT that applies to a service and the breakdown of a price.
-- A percentage is held in hundredths of a percent, so `(base * percent) / 100` is `base * h / 10000`;
-- `Math.round` of that quotient rounds half up, and is taken over the exact quotient.
pub mod Laws
use back_costa_turnos.Base.{
  ℕ, ◌+◌, ◌*◌, ◌/◌, Bool, true, Option, none, some, or_else, if◌then◌else◌,
}
use back_costa_turnos.Store.Rows.{Service, Professional}

pub record Vat : Type 0 where
  pub percent : ℕ
  pub charged_to_client : Bool

pub record ServicePriceBreakdown : Type 0 where
  pub base_cents : ℕ
  pub vat_amount_cents : ℕ
  pub total_cents : ℕ

pub record ServicePricing : Type 0 where
  pub vat_percent : ℕ
  pub vat_charged_to_client : Bool
  pub full : ServicePriceBreakdown
  pub deposit : Option ServicePriceBreakdown

-- `Math.round(n / d)` for a fraction that is not negative.
unfoldable pub round_div : ℕ → ℕ → ℕ
round_div n d = (2 * n + d) / (2 * d)

-- `professional?.field ?? d`
abbrev from_professional : {A : Type 0} → Option Professional → (Professional → A) → A → A
from_professional none f d = d
from_professional (some p) f d = f p

unfoldable pub resolve_service_vat : Service → Option Professional → Vat
resolve_service_vat service professional = record {
  percent =
      or_else service.vat_percent (from_professional professional (λ p. p.default_vat_percent) 0);
  charged_to_client =
      or_else service.vat_charged_to_client
        (from_professional professional (λ p. p.vat_charged_to_client) true);
}

unfoldable pub compute_price : ℕ → ℕ → Bool → ServicePriceBreakdown
unfolding round_div
compute_price base_cents percent charged_to_client =
    let vat_amount_cents =
      if charged_to_client then round_div (base_cents * percent) 10000 else 0 in
    record {
      base_cents = base_cents;
      vat_amount_cents = vat_amount_cents;
      total_cents = base_cents + vat_amount_cents;
    }

unfoldable pub deposit_breakdown : Option ℕ → Vat → Option ServicePriceBreakdown
deposit_breakdown none vat = none
deposit_breakdown (some cents) vat = some (compute_price cents vat.percent vat.charged_to_client)

unfoldable pub build_service_pricing : Service → Option Professional → ServicePricing
unfolding deposit_breakdown
build_service_pricing service professional =
    let vat = resolve_service_vat service professional in
    record {
      vat_percent = vat.percent;
      vat_charged_to_client = vat.charged_to_client;
      full = compute_price service.price_cents vat.percent vat.charged_to_client;
      deposit = deposit_breakdown service.deposit_amount_cents vat;
    }
