-- ===== src/Pricing/Laws.antt =====
-- The breakdown of a price (src/modules/catalog/pricing.ts).
use back_costa_turnos.Base.{ℕ, ◌+◌, ◌*◌, ◌≤◌, ◌≡◌, refl, Bool, true, false, Option, some, arith}
use back_costa_turnos.Store.Rows.{Service, Professional}
use back_costa_turnos.Pricing.{
  ServicePriceBreakdown, resolve_service_vat, compute_price, build_service_pricing,
}

-- The breakdown of an amount with a percentage in hundredths.
pub record IsBreakdown (base percent : ℕ) (charged : Bool) (b : ServicePriceBreakdown)
    : Type 0 where
  pub base_kept : b.base_cents ≡ base
  pub adds_up : b.total_cents ≡ b.base_cents + b.vat_amount_cents
  pub not_above : charged ≡ true → 2 * (10000 * b.vat_amount_cents) ≤ 2 * (base * percent) + 10000
  pub not_below : charged ≡ true → 2 * (base * percent) ≤ 2 * (10000 * b.vat_amount_cents) + 10000
  pub nothing_charged : charged ≡ false → b.vat_amount_cents ≡ 0

-- The total of a price is its base plus the VAT; the VAT is within half a cent of the exact share
-- where the client pays it, and zero where the client does not.
pub compute_price-IsBreakdown :
    (base percent : ℕ) (charged : Bool)
    → IsBreakdown base percent charged (compute_price base percent charged)
unfolding compute_price
compute_price-IsBreakdown base percent true = record {
  base_kept = refl;
  adds_up = refl;
  not_above = λ _. omega arith;
  not_below = λ _. omega arith;
  nothing_charged = λ e. ground arith;
}
compute_price-IsBreakdown base percent false = record {
  base_kept = refl;
  adds_up = refl;
  not_above = λ e. ground arith;
  not_below = λ e. ground arith;
  nothing_charged = λ _. refl;
}

pub compute_price_mono :
    (a b percent : ℕ) (charged : Bool)
    → a ≤ b
    → (compute_price a percent charged).total_cents ≤ (compute_price b percent charged).total_cents
unfolding compute_price
compute_price_mono a b percent charged h =
    let scaled : a * percent ≤ b * percent = grind arith in ground arith

-- A deposit that does not exceed the price of its service never costs the client more than the
-- full payment, taxes included, whatever the professional's defaults are.
pub deposit-le-full :
    (s : Service) (p : Option Professional) (cents : ℕ) (d : ServicePriceBreakdown)
    → s.deposit_amount_cents ≡ some cents
    → cents ≤ s.price_cents
    → (build_service_pricing s p).deposit ≡ some d
    → d.total_cents ≤ (build_service_pricing s p).full.total_cents
unfolding build_service_pricing
deposit-le-full s p cents d e h k =
    let vat = resolve_service_vat s p in
    ground (arith, compute_price_mono cents s.price_cents vat.percent vat.charged_to_client h)
