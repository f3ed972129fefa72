-- ===== src/Tests/Money.antt =====
-- Charges and prices at concrete rows.
use back_costa_turnos.Base.{◌≤◌, ◌≡◌, refl, true, none, some, [], ◌∷◌, arith, nat_coded}
use back_costa_turnos.Base.Http.{ok}
use back_costa_turnos.Enums.{appointment_status_coded}
use back_costa_turnos.Store.Table.{appointment_row, payment_row}
use back_costa_turnos.Store.Db.{Db}
use back_costa_turnos.Tests.{haircut, barber, expected, agenda, offline}
use back_costa_turnos.Store.Frame.{Keeps}
use back_costa_turnos.Store.TableLaws.{IsFresh}
use back_costa_turnos.Charge.{ChargeSummary, due_of}
use back_costa_turnos.Charge.Operations.{ManualMethod, mark_paid, mark_deferred, revert}
use back_costa_turnos.Charge.Settle.{mark_paid_settles}
use back_costa_turnos.Charge.Audit.{appending, audit_log_only_grows}
use back_costa_turnos.Identity.{
  PersonData, find_or_create_for_account, find_or_create_for_account-owned, KeepsOwned,
}
use back_costa_turnos.Store.Rows.{Person}
use back_costa_turnos.Pricing.{
  ServicePriceBreakdown, compute_price, build_service_pricing, resolve_service_vat, round_div,
}
use back_costa_turnos.Pricing.Laws.{IsBreakdown, compute_price-IsBreakdown, deposit-le-full}
use back_costa_turnos.Base.{◌∷◌, []}
use back_costa_turnos.Enums.{PaymentStatus}
use back_costa_turnos.Store.Rows.{Payment}
use back_costa_turnos.Store.Table.{payment_row}
use back_costa_turnos.Tests.{cash_payment, online_payment}

abbrev one : Db
one = agenda (expected ∷ [])

new_key : IsFresh 70 one.payments
new_key = ground arith

mark_paid_settles_example :
    (s : ChargeSummary) × (db' : Db) × (mark_paid offline 1 100 70 960000 ManualMethod.cash none
        expected.id one
      ≡ (ok s, db'))
    × (s.due_cents ≡ 0)
    × (due_of db' expected ≡ 0)
mark_paid_settles_example =
    mark_paid_settles offline 1 100 70 960000 ManualMethod.cash none expected one
      (record { stored = refl; chargeable = refl }) new_key

audit_log_only_grows_example :
    Keeps appending (mark_paid offline 1 100 70 960000 ManualMethod.cash none 30)
    × Keeps appending (mark_deferred offline 1 100 70 none 30)
    × Keeps appending (revert offline 1 100 30)
audit_log_only_grows_example =
    audit_log_only_grows offline 1 100 70 960000 ManualMethod.cash none 30

abbrev ana_online : PersonData
ana_online = record { full_name = "Ana"; email = some 55; phone = none }

find_or_create_for_account-owned_example :
    (p : Person) × (db' : Db) × (find_or_create_for_account 21 200 ana_online one ≡ (ok p, db'))
    × (p.account_id ≡ some 200)
    × KeepsOwned one db'
find_or_create_for_account-owned_example =
    find_or_create_for_account-owned 21 200 ana_online one (λ e. ground arith, tt) (tt, tt)

compute_price-IsBreakdown_example : IsBreakdown 10000 2100 true (compute_price 10000 2100 true)
compute_price-IsBreakdown_example = compute_price-IsBreakdown 10000 2100 true

abbrev deposit : ServicePriceBreakdown
deposit = record { base_cents = 3000; vat_amount_cents = 630; total_cents = 3630 }

deposit_priced : (build_service_pricing haircut (some barber)).deposit ≡ some deposit
unfolding build_service_pricing resolve_service_vat compute_price round_div
deposit_priced = refl

deposit-le-full_example :
    deposit.total_cents ≤ (build_service_pricing haircut (some barber)).full.total_cents
deposit-le-full_example =
    deposit-le-full haircut (some barber) 3000 deposit refl (omega arith) deposit_priced

-- The online payment of the hold, waiting for its approval.
abbrev waiting_payment : Payment
waiting_payment = record online_payment { status = PaymentStatus.pending; paid_at = none }

abbrev waiting_db : Db
waiting_db = record one { payments = cash_payment ∷ waiting_payment ∷ [] }
