-- ===== src/Payments.antt =====
-- src/modules/payments/payments.service.ts: the state of a payment, the audit log and the
-- preference of Mercado Pago. The provider and its OAuth service are parameters.

use back_costa_turnos.Base.{
  ℕ, ◌+◌, ◌*◌, ◌/◌, Bool, false, not, ◌&&◌, ◌||◌, Option, none, some, [], ◌∷◌, ◌++◌, ltb,
  if◌then◌else◌, ◌==◌, nat_coded, or_else, find?,
}
use Prim.Native.String.{String}
use back_costa_turnos.Base.Http.{bad_request, not_found, internal}
use back_costa_turnos.Enums.{
  PaymentMethod, cash, mercado_pago, transfer, PaymentStatus, payment_method_coded,
  payment_status_coded,
}
use back_costa_turnos.Store.Rows.{
  Payment, Professional, AuditLog, AuditAction, mark_paid, mark_deferred,
}
use back_costa_turnos.Store.Table.{save, find_key, payment_row, professional_row}
use back_costa_turnos.Store.Db.{Db, Action, pure, gets, ◌>>=◌, ◌>>◌, modify, raise_if, or_raise}

-- `OFF_SYSTEM_METHODS`
abbrev pub is_off_system : PaymentMethod → Bool
is_off_system m = m == cash || m == transfer

abbrev pub is_open : PaymentStatus → Bool
is_open s = s == PaymentStatus.pending || s == PaymentStatus.deferred

-- The preference that Mercado Pago returns, and the tokens that a refresh returns.
pub record Preference : Type 0 where
  pub external_ref : ℕ
  pub init_point : ℕ

pub record Tokens : Type 0 where
  pub access_token : Option ℕ
  pub refresh_token : Option ℕ
  pub expires_at : Option ℕ

-- `PaymentProvider` and `MercadoPagoOAuthService`: `none` is a call that throws.
pub record Provider : Type 0 where
  pub is_configured : Bool
  pub create_preference : ℕ → ℕ → Option ℕ → ℕ → Option Preference
  pub oauth_is_configured : Bool
  pub refresh : ℕ → Option Tokens
  pub marketplace_fee_percent : ℕ

unfoldable pub audit : AuditLog → Action (Unit {0})
audit entry = modify (λ db. record db { audit_logs = db.audit_logs ++ entry ∷ [] })

unfoldable pub save_payment : Payment → Action (Unit {0})
save_payment p = modify (λ db. record db { payments = save p db.payments })

abbrev pub owned_payment : ℕ → ℕ → Db → Option Payment
owned_payment tenant_id id db =
    find? (λ p. p.id == id && p.professional_id == tenant_id) db.payments

unfoldable pub find_by_id : ℕ → ℕ → Action Payment
find_by_id tenant_id id = do or_raise (← gets (owned_payment tenant_id id)) not_found

abbrev pub entry_of : Option ℕ → AuditAction → Payment → Option PaymentStatus → AuditLog
entry_of account_id action p previous = record {
  account_id = account_id;
  professional_id = p.professional_id;
  action = action;
  entity_id = p.id;
  amount_cents = p.amount_cents;
  previous_status = previous;
}

unfoldable pub mark_cash_paid : ℕ → ℕ → Option ℕ → ℕ → Action Payment
unfolding find_by_id save_payment audit
mark_cash_paid tenant_id id account_id now = do
  payment ← find_by_id tenant_id id
  raise_if (not (is_off_system payment.method)) bad_request
  raise_if (not (is_open payment.status)) bad_request
  let saved = record payment { status = PaymentStatus.paid; paid_at = some now; note = none }
  save_payment saved
  audit (entry_of account_id mark_paid saved (some payment.status))
  pure saved

unfoldable pub mark_cash_deferred : ℕ → ℕ → Option String → Option ℕ → Action Payment
unfolding find_by_id save_payment audit
mark_cash_deferred tenant_id id note account_id = do
  payment ← find_by_id tenant_id id
  raise_if (not (is_off_system payment.method)) bad_request
  raise_if (not (is_open payment.status)) bad_request
  let saved = record payment { status = PaymentStatus.deferred; paid_at = none; note = note }
  save_payment saved
  audit (entry_of account_id mark_deferred saved none)
  pure saved

-- `expiresSoon`: the expiry is known and less than an hour away.
unfoldable pub expires_soon : Option ℕ → ℕ → Bool
expires_soon none now = false
expires_soon (some at) now = ltb at (now + 60 * 60 * 1000)

abbrev first_some : Option ℕ → Option ℕ → Option ℕ
first_some none d = d
first_some (some a) d = some a

unfoldable pub refreshed : Tokens → Professional → Professional
refreshed conn p = record p {
  mp_access_token = conn.access_token;
  mp_refresh_token = first_some conn.refresh_token p.mp_refresh_token;
  mp_token_expires_at = conn.expires_at;
}

unfoldable pub round_percent : ℕ → ℕ → ℕ
round_percent amount percent = (2 * (amount * percent) + 100) / 200

module _ (provider : Provider) where
  open provider use {is_configured, create_preference, oauth_is_configured, refresh}

  -- A refresh that throws is logged, and the old token is used.
  unfoldable pub refresh_token : Professional → ℕ → ℕ → Action ℕ
  unfolding refreshed
  refresh_token pro old token = elim (refresh token) [
    | none ↦ pure old
    | some conn ↦ do
      modify (λ db. record db { professionals = save (refreshed conn pro) db.professionals })
      pure (or_else conn.access_token old)
  ]

  unfoldable pub get_seller_access_token : ℕ → ℕ → Action (Option ℕ)
  unfolding refresh_token expires_soon
  get_seller_access_token tenant_id now = if not is_configured then pure none else do
    pro ← or_raise (← gets (λ db. find_key tenant_id db.professionals)) bad_request
    token ← or_raise pro.mp_access_token bad_request
    elim pro.mp_refresh_token [
      | none ↦ pure (some token)
      | some r ↦
          if expires_soon pro.mp_token_expires_at now && oauth_is_configured
          then (refresh_token pro token r >>= (λ t. pure (some t)))
          else pure (some token)
    ]

  -- The result is the `init_point`.
  unfoldable pub create_mercado_pago_preference : ℕ → ℕ → ℕ → Action ℕ
  unfolding find_by_id get_seller_access_token save_payment
  create_mercado_pago_preference tenant_id id now = do
    payment ← find_by_id tenant_id id
    raise_if (payment.status == PaymentStatus.paid) bad_request
    seller_token ← get_seller_access_token tenant_id now
    let fee_cents = round_percent payment.amount_cents provider.marketplace_fee_percent
    pref ←
        or_raise (create_preference payment.id payment.amount_cents seller_token fee_cents) internal
    save_payment
        (record payment { mercadopago_ref = some pref.external_ref; method = mercado_pago })
    pure pref.init_point
