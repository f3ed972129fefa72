-- ===== src/Subscriptions/Renewal.antt =====
-- The payments of a subscription, the webhook of Mercado Pago for them and the guard of the writes:
-- src/modules/subscriptions/subscriptions.service.ts and src/common/guards/subscription.guard.ts.
use back_costa_turnos.Base.{
  ℕ, ◌+◌, ◌*◌, Bool, true, false, not, Option, none, some, List, [], ◌∷◌, ◌++◌, ltb, if◌then◌else◌,
  ◌==◌, nat_coded, or_else, find?, is_some, nat_beq,
}
use back_costa_turnos.Base.Http.{Result, ok, err, not_found, forbidden, internal}
use back_costa_turnos.Enums.{
  SubscriptionStatus, SubscriptionPaymentStatus, PaymentMethod, cash, mercado_pago,
}
use back_costa_turnos.Store.Table.{find_key, professional_row}
use back_costa_turnos.Store.Call.{Call, pure, throw, gets, ◌>>=◌, ◌>>◌, or_raise}
use back_costa_turnos.Subscriptions.{
  Subscription, SubscriptionPayment, Account, Books, subscription_row, account_row, period_days,
  day_ms, get_by_tenant, by_tenant, has_write_access, save_subscription, save_payment_row,
  notify_status, payment_received,
}

-- Two texts are equal character by character.
unfoldable pub same_text : List ℕ → List ℕ → Bool
same_text [] [] = true
same_text [] (y ∷ ys) = false
same_text (x ∷ xs) [] = false
same_text (x ∷ xs) (y ∷ ys) = if nat_beq x y then same_text xs ys else false

abbrev pub holds_ref : ℕ → Option ℕ → Bool
holds_ref ref none = false
holds_ref ref (some r) = r == ref

-- Whether a payment with that reference of Mercado Pago is recorded; `none` stands for an argument
-- that is undefined or empty.
unfoldable pub recorded : Option ℕ → List SubscriptionPayment → Bool
recorded none payments = false
recorded (some ref) payments = is_some (find? (λ p. holds_ref ref p.mercadopago_ref) payments)

unfoldable pub period_start : ℕ → Subscription → ℕ
period_start now sub = if ltb now sub.current_period_end then sub.current_period_end else now

unfoldable pub period_end : ℕ → Subscription → ℕ
unfolding period_start
period_end now sub = period_start now sub + period_days * day_ms

unfoldable pub payment_row :
    ℕ → ℕ → Subscription → Option ℕ → Bool → PaymentMethod → Option ℕ → SubscriptionPayment
payment_row id now sub amount_cents paid method ref = record {
  id = id;
  subscription_id = sub.id;
  amount_cents = or_else amount_cents sub.amount_cents;
  status = if paid then SubscriptionPaymentStatus.paid else SubscriptionPaymentStatus.failed;
  period_start = period_start now sub;
  period_end = period_end now sub;
  method = method;
  mercadopago_ref = ref;
  paid_at = if paid then some now else none;
}

unfoldable pub renewed : ℕ → Subscription → Subscription
renewed now sub = record sub {
  status = SubscriptionStatus.active;
  current_period_start = period_start now sub;
  current_period_end = period_end now sub;
  grace_ends_at = none;
}

abbrev pub renew : ℕ → Subscription → Call Books (Unit {0})
renew now sub = do
  save_subscription (renewed now sub)
  notify_status (renewed now sub) (some payment_received)

-- What follows the check for a payment that is already recorded.
unfoldable pub write_payment :
    ℕ → ℕ → Subscription → Option ℕ → Bool → PaymentMethod → Option ℕ → Call Books (Unit {0})
write_payment id now sub amount_cents paid method ref = do
  save_payment_row (payment_row id now sub amount_cents paid method ref)
  if paid then renew now sub else pure tt

-- `id` is the key of the new row.
unfoldable pub record_payment :
    ℕ → ℕ → ℕ → Option ℕ → Bool → PaymentMethod → Option ℕ → Call Books (Unit {0})
unfolding write_payment
record_payment id now subscription_id amount_cents paid method ref = do
  found ← gets (λ (db : Books). find_key subscription_id db.subscriptions)
  sub ← or_raise found not_found
  known ← gets (λ (db : Books). recorded ref db.payments)
  if known then pure tt else write_payment id now sub amount_cents paid method ref

unfoldable pub mark_cash_paid : ℕ → ℕ → ℕ → Call Books Subscription
unfolding record_payment
mark_cash_paid id now professional_id = do
  sub ← get_by_tenant professional_id
  record_payment id now sub.id (some sub.amount_cents) true cash none
  get_by_tenant professional_id

-- The `external_reference` of a subscription: `sub:` and the text of its key.
abbrev pub subscription_ref_prefix : List ℕ
subscription_ref_prefix = 115 ∷ 117 ∷ 98 ∷ 58 ∷ []

-- `text.slice(prefix.length)` where `text.startsWith(prefix)`.
unfoldable pub after_prefix : List ℕ → List ℕ → Option (List ℕ)
after_prefix [] text = some text
after_prefix (p ∷ prefix) [] = none
after_prefix (p ∷ prefix) (c ∷ text) = if nat_beq p c then after_prefix prefix text else none

pub record Preference : Type 0 where
  pub external_reference : List ℕ
  pub amount_cents : ℕ
  pub payer_email : Option ℕ

pub record WebhookResult : Type 0 where
  pub external_reference : Option (List ℕ)
  pub paid : Bool
  pub provider_payment_id : Option ℕ

unfoldable pub preference_of : (ℕ → List ℕ) → Subscription → Option Account → Preference
preference_of key_text sub account = record {
  external_reference = subscription_ref_prefix ++ key_text sub.id;
  amount_cents = sub.amount_cents;
  payer_email = elim account [ none ↦ none | some a ↦ some a.email ];
}

unfoldable pub strip_prefix : Option (List ℕ) → Option (List ℕ)
strip_prefix none = none
strip_prefix (some text) = after_prefix subscription_ref_prefix text

-- What the database and the provider do: keys as text and back, where `none` is the text of no key,
-- and the address of a preference, where `none` is a call that throws.
module _ (key_text : ℕ → List ℕ) (text_key : List ℕ → Option ℕ)
    (create_preference : Preference → Option ℕ) where
  unfoldable pub create_checkout : ℕ → Call Books ℕ
  create_checkout tenant_id = do
    sub ← get_by_tenant tenant_id
    pro ← gets (λ (db : Books). find_key tenant_id db.professionals)
    owner ← or_raise pro internal
    account ← gets (λ (db : Books). find_key owner.account_id db.accounts)
    or_raise (create_preference (preference_of key_text sub account)) internal

  -- A text that is not a key fails in the query.
  unfoldable pub credit_key : ℕ → ℕ → WebhookResult → Option ℕ → Call Books (Unit {0})
  credit_key id now result none = throw internal
  credit_key id now result (some key) =
      record_payment id now key none result.paid mercado_pago result.provider_payment_id

  unfoldable pub credit_reference : ℕ → ℕ → WebhookResult → Option (List ℕ) → Call Books (Unit {0})
  unfolding credit_key
  credit_reference id now result none = pure tt
  credit_reference id now result (some text) = credit_key id now result (text_key text)

  -- The argument is what the provider makes of the notification.
  unfoldable pub handle_webhook : ℕ → ℕ → Option WebhookResult → Call Books (Unit {0})
  unfolding credit_reference strip_prefix
  handle_webhook id now none = pure tt
  handle_webhook id now (some result) =
      credit_reference id now result (strip_prefix result.external_reference)

pub data HttpMethod : Type 0 where
  get head options post put patch delete : HttpMethod

abbrev pub is_safe : HttpMethod → Bool
is_safe get = true
is_safe head = true
is_safe options = true
is_safe _ = false

unfoldable pub access_of : ℕ → ℕ → Option Subscription → Result Bool
access_of grace_days now none = ok true
access_of grace_days now (some sub) =
    if not (has_write_access grace_days sub now) then err forbidden else ok true

unfoldable pub tenant_access : ℕ → ℕ → Option ℕ → Books → Result Bool
unfolding access_of
tenant_access grace_days now none db = ok true
tenant_access grace_days now (some tenant_id) db =
    access_of grace_days now (by_tenant tenant_id db.subscriptions)

-- The guard before the handlers of a tenant.
unfoldable pub can_activate : ℕ → ℕ → HttpMethod → Bool → Option ℕ → Books → Result Bool
unfolding tenant_access
can_activate grace_days now method is_admin tenant_id db =
    if is_safe method
    then ok true
    else if is_admin
    then ok true
    else tenant_access grace_days now tenant_id db
