-- ===== src/Subscriptions.antt =====
-- The subscription of a professional to the platform:
-- src/modules/subscriptions/subscriptions.service.ts and src/common/guards/subscription.guard.ts. The
-- text of a key, which the database makes, is a parameter.
pub mod Renewal
pub mod Daily
pub mod Access
pub mod Credit
pub mod Checkout
use back_costa_turnos.Base.{
  ℕ, ◌+◌, ◌*◌, ◌≡◌, Bool, true, false, not, ◌&&◌, ◌||◌, Option, none, some, List, [], ◌∷◌, ◌++◌,
  ltb, leb, if◌then◌else◌, ◌==◌, nat_coded, or_else, filter, find?, is_some, nat_beq,
}
use back_costa_turnos.Base.Http.{Result, ok, err, not_found, forbidden}
use back_costa_turnos.Enums.{
  SubscriptionStatus, SubscriptionPaymentStatus, PaymentMethod, subscription_status_coded, trial,
  past_due, grace, blocked,
}
use back_costa_turnos.Store.Rows.{Professional}
use back_costa_turnos.Store.Table.{Row, save, find_key, professional_row}
use back_costa_turnos.Store.Call.{
  Call, pure, throw, query, gets, ◌>>=◌, ◌>>◌, modify, or_raise, for_each,
}

abbrev pub renewal_warning_days : ℕ
renewal_warning_days = 5

abbrev pub period_days : ℕ
period_days = 30

abbrev pub day_ms : ℕ
day_ms = 86_400_000

pub record Subscription : Type 0 where
  pub id : ℕ
  pub professional_id : ℕ
  pub status : SubscriptionStatus
  pub current_period_start : ℕ
  pub current_period_end : ℕ
  pub grace_ends_at : Option ℕ
  pub amount_cents : ℕ

pub record SubscriptionPayment : Type 0 where
  pub id : ℕ
  pub subscription_id : ℕ
  pub amount_cents : ℕ
  pub status : SubscriptionPaymentStatus
  pub period_start : ℕ
  pub period_end : ℕ
  pub method : PaymentMethod
  pub mercadopago_ref : Option ℕ
  pub paid_at : Option ℕ

instance abbrev pub subscription_row : Row Subscription
subscription_row = record { key = λ s. s.id }

instance abbrev pub subscription_payment_row : Row SubscriptionPayment
subscription_payment_row = record { key = λ p. p.id }

-- The columns of `account` that are read.
pub record Account : Type 0 where
  pub id : ℕ
  pub email : ℕ

instance abbrev pub account_row : Row Account
account_row = record { key = λ a. a.id }

-- The field `reason` of a notice: the status, or what happened.
pub data Reason : Type 0 where
  the_status : SubscriptionStatus → Reason
  renewal_warning payment_received : Reason

pub record StatusNotice : Type 0 where
  pub professional_id : ℕ
  pub status : SubscriptionStatus
  pub reason : Reason

pub record Books : Type 0 where
  pub subscriptions : List Subscription
  pub payments : List SubscriptionPayment
  pub notices : List StatusNotice
  pub professionals : List Professional
  pub accounts : List Account

abbrev pub by_tenant : ℕ → List Subscription → Option Subscription
by_tenant tenant_id xs = find? (λ s. s.professional_id == tenant_id) xs

unfoldable pub get_by_tenant : ℕ → Call Books Subscription
get_by_tenant tenant_id = do
  found ← gets (λ (db : Books). by_tenant tenant_id db.subscriptions)
  or_raise found not_found

-- `graceDays` is a setting of the deployment.
unfoldable pub has_write_access : ℕ → Subscription → ℕ → Bool
has_write_access grace_days sub now =
    if sub.status == blocked
    then false
    else if leb now sub.current_period_end
    then true
    else leb now (or_else sub.grace_ends_at (sub.current_period_end + grace_days * day_ms))

abbrev pub save_subscription : Subscription → Call Books (Unit {0})
save_subscription s = modify λ db. record db { subscriptions = save s db.subscriptions }

abbrev pub save_payment_row : SubscriptionPayment → Call Books (Unit {0})
save_payment_row p = modify λ db. record db { payments = save p db.payments }

-- `reason ?? sub.status`
unfoldable pub notice_of : Subscription → Option Reason → StatusNotice
notice_of sub reason = record {
  professional_id = sub.professional_id;
  status = sub.status;
  reason = or_else reason (the_status sub.status);
}

abbrev pub notify_status : Subscription → Option Reason → Call Books (Unit {0})
notify_status sub reason =
    modify λ db. record db { notices = db.notices ++ (notice_of sub reason ∷ []) }

abbrev pub past : Option ℕ → ℕ → Bool
past none now = false
past (some t) now = ltb t now

-- The queries of the three loops; `LessThan` is false of a null.
abbrev pub is_expired : ℕ → Subscription → Bool
is_expired now s =
    (s.status == SubscriptionStatus.active || s.status == trial) && ltb s.current_period_end now

abbrev pub is_to_block : ℕ → Subscription → Bool
is_to_block now s = (s.status == past_due || s.status == grace) && past s.grace_ends_at now

abbrev pub is_upcoming : ℕ → Subscription → Bool
is_upcoming now s =
    leb now s.current_period_end && leb s.current_period_end (now + renewal_warning_days * day_ms)

unfoldable pub overdue : ℕ → ℕ → Subscription → Subscription
overdue grace_days now s = record s {
  status = past_due;
  grace_ends_at = some (now + grace_days * day_ms);
}

unfoldable pub stopped : Subscription → Subscription
stopped s = record s { status = blocked }

-- 1) Overdue without a payment.
unfoldable pub expire_overdue : ℕ → ℕ → Call Books (Unit {0})
expire_overdue grace_days now = do
  expired ← gets (λ (db : Books). filter (is_expired now) db.subscriptions)
  for_each
      (λ sub. do
        save_subscription (overdue grace_days now sub)
        notify_status (overdue grace_days now sub) none)
      expired

-- 2) The grace is used up.
unfoldable pub stop_unpaid : ℕ → Call Books (Unit {0})
stop_unpaid now = do
  to_block ← gets (λ (db : Books). filter (is_to_block now) db.subscriptions)
  for_each (λ sub. do save_subscription (stopped sub); notify_status (stopped sub) none) to_block

-- 3) The notice that a period ends soon.
unfoldable pub warn_upcoming : ℕ → Call Books (Unit {0})
warn_upcoming now = do
  upcoming ←
      gets (λ (db : Books). filter (λ s. s.status == SubscriptionStatus.active) db.subscriptions)
  for_each
      (λ sub. if is_upcoming now sub then notify_status sub (some renewal_warning) else pure tt)
      upcoming

unfoldable pub run_state_transitions : ℕ → ℕ → Call Books (Unit {0})
unfolding expire_overdue stop_unpaid warn_upcoming
run_state_transitions grace_days now = do
  expire_overdue grace_days now
  stop_unpaid now
  warn_upcoming now
