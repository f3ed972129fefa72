-- ===== src/Tests/Subscriptions.antt =====
-- The subscription of the agenda's professional, and the properties at it.
use back_costa_turnos.Base.{
  max, ℕ, ◌+◌, ◌*◌, ◌≤◌, ◌≡◌, refl, ◌≢◌, ap, zero, suc, inl, Bool, true, false, Option, none, some,
  List, [], ◌∷◌, ◌++◌, arith, length, In, nat_coded, ◌==◌,
}
use back_costa_turnos.Base.Http.{ok}
use back_costa_turnos.Enums.{
  SubscriptionStatus, mercado_pago, subscription_status_coded, trial, blocked,
}
use back_costa_turnos.Store.Table.{find_key, professional_row}
use back_costa_turnos.Subscriptions.{
  Subscription, Books, subscription_row, account_row, by_tenant, has_write_access,
  run_state_transitions,
}
use back_costa_turnos.Subscriptions.Renewal.{
  recorded, renewed, record_payment, subscription_ref_prefix, Preference, WebhookResult,
  preference_of, create_checkout, handle_webhook, HttpMethod, is_safe, can_activate,
}
use back_costa_turnos.Subscriptions.Daily.{after_run, run_notices, run_state_transitions-after_run}
use back_costa_turnos.Subscriptions.Access.{
  IsKept, answer, run_state_transitions-can_activate, run_state_transitions-blocked,
}
use back_costa_turnos.Subscriptions.Credit.{
  record_payment-renewed, record_payment-idempotent, record_payment-late_approval,
}
use back_costa_turnos.Subscriptions.Checkout.{handle_webhook-create_checkout}
use back_costa_turnos.Tests.{barber}

abbrev paying : Subscription
paying = record {
  id = 60;
  professional_id = 1;
  status = SubscriptionStatus.active;
  current_period_start = 0;
  current_period_end = 1000;
  grace_ends_at = none;
  amount_cents = 900000;
}

abbrev on_trial : Subscription
on_trial = record {
  id = 61;
  professional_id = 2;
  status = trial;
  current_period_start = 0;
  current_period_end = 5000;
  grace_ends_at = none;
  amount_cents = 900000;
}

abbrev books : Books
books = record {
  subscriptions = paying ∷ on_trial ∷ [];
  payments = [];
  notices = [];
  professionals = barber ∷ [];
  accounts = record { id = 100; email = 55 } ∷ [];
}

books-IsKept : IsKept books
books-IsKept = ((((λ e. ground (arith, e)), tt), (tt, tt)), (refl, (refl, tt)))

run_state_transitions-after_run_example : run_state_transitions 3 2000 books ≡ (
  ok tt,
  record books {
    subscriptions = after_run 3 2000 paying ∷ after_run 3 2000 on_trial ∷ [];
    notices = run_notices 3 2000 books.subscriptions;
  },
)
run_state_transitions-after_run_example =
    run_state_transitions-after_run 3 2000 books books-IsKept.0

run_state_transitions-can_activate_example :
    (db' : Books) × (run_state_transitions 3 2000 books ≡ (ok tt, db'))
    × IsKept db'
    × ((method : HttpMethod) (tenant_id : ℕ) (s : Subscription)
        → is_safe method ≡ false
        → by_tenant tenant_id db'.subscriptions ≡ some s
        → s.status == SubscriptionStatus.cancelled ≡ false
        → can_activate 3 2000 method false (some tenant_id) db' ≡ answer s)
run_state_transitions-can_activate_example =
    run_state_transitions-can_activate 3 2000 books books-IsKept

run_state_transitions-blocked_example :
    (db' db'' : Books) × (run_state_transitions 0 2000 books ≡ (ok tt, db'))
    × (run_state_transitions 0 3000 db' ≡ (ok tt, db''))
    × ((s' : Subscription) × In s' db''.subscriptions × (s'.id ≡ paying.id) × (s'.status ≡ blocked))
run_state_transitions-blocked_example =
    run_state_transitions-blocked 0 2000 3000 books paying books-IsKept.0 (inl refl) refl
      (omega arith)

unpaid : recorded (some 77) books.payments ≡ false
unfolding recorded
unpaid = refl

found_paying : find_key 60 books.subscriptions ≡ some paying
unfolding find_key
found_paying = refl

record_payment-renewed_example :
    (db' : Books) × (sub' : Subscription) × (record_payment 70 2000 60 none true mercado_pago
        (some 77)
        books
      ≡ (ok tt, db'))
    × (find_key 60 db'.subscriptions ≡ some sub')
    × (sub'.status ≡ SubscriptionStatus.active)
    × (sub'.grace_ends_at ≡ none)
    × ((sub'.current_period_start ≡ max 2000 1000)
        × (sub'.current_period_end ≡ max 2000 1000 + 30 * 86_400_000))
    × ((grace_days t : ℕ) → t ≤ sub'.current_period_end → has_write_access grace_days sub' t ≡ true)
    × ((k : ℕ) → 60 ≢ k → find_key k db'.subscriptions ≡ find_key k books.subscriptions)
record_payment-renewed_example =
    record_payment-renewed 70 2000 60 none mercado_pago (some 77) books paying found_paying unpaid

record_payment-idempotent_example :
    (db' : Books) × (record_payment 70 2000 60 none true mercado_pago (some 77) books
      ≡ (ok tt, db'))
    × ((id' now' : ℕ) (amount_cents : Option ℕ) (paid : Bool)
        → record_payment id' now' 60 amount_cents paid mercado_pago (some 77) db' ≡ (ok tt, db'))
record_payment-idempotent_example =
    record_payment-idempotent 70 2000 60 mercado_pago 77 books paying found_paying unpaid

record_payment-late_approval_example :
    (db' : Books) × (record_payment 70 2000 60 none false mercado_pago (some 77) books
      ≡ (ok tt, db'))
    × (record_payment 71 2500 60 none true mercado_pago (some 77) db' ≡ (ok tt, db'))
    × (db'.subscriptions ≡ books.subscriptions)
record_payment-late_approval_example =
    record_payment-late_approval 70 71 2000 2500 60 mercado_pago 77 books paying found_paying unpaid

-- A key as that many marks.
unfoldable key_text : ℕ → List ℕ
key_text zero = []
key_text (suc n) = 49 ∷ key_text n

abbrev text_key : List ℕ → Option ℕ
text_key text = some (length text)

length-key_text : (k : ℕ) → length (key_text k) ≡ k
unfolding key_text
length-key_text zero = refl
length-key_text (suc n) = ground (arith, length-key_text n)

abbrev create_preference : Preference → Option ℕ
create_preference p = some 5

abbrev approved : WebhookResult
approved = record {
  external_reference = some (subscription_ref_prefix ++ key_text 60);
  paid = true;
  provider_payment_id = some 77;
}

handle_webhook-create_checkout_example :
    (db' : Books) × (create_checkout key_text text_key create_preference 1 books ≡ (ok 5, books))
    × (handle_webhook key_text text_key create_preference 70 2000 (some approved) books
        ≡ (ok tt, db'))
    × (by_tenant 1 db'.subscriptions ≡ some (renewed 2000 paying))
    × ((t : ℕ) (method : HttpMethod) (is_admin : Bool)
        → t ≤ (renewed 2000 paying).current_period_end
        → can_activate 3 t method is_admin (some 1) db' ≡ ok true)
unfolding preference_of find_key
handle_webhook-create_checkout_example =
    handle_webhook-create_checkout key_text text_key create_preference 3 70 2000 1 5 books paying
      barber approved (λ k. ap some (length-key_text k)) refl found_paying refl refl refl refl
      unpaid
