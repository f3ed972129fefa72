-- ===== src/Subscriptions/Credit.antt =====
-- What a payment does to a subscription: `recordPayment`, `handleWebhook` and `createCheckout` of
-- src/modules/subscriptions/subscriptions.service.ts.
use back_costa_turnos.Base.{
  ℕ, ◌+◌, ◌*◌, max, ◌≤◌, ◌≡◌, refl, sym, subst, ◌∙◌, ◌≢◌, Bool, true, false, Option, none, some,
  List, [], ◌∷◌, ◌++◌, arith, nat_beq_refl, nat_coded, find?, is_some,
}
use back_costa_turnos.Base.Http.{ok}
use back_costa_turnos.Enums.{subscription_status_coded, PaymentMethod, SubscriptionStatus}
use back_costa_turnos.Store.Table.{Row, save, find_key, professional_row}
use back_costa_turnos.Store.TableLaws.{find_key-save_self, find_key-save_ne, find_key-key}
use back_costa_turnos.Subscriptions.{
  Subscription, SubscriptionPayment, Books, subscription_row, subscription_payment_row, account_row,
  has_write_access, notice_of, payment_received,
}
use back_costa_turnos.Subscriptions.Renewal.{
  recorded, holds_ref, period_start, period_end, payment_row, renewed, write_payment,
  record_payment,
}

-- The books after a payment that is written.
abbrev pub paid_books : ℕ → ℕ → Subscription → Option ℕ → PaymentMethod → Option ℕ → Books → Books
paid_books id now sub amount_cents method ref db = record db {
  payments = save (payment_row id now sub amount_cents true method ref) db.payments;
  subscriptions = save (renewed now sub) db.subscriptions;
  notices = db.notices ++ (notice_of (renewed now sub) (some payment_received) ∷ []);
}

pub record_payment-paid :
    (id now subscription_id : ℕ) (amount_cents : Option ℕ) (method : PaymentMethod) (ref : Option ℕ)
    (db : Books) (sub : Subscription)
    → find_key subscription_id db.subscriptions ≡ some sub
    → recorded ref db.payments ≡ false
    → record_payment id now subscription_id amount_cents true method ref db
      ≡ (ok tt, paid_books id now sub amount_cents method ref db)
unfolding record_payment write_payment
record_payment-paid id now subscription_id amount_cents method ref db sub found new =
    ground (arith, found, new)

pub renewed-id : (now : ℕ) (sub : Subscription) → (renewed now sub).id ≡ sub.id
unfolding renewed
renewed-id now sub = refl

pub renewed-access :
    (grace_days now t : ℕ) (sub : Subscription)
    → t ≤ (renewed now sub).current_period_end
    → has_write_access grace_days (renewed now sub) t ≡ true
unfolding has_write_access renewed
renewed-access grace_days now t sub h = ground (arith, h)

renewed-status :
    (now : ℕ) (sub : Subscription) → (renewed now sub).status ≡ SubscriptionStatus.active
unfolding renewed
renewed-status now sub = refl

renewed-grace_ends_at : (now : ℕ) (sub : Subscription) → (renewed now sub).grace_ends_at ≡ none
unfolding renewed
renewed-grace_ends_at now sub = refl

renewed-period :
    (now : ℕ) (sub : Subscription)
    → ((renewed now sub).current_period_start ≡ max now sub.current_period_end)
      × ((renewed now sub).current_period_end ≡ max now sub.current_period_end + 30 * 86_400_000)
unfolding renewed period_end period_start
renewed-period now sub = ground arith

-- A payment that is credited renews the subscription: the call returns, and the status is active without
-- an end of the grace. The period begins at the end of the one before, or now where that is past, and
-- lasts thirty days, every write is allowed until its end, and no other subscription changes. The
-- subscription exists and the reference was not recorded before.
pub record_payment-renewed :
    (id now subscription_id : ℕ) (amount_cents : Option ℕ) (method : PaymentMethod) (ref : Option ℕ)
    (db : Books) (sub : Subscription)
    → find_key subscription_id db.subscriptions ≡ some sub
    → recorded ref db.payments ≡ false
    → (db' : Books) × (sub' : Subscription) × (record_payment id now subscription_id amount_cents
          true method ref db
        ≡ (ok tt, db'))
      × (find_key subscription_id db'.subscriptions ≡ some sub')
      × (sub'.status ≡ SubscriptionStatus.active)
      × (sub'.grace_ends_at ≡ none)
      × ((sub'.current_period_start ≡ max now sub.current_period_end)
          × (sub'.current_period_end ≡ max now sub.current_period_end + 30 * 86_400_000))
      × ((grace_days t : ℕ)
          → t ≤ sub'.current_period_end
          → has_write_access grace_days sub' t ≡ true)
      × ((k : ℕ) → subscription_id ≢ k → find_key k db'.subscriptions ≡ find_key k db.subscriptions)
record_payment-renewed id now subscription_id amount_cents method ref db sub found new =
    let key : (renewed now sub).id ≡ subscription_id =
      renewed-id now sub ∙ find_key-key subscription_id db.subscriptions sub found in
    (
      paid_books id now sub amount_cents method ref db,
      renewed now sub,
      record_payment-paid id now subscription_id amount_cents method ref db sub found new,
      subst (λ k. find_key k (save (renewed now sub) db.subscriptions) ≡ some (renewed now sub)) key
          (find_key-save_self (renewed now sub) db.subscriptions),
      renewed-status now sub,
      renewed-grace_ends_at now sub,
      renewed-period now sub,
      λ grace_days t h. renewed-access grace_days now t sub h,
      λ k ne. find_key-save_ne (renewed now sub) k db.subscriptions (λ e. ne (sym key ∙ e)),
    )

find?-save :
    {A : Type 0} ⦃r : Row A⦄ (p : A → Bool) (a : A) (xs : List A)
    → p a ≡ true
    → is_some (find? p (save a xs)) ≡ true
unfolding save
find?-save p a [] h = rw h refl
find?-save p a (x ∷ xs) h = ground (arith, h, find?-save p a xs h)

recorded-payment_row :
    (id now : ℕ) (sub : Subscription) (amount_cents : Option ℕ) (paid : Bool)
    (method : PaymentMethod) (ref : ℕ) (payments : List SubscriptionPayment)
    → recorded
        (some ref)
        (save (payment_row id now sub amount_cents paid method (some ref)) payments)
      ≡ true
unfolding recorded payment_row
recorded-payment_row id now sub amount_cents paid method ref payments =
    find?-save (λ p. holds_ref ref p.mercadopago_ref) _ payments (nat_beq_refl ref)

record_payment-known :
    (id now subscription_id : ℕ) (amount_cents : Option ℕ) (paid : Bool) (method : PaymentMethod)
    (ref : Option ℕ) (db : Books) (sub : Subscription)
    → find_key subscription_id db.subscriptions ≡ some sub
    → recorded ref db.payments ≡ true
    → record_payment id now subscription_id amount_cents paid method ref db ≡ (ok tt, db)
unfolding record_payment
record_payment-known id now subscription_id amount_cents paid method ref db sub found known =
    ground (arith, found, known)

-- A notification that the provider repeats changes nothing: once a payment of Mercado Pago is recorded
-- as credited, every further call with its reference returns and leaves the books as they are,
-- whatever it reports. The subscription exists and the reference was not recorded before.
pub record_payment-idempotent :
    (id now subscription_id : ℕ) (method : PaymentMethod) (ref : ℕ) (db : Books)
    (sub : Subscription)
    → find_key subscription_id db.subscriptions ≡ some sub
    → recorded (some ref) db.payments ≡ false
    → (db' : Books) × (record_payment id now subscription_id none true method (some ref) db
        ≡ (ok tt, db'))
      × ((id' now' : ℕ) (amount_cents : Option ℕ) (paid : Bool)
          → record_payment id' now' subscription_id amount_cents paid method (some ref) db'
            ≡ (ok tt, db'))
record_payment-idempotent id now subscription_id method ref db sub found new =
    let key : (renewed now sub).id ≡ subscription_id =
      renewed-id now sub ∙ find_key-key subscription_id db.subscriptions sub found in
    let db' = paid_books id now sub none method (some ref) db in
    let found' =
      subst (λ k. find_key k (save (renewed now sub) db.subscriptions) ≡ some (renewed now sub)) key
        (find_key-save_self (renewed now sub) db.subscriptions) in
    (
      db',
      record_payment-paid id now subscription_id none method (some ref) db sub found new,
      λ id' now' amount_cents paid.
          record_payment-known id' now' subscription_id amount_cents paid method (some ref) db'
            (renewed now sub) found'
            (recorded-payment_row id now sub none true method ref db.payments),
    )

record_payment-failed :
    (id now subscription_id : ℕ) (method : PaymentMethod) (ref : Option ℕ) (db : Books)
    (sub : Subscription)
    → find_key subscription_id db.subscriptions ≡ some sub
    → recorded ref db.payments ≡ false
    → record_payment id now subscription_id none false method ref db ≡ (
      ok tt,
      record db { payments = save (payment_row id now sub none false method ref) db.payments },
    )
unfolding record_payment write_payment
record_payment-failed id now subscription_id method ref db sub found new =
    ground (arith, found, new)

-- A payment that is first reported as not approved and then, under the same reference, as paid is never
-- credited: both calls return, and the subscriptions are as before. The subscription exists and the
-- reference was not recorded before.
pub record_payment-late_approval :
    (id id' now later subscription_id : ℕ) (method : PaymentMethod) (ref : ℕ) (db : Books)
    (sub : Subscription)
    → find_key subscription_id db.subscriptions ≡ some sub
    → recorded (some ref) db.payments ≡ false
    → (db' : Books) × (record_payment id now subscription_id none false method (some ref) db
        ≡ (ok tt, db'))
      × (record_payment id' later subscription_id none true method (some ref) db' ≡ (ok tt, db'))
      × (db'.subscriptions ≡ db.subscriptions)
record_payment-late_approval id id' now later subscription_id method ref db sub found new = (
  record db { payments = save (payment_row id now sub none false method (some ref)) db.payments },
  record_payment-failed id now subscription_id method (some ref) db sub found new,
  record_payment-known id' later subscription_id none true method (some ref)
      (record db {
        payments = save (payment_row id now sub none false method (some ref)) db.payments;
      })
      sub found (recorded-payment_row id now sub none false method ref db.payments),
  refl,
)
