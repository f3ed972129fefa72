-- ===== src/Subscriptions/Checkout.antt =====
-- From the checkout of a subscription to the notification of its payment: `createCheckout` and
-- `handleWebhook` of src/modules/subscriptions/subscriptions.service.ts, with the guard of
-- src/common/guards/subscription.guard.ts.
use back_costa_turnos.Base.{
  find?-test, ℕ, ◌≤◌, ◌≡◌, refl, Bool, true, false, Option, none, some, List, [], ◌∷◌, ◌++◌, arith,
  nat_beq_refl, ◌==◌, nat_coded, find?,
}
use back_costa_turnos.Base.Http.{ok}
use back_costa_turnos.Enums.{subscription_status_coded, mercado_pago}
use back_costa_turnos.Store.Rows.{Professional}
use back_costa_turnos.Store.Table.{Row, save, find_key, professional_row}
use back_costa_turnos.Store.TableLaws.{find_key-key}
use back_costa_turnos.Subscriptions.{
  Subscription, Books, subscription_row, account_row, get_by_tenant, by_tenant,
}
use back_costa_turnos.Subscriptions.Renewal.{
  recorded, renewed, after_prefix, subscription_ref_prefix, Preference, WebhookResult,
  preference_of, create_checkout, credit_key, credit_reference, strip_prefix, handle_webhook,
  HttpMethod, can_activate, tenant_access, access_of,
}
use back_costa_turnos.Subscriptions.Credit.{
  paid_books, record_payment-paid, renewed-id, renewed-access,
}

-- A row that is found by another column, and saved again with that column kept, is found there.
find?-save_same :
    {A : Type 0} ⦃r : Row A⦄ (p : A → Bool) (a b : A) (xs : List A)
    → find? p xs ≡ some a
    → find_key (r.key b) xs ≡ some a
    → p b ≡ true
    → find? p (save b xs) ≡ some b
unfolding save find_key
find?-save_same p a b [] found key h = ground arith
find?-save_same ⦃r = r⦄ p a b (x ∷ xs) found key h =
    ground (arith, found, key, h, find_key-key (r.key b) (x ∷ xs) a key, find?-save_same p a b xs)

after_prefix-append : (prefix text : List ℕ) → after_prefix prefix (prefix ++ text) ≡ some text
unfolding after_prefix
after_prefix-append [] text = refl
after_prefix-append (p ∷ prefix) text = rw (nat_beq_refl p) (after_prefix-append prefix text)

can_activate-renewed :
    (grace_days now t : ℕ) (method : HttpMethod) (is_admin : Bool) (tenant_id : ℕ) (db : Books)
    (sub : Subscription)
    → by_tenant tenant_id db.subscriptions ≡ some (renewed now sub)
    → t ≤ (renewed now sub).current_period_end
    → can_activate grace_days t method is_admin (some tenant_id) db ≡ ok true
unfolding can_activate tenant_access access_of
can_activate-renewed grace_days now t method is_admin tenant_id db sub found h =
    ground (arith, found, renewed-access grace_days now t sub h)

renewed-professional :
    (now : ℕ) (sub : Subscription) → (renewed now sub).professional_id ≡ sub.professional_id
unfolding renewed
renewed-professional now sub = refl

module _ (key_text : ℕ → List ℕ) (text_key : List ℕ → Option ℕ)
    (create_preference : Preference → Option ℕ) where
  handle_webhook-credited :
      (id now : ℕ) (db : Books) (sub : Subscription) (result : WebhookResult)
      → text_key (key_text sub.id) ≡ some sub.id
      → find_key sub.id db.subscriptions ≡ some sub
      → result.external_reference ≡ some (subscription_ref_prefix ++ key_text sub.id)
      → result.paid ≡ true
      → recorded result.provider_payment_id db.payments ≡ false
      → handle_webhook key_text text_key create_preference id now (some result) db
        ≡ (ok tt, paid_books id now sub none mercado_pago result.provider_payment_id db)
  unfolding handle_webhook credit_reference credit_key strip_prefix
  handle_webhook-credited id now db sub result law key ref paid new = simp (
    ref,
    paid,
    after_prefix-append,
    law,
    record_payment-paid id now sub.id none mercado_pago result.provider_payment_id db sub key new,
  )

  create_checkout_lem :
      (tenant_id url : ℕ) (db : Books) (sub : Subscription) (pro : Professional)
      → by_tenant tenant_id db.subscriptions ≡ some sub
      → find_key tenant_id db.professionals ≡ some pro
      → create_preference (preference_of key_text sub (find_key pro.account_id db.accounts))
        ≡ some url
      → create_checkout key_text text_key create_preference tenant_id db ≡ (ok url, db)
  unfolding create_checkout get_by_tenant
  create_checkout_lem tenant_id url db sub pro mine owner link = ground (arith, mine, owner, link)

  -- The reference that the checkout gives to the provider comes back as the same subscription: where
  -- the checkout of a tenant returns an address and the provider reports the preference as paid, the
  -- webhook returns and renews the subscription of that tenant, and every request of the tenant passes
  -- the guard until the new end. The text of a key is read back as that key, the tenant has one
  -- subscription, whose key is its own, and the payment was not recorded before.
  pub handle_webhook-create_checkout :
      (grace_days id now tenant_id url : ℕ) (db : Books) (sub : Subscription) (pro : Professional)
      (result : WebhookResult)
      → ((k : ℕ) → text_key (key_text k) ≡ some k)
      → by_tenant tenant_id db.subscriptions ≡ some sub
      → find_key sub.id db.subscriptions ≡ some sub
      → find_key tenant_id db.professionals ≡ some pro
      → create_preference (preference_of key_text sub (find_key pro.account_id db.accounts))
        ≡ some url
      → result.external_reference
        ≡ some (preference_of key_text sub (find_key pro.account_id db.accounts)).external_reference
      → result.paid ≡ true
      → recorded result.provider_payment_id db.payments ≡ false
      → (db' : Books) × (create_checkout key_text text_key create_preference tenant_id db
          ≡ (ok url, db))
        × (handle_webhook key_text text_key create_preference id now (some result) db
            ≡ (ok tt, db'))
        × (by_tenant tenant_id db'.subscriptions ≡ some (renewed now sub))
        × ((t : ℕ) (method : HttpMethod) (is_admin : Bool)
            → t ≤ (renewed now sub).current_period_end
            → can_activate grace_days t method is_admin (some tenant_id) db' ≡ ok true)
  unfolding preference_of
  handle_webhook-create_checkout grace_days id now tenant_id url db sub pro result law mine key
        owner link ref paid new =
      let same : (renewed now sub).professional_id == tenant_id ≡ true =
        rw (renewed-professional now sub)
          (find?-test (λ s. s.professional_id == tenant_id) db.subscriptions sub mine) in
      let found =
        find?-save_same (λ s. s.professional_id == tenant_id) sub (renewed now sub) db.subscriptions
          mine (rw (renewed-id now sub) key) same in
      (
        paid_books id now sub none mercado_pago result.provider_payment_id db,
        create_checkout_lem tenant_id url db sub pro mine owner link,
        handle_webhook-credited id now db sub result (law sub.id) key ref paid new,
        found,
        λ t method is_admin h.
            can_activate-renewed grace_days now t method is_admin tenant_id
              (paid_books id now sub none mercado_pago result.provider_payment_id db) sub found h,
      )
