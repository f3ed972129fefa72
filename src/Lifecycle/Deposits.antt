-- ===== src/Lifecycle/Deposits.antt =====
-- `bookWithDeposit` and `confirmPaidBooking` of src/modules/appointments/appointments.service.ts take no
-- appointment out of a final state.
use back_costa_turnos.Base.{
  ℕ, ◌≢◌, ◌==◌, find?, ◌&&◌, if◌then◌else◌, refl, Option, none, some, nat_coded, Option-cases, inl,
  inr,
}
use back_costa_turnos.Base.Http.{bad_request, Result, ok, err}
use back_costa_turnos.Store.Rows.{Payment, PendingBooking, Professional}
use back_costa_turnos.Store.Table.{find_key, payment_row}
use back_costa_turnos.Store.Db.{Db, Action, pure, ◌>>=◌}
use back_costa_turnos.Store.Frame.{
  Keeps, steps, >>=-Keeps, pure-Keeps, gets-Keeps, if-Keeps, or_raise-Keeps, transaction-Keeps,
}
use back_costa_turnos.Payments.{
  Provider, expires_soon, find_by_id, refresh_token, get_seller_access_token,
  create_mercado_pago_preference,
}
use back_costa_turnos.Booking.{NewIds}
use back_costa_turnos.Booking.Deposit.{
  DepositDto, Booked, drop_hold, on_error, open_checkout, book_with_deposit,
}
use back_costa_turnos.Booking.Confirm.{
  confirm_hold, has_appointment, confirm_paid_booking, confirm_paid_booking_body,
}
use back_costa_turnos.Lifecycle.Final.{IsFinal, final, other-Keeps, query-Keeps}
use back_costa_turnos.Lifecycle.Writes.{save_payment-Keeps}
use back_costa_turnos.Lifecycle.NewRows.{
  load_service-Keeps, resolve_booking_membership-Keeps, resolve_person_id-Keeps, take_slot-Keeps,
  confirm_hold-Keeps,
}

module _ (k : ℕ) where
  cleaned :
      {A : Type 0} (cleanup : Action (Unit {0})) (db : Db) (x : Result A × Db)
      → Keeps (final k) cleanup
      → (IsFinal k db → IsFinal k x.1)
      → IsFinal k db
      → IsFinal k
          (elim x.0 as (λ _. Result A × Db) [
            | ok a ↦ (ok a, x.1)
            | err e ↦ (err e, (cleanup x.1).1)
          ]).1
  cleaned cleanup db (ok a, db') c g h = g h
  cleaned cleanup db (err e, db') c g h = c.keeps db' (g h)

  on_error-Keeps :
      {A : Type 0} (m : Action A) (cleanup : Action (Unit {0}))
      → Keeps (final k) m
      → Keeps (final k) cleanup
      → Keeps (final k) (on_error m cleanup)
  unfolding on_error
  on_error-Keeps m cleanup h c = record { keeps = λ db. cleaned cleanup db (m db) c (h.keeps db) }

  drop_hold-Keeps : (id : ℕ) → Keeps (final k) (drop_hold id)
  unfolding drop_hold
  drop_hold-Keeps id = other-Keeps k _ (λ db. refl)

  find_by_id-Keeps : (t i : ℕ) → Keeps (final k) (find_by_id t i)
  unfolding find_by_id
  find_by_id-Keeps t i = search steps depth 12

  paid_hold-Keeps :
      (id : ℕ) (payment : Payment) (p : Option PendingBooking)
      → id ≢ k
      → Keeps (final k) (elim p as (λ _. Action (Unit {0})) [
        | none ↦ pure tt
        | some h ↦ confirm_hold id payment h
      ])
  paid_hold-Keeps id payment none ne = pure-Keeps (final k) tt
  paid_hold-Keeps id payment (some p) ne = confirm_hold-Keeps k id payment p ne

  paid_body-Keeps :
      (id : ℕ) (payment : Payment) → id ≢ k → Keeps (final k) (confirm_paid_booking_body id payment)
  unfolding confirm_paid_booking_body
  paid_body-Keeps id payment ne =
      >>=-Keeps (final k) _ _
        (gets-Keeps (final k) (λ db. has_appointment (find_key payment.id db.payments)))
        λ done.
          >>=-Keeps (final k) _ _
            (gets-Keeps (final k)
              (λ db. find? (λ p. p.payment_id == payment.id) db.pending_bookings))
            λ p.
              if-Keeps (final k) done _ _ (pure-Keeps (final k) tt)
                (paid_hold-Keeps id payment p ne)

  pub confirm_paid_booking-Keeps :
      (id : ℕ) (payment : Payment) → id ≢ k → Keeps (final k) (confirm_paid_booking id payment)
  unfolding confirm_paid_booking
  confirm_paid_booking-Keeps id payment ne =
      transaction-Keeps (final k) (confirm_paid_booking_body id payment)
        (paid_body-Keeps id payment ne)

  module _ (provider : Provider) where
    refresh_token-Keeps :
        (p : Professional) (old token : ℕ) → Keeps (final k) (refresh_token provider p old token)
    unfolding refresh_token
    refresh_token-Keeps p old token = elim (Option-cases (provider.refresh token)) [
      | inl e ↦ rw (refresh_token, e) (pure-Keeps (final k) old)
      | inr (conn, e) ↦ rw (refresh_token, e) (search (steps, other-Keeps k) depth 12)
    ]

    renewed_token-Keeps :
        (pro : Professional) (now token : ℕ) (r : Option ℕ)
        → Keeps (final k) (elim r as (λ _. Action (Option ℕ)) [
          | none ↦ pure (some token)
          | some t ↦
              if expires_soon pro.mp_token_expires_at now && provider.oauth_is_configured
              then (refresh_token provider pro token t >>= (λ t. pure (some t)))
              else pure (some token)
        ])
    renewed_token-Keeps pro now token none = pure-Keeps (final k) (some token)
    renewed_token-Keeps pro now token (some t) = search (steps, refresh_token-Keeps) depth 12

    get_seller_access_token-Keeps :
        (t now : ℕ) → Keeps (final k) (get_seller_access_token provider t now)
    unfolding get_seller_access_token
    get_seller_access_token-Keeps t now = if-Keeps (final k) _ _ _ (pure-Keeps (final k) none) (
        >>=-Keeps (final k) _ _ (gets-Keeps (final k) _) λ found.
          >>=-Keeps (final k) _ _ (or_raise-Keeps (final k) found bad_request) λ pro.
            >>=-Keeps (final k) _ _ (or_raise-Keeps (final k) pro.mp_access_token bad_request)
              λ token. renewed_token-Keeps pro now token pro.mp_refresh_token)

    preference-Keeps :
        (t i now : ℕ) → Keeps (final k) (create_mercado_pago_preference provider t i now)
    unfolding create_mercado_pago_preference
    preference-Keeps t i now =
        search (steps, find_by_id-Keeps, get_seller_access_token-Keeps, save_payment-Keeps k) depth
          16

    open_checkout-Keeps :
        (now t : ℕ) (b : Booked) → Keeps (final k) (open_checkout provider now t b)
    unfolding open_checkout
    open_checkout-Keeps now t b =
        search (steps, on_error-Keeps, preference-Keeps, drop_hold-Keeps) depth 16

    pub book_with_deposit-Keeps :
        (now : ℕ) (ids : NewIds) (t : ℕ) (dto : DepositDto) (account : Option ℕ)
        → ids.appointment ≢ k
        → Keeps (final k) (book_with_deposit provider now ids t dto account)
    unfolding book_with_deposit
    book_with_deposit-Keeps now ids t dto account ne =
        search
          (
            steps,
            query-Keeps k,
            load_service-Keeps k,
            resolve_booking_membership-Keeps k,
            resolve_person_id-Keeps k,
            take_slot-Keeps k,
            open_checkout-Keeps,
          )
          depth 30
