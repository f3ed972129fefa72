-- ===== src/Booking/Checkout.antt =====
-- The end of `bookWithDeposit` (src/modules/appointments/appointments.service.ts), where
-- the checkout is opened and its failure is cleaned up.
use back_costa_turnos.Base.{ℕ, ◌≡◌, ap, subst, some, arith, ◌==◌, nat_coded, count}
use back_costa_turnos.Base.Http.{HttpError, Result, ok, err}
use back_costa_turnos.Enums.{
  payment_method_coded, payment_option_coded, payment_status_coded, appointment_status_coded,
  created_via_coded,
}
use back_costa_turnos.Store.Table.{
  appointment_row, payment_row, pending_booking_row, professional_row,
}
use back_costa_turnos.Store.Db.{Db, Action, pure, ◌>>=◌}
use back_costa_turnos.Store.TableLaws.{count-delete_where}
use back_costa_turnos.Booking.Deposit.{drop_hold, on_error, Booked, open_checkout}
use back_costa_turnos.Payments.{Provider, create_mercado_pago_preference}

on_error-threw :
    {A : Type 0} (m : Action A) (cleanup : Action (Unit {0})) (db db' : Db) (e : HttpError)
    → on_error m cleanup db ≡ (err e, db')
    → (mid : Db) × ((cleanup mid).1 ≡ db')
unfolding on_error
on_error-threw {A} m cleanup db db' e h = go (m db) h
  where
    go :
        (x : Result A × Db)
        → elim x.0 as (λ _. Result A × Db) [ ok a ↦ (ok a, x.1) | err c ↦ (err c, (cleanup x.1).1) ]
          ≡ (err e, db')
        → (mid : Db) × ((cleanup mid).1 ≡ db')
    go (ok a, mid) k = absurd (cc)
    go (err c, mid) k = (mid, ap (λ x. x.1) k)

then_pure-threw :
    {A B : Type 0} (m : Action A) (f : A → B) (db db' : Db) (e : HttpError)
    → (m >>= (λ a. pure (f a))) db ≡ (err e, db')
    → m db ≡ (err e, db')
then_pure-threw {A} {B} m f db db' e h = go (m db) h
  where
    go :
        (x : Result A × Db)
        → elim x.0 as (λ _. Result B × Db) [ ok a ↦ (ok (f a), x.1) | err c ↦ (err c, x.1) ]
          ≡ (err e, db')
        → x ≡ (err e, db')
    go (ok a, mid) k = absurd (cc)
    go (err c, mid) k = ground (arith, k)

module _ (provider : Provider) where
  open_checkout-threw :
      (now tenant_id : ℕ) (booked : Booked) (db db' : Db) (e : HttpError)
      → open_checkout provider now tenant_id booked db ≡ (err e, db')
      → (mid : Db) × ((drop_hold booked.payment.id mid).1 ≡ db')
  unfolding open_checkout
  open_checkout-threw now tenant_id booked db db' e h =
      on_error-threw (create_mercado_pago_preference provider tenant_id booked.payment.id now)
        (drop_hold booked.payment.id) db db' e
        (then_pure-threw
          (on_error (create_mercado_pago_preference provider tenant_id booked.payment.id now)
            (drop_hold booked.payment.id))
          (λ point. record booked { mp_init_point = some point }) db db' e h)

  -- When the checkout of a hold cannot be opened, for whatever reason and whatever was written before,
  -- neither the hold nor the payment of that checkout is left in the tables.
  pub open_checkout-releases :
      (now tenant_id : ℕ) (booked : Booked) (db db' : Db) (e : HttpError)
      → open_checkout provider now tenant_id booked db ≡ (err e, db')
      → (count (λ p. p.payment_id == booked.payment.id) db'.pending_bookings ≡ 0)
        × (count (λ p. p.id == booked.payment.id) db'.payments ≡ 0)
  unfolding drop_hold
  open_checkout-releases now tenant_id booked db db' e h =
      let (mid, q) = open_checkout-threw now tenant_id booked db db' e h in
      subst
        (λ d.
          (count (λ p. p.payment_id == booked.payment.id) d.pending_bookings ≡ 0)
          × (count (λ p. p.id == booked.payment.id) d.payments ≡ 0))
        q
        (
          count-delete_where (λ p. p.payment_id == booked.payment.id) mid.pending_bookings,
          count-delete_where (λ p. p.id == booked.payment.id) mid.payments,
        )
