-- ===== src/Booking/Deposit.antt =====
-- `bookWithDeposit` (src/modules/appointments/appointments.service.ts): a reservation that is paid, in cash or by transfer on the spot, or online through
-- Mercado Pago with a hold on the hour. The part under the advisory lock is one action on the tables.
use back_costa_turnos.Base.{
  ℕ, ◌+◌, ◌-◌, ◌*◌, Bool, false, not, ◌&&◌, ◌||◌, Option, none, some, List, [], ◌∷◌, map, leb,
  if◌then◌else◌, ◌==◌, nat_coded, or_else, is_some, filter, any, count, drop,
}
use back_costa_turnos.Base.Http.{bad_request, conflict, Result, ok, err}
use back_costa_turnos.Enums.{
  AppointmentStatus, CreatedVia, CancellationReason, NotificationType, PaymentMethod, PaymentOption,
  PaymentStatus, PaymentType, payment_method_coded, payment_option_coded, payment_status_coded,
  appointment_status_coded, created_via_coded,
}
use back_costa_turnos.Store.Rows.{
  Appointment, PendingBooking, Payment, AddonBookingSnapshot, Service, Professional, Notification,
}
use back_costa_turnos.Store.Table.{
  save, find_key, delete_where, appointment_row, payment_row, pending_booking_row, professional_row,
}
use back_costa_turnos.Store.Db.{
  Action, pure, gets, query, ◌>>=◌, ◌>>◌, modify, raise_if, transaction,
}
use back_costa_turnos.Combination.{resolve_addons}
use back_costa_turnos.Booking.{
  NewIds, ClientRef, Slot, overlapping, pending_holds, assert_lead_time, assert_max_booking_window,
  load_service, resolve_booking_membership, resolve_person_id, ensure_professional_client,
  save_appointment, save_addons, enqueue, snapshot, addon_row, new_appointment,
}
use back_costa_turnos.Payments.{Provider, is_off_system, create_mercado_pago_preference}
use back_costa_turnos.Booking.Book.{addon_minutes, slot_of}
use back_costa_turnos.Booking.Quote.{resolve_charge, VatShare, vat_share}

pub record DepositDto : Type 0 where
  pub service_id : ℕ
  pub start_at : ℕ
  pub staff_id : ℕ
  pub client : ClientRef
  pub method : PaymentMethod
  pub payment_option : Option PaymentOption
  pub addon_service_ids : List ℕ

pub record Booked : Type 0 where
  pub appointment : Option Appointment
  pub payment : Payment
  pub mp_init_point : Option ℕ

abbrev pub same_service : Service → Appointment → Bool
same_service service a = a.service_id == service.id

abbrev pub firm_same : Service → Appointment → Bool
firm_same service a = same_service service a && not a.is_provisional

abbrev pub prov_same : Service → Appointment → Bool
prov_same service a = same_service service a && a.is_provisional

-- The provisional appointments that make room; a conflict where the hour cannot be taken.
unfoldable pub plan_slot :
    Service → List Appointment → List PendingBooking → Result (List Appointment)
plan_slot service conflicts holds =
    let firm_occupied =
      count (firm_same service) conflicts + count (λ h. h.service_id == service.id) holds in
    if any (λ a. not (same_service service a)) conflicts
      || any (λ h. not (h.service_id == service.id)) holds
    then err conflict
    else if leb service.capacity firm_occupied
    then err conflict
    else ok (drop (service.capacity - firm_occupied - 1) (filter (prov_same service) conflicts))

abbrev pub bumped : Appointment → Appointment
bumped a = record a {
  status = AppointmentStatus.cancelled;
  cancellation_reason = some CancellationReason.bumped;
}

abbrev pub notice : ℕ → ℕ → NotificationType → ℕ → Notification
notice tenant_id person_id type appointment_id = record {
  professional_id = tenant_id;
  person_id = some person_id;
  type = type;
  subject = appointment_id;
}

-- The loop over the provisional appointments that give way.
unfoldable pub bump_all : ℕ → List Appointment → Action (Unit {0})
bump_all tenant_id [] = pure tt
bump_all tenant_id (a ∷ rest) = do
  save_appointment (bumped a)
  enqueue (notice tenant_id a.person_id NotificationType.bumped a.id)
  bump_all tenant_id rest

abbrev pub pending_payment :
    ℕ → Slot → Option ℕ → PaymentType → ℕ → VatShare → PaymentMethod → Payment
pending_payment id slot appointment_id type amount vat method = record {
  id = id;
  professional_id = slot.professional_id;
  appointment_id = appointment_id;
  person_id = slot.person_id;
  type = type;
  amount_cents = amount;
  vat_percent = vat.percent;
  vat_amount_cents = vat.amount_cents;
  method = method;
  status = PaymentStatus.pending;
  mercadopago_ref = none;
  paid_at = none;
  note = none;
}

-- What the lock protects: the hour, the service, the charge and the additional services.
pub record Order : Type 0 where
  pub service : Service
  pub slot : Slot
  pub method : PaymentMethod
  pub option : PaymentOption
  pub payment_type : PaymentType
  pub amount_cents : ℕ
  pub vat : VatShare
  pub addons : List AddonBookingSnapshot

-- Cash or transfer: the appointment is firm at once and its payment is pending.
unfoldable pub take_off_system : NewIds → Order → List Appointment → Action Booked
take_off_system ids order to_bump = do
  let tenant_id = order.slot.professional_id
  bump_all tenant_id to_bump
  let appointment =
      new_appointment ids.appointment order.slot AppointmentStatus.confirmed false
        CreatedVia.client_self
  save_appointment appointment
  ensure_professional_client tenant_id order.slot.person_id
  save_addons (map (addon_row appointment.id tenant_id) order.addons)
  let payment =
      pending_payment ids.payment order.slot (some appointment.id) order.payment_type
        order.amount_cents (record { percent = 0; amount_cents = 0 }) order.method
  modify (λ db. record db { payments = save payment db.payments })
  enqueue (notice tenant_id order.slot.person_id NotificationType.deposit appointment.id)
  pure (record { appointment = some appointment; payment = payment; mp_init_point = none })

abbrev pub hold_ttl : ℕ
hold_ttl = 15 * 60000

-- Mercado Pago: a pending payment and a hold on the hour.
unfoldable pub take_hold : ℕ → NewIds → Order → Action Booked
take_hold now ids order = do
  let payment =
      pending_payment ids.payment order.slot none order.payment_type order.amount_cents order.vat
        order.method
  modify (λ db. record db { payments = save payment db.payments })
  modify (λ db. record db {
    pending_bookings =
        save
          (record {
            id = ids.pending;
            professional_id = order.slot.professional_id;
            comercio_id = order.slot.comercio_id;
            membership_id = order.slot.membership_id;
            staff_id = order.slot.staff_id;
            person_id = order.slot.person_id;
            service_id = order.service.id;
            start_at = order.slot.start_at;
            end_at = order.slot.end_at;
            payment_id = payment.id;
            amount_cents = order.amount_cents;
            payment_type = order.payment_type;
            payment_option = order.option;
            expires_at = now + hold_ttl;
            addon_data = order.addons;
          })
          db.pending_bookings;
  })
  pure (record { appointment = none; payment = payment; mp_init_point = none })

-- The transaction under the lock of the professional.
unfoldable pub take_slot : ℕ → NewIds → Order → Action Booked
take_slot now ids order = do
  conflicts ←
      gets (λ db. overlapping db order.slot.professional_id order.slot.start_at order.slot.end_at)
  holds ←
      gets (λ db.
        pending_holds db now order.slot.professional_id order.slot.start_at order.slot.end_at)
  to_bump ← query (λ _. plan_slot order.service conflicts holds)
  if is_off_system order.method then take_off_system ids order to_bump else take_hold now ids order

-- The hold and the payment of a checkout that could not be opened.
unfoldable pub drop_hold : ℕ → Action (Unit {0})
drop_hold payment_id = modify (λ db. record db {
  pending_bookings = delete_where (λ p. p.payment_id == payment_id) db.pending_bookings;
  payments = delete_where (λ p. p.id == payment_id) db.payments;
})

abbrev has_mp_connected : Option Professional → Bool
has_mp_connected none = false
has_mp_connected (some p) = is_some p.mp_connected_at

-- `catch (err) { …; throw err; }`
unfoldable pub on_error : {A : Type 0} → Action A → Action (Unit {0}) → Action A
on_error m cleanup db =
    let (r, db') = m db in elim r [ ok a ↦ (ok a, db') | err e ↦ (err e, (cleanup db').1) ]

module _ (provider : Provider) where
  unfoldable pub open_checkout : ℕ → ℕ → Booked → Action Booked
  open_checkout now tenant_id booked = do
    init_point ←
        on_error (create_mercado_pago_preference provider tenant_id booked.payment.id now)
          (drop_hold booked.payment.id)
    pure (record booked { mp_init_point = some init_point })

  unfoldable pub book_with_deposit : ℕ → NewIds → ℕ → DepositDto → Option ℕ → Action Booked
  book_with_deposit now ids tenant_id dto account_id = do
    service ← load_service dto.service_id
    let option = or_else dto.payment_option PaymentOption.deposit
    connected ← gets (λ db. has_mp_connected (find_key tenant_id db.professionals))
    raise_if (dto.method == PaymentMethod.mercado_pago && not connected) bad_request
    m ← resolve_booking_membership tenant_id service
    addons ← query (λ db. resolve_addons db.combination m.id service dto.addon_service_ids)
    charge ← query (λ _. resolve_charge service dto.method option)
    professional ← gets (λ db. find_key tenant_id db.professionals)
    let vat = vat_share service professional dto.method charge.base_cents
    let end_at = dto.start_at + (service.duration_minutes + addon_minutes addons) * 60000
    query (λ _. assert_lead_time now dto.start_at m.min_booking_hours)
    query (λ _. assert_max_booking_window now dto.start_at m.max_booking_days)
    person_id ← resolve_person_id ids.person dto.client account_id
    booked ← transaction (
        take_slot now ids (record {
          service = service;
          slot = slot_of tenant_id m service dto.staff_id person_id dto.start_at end_at;
          method = dto.method;
          option = option;
          payment_type = charge.payment_type;
          amount_cents = charge.base_cents + vat.amount_cents;
          vat = vat;
          addons = map snapshot addons;
        }))
    if dto.method == PaymentMethod.mercado_pago
        then open_checkout now tenant_id booked
        else pure booked
