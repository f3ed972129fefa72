-- ===== src/Booking.antt =====
-- The reservations of src/modules/appointments/appointments.service.ts. This file has what the three
-- ways to an appointment share: the queries for what occupies an hour, the checks of the booking
-- window, the service, the membership and the person. `now` is the instant of the call; the keys of
-- the rows that it creates are arguments, as uuidv7 gives them.
pub mod Book
pub mod Quote
pub mod Deposit
pub mod Confirm
pub mod Capacity
pub mod Bump
pub mod Holds
pub mod Checkout
pub mod Purge
use back_costa_turnos.Base.{
  ℕ, ◌+◌, ◌*◌, Bool, false, not, ◌&&◌, ◌||◌, Option, none, some, List, [], ◌∷◌, ◌++◌, ltb,
  if◌then◌else◌, ◌==◌, nat_coded, or_else, filter, find?, any,
}
use Prim.Native.String.{String}
use back_costa_turnos.Base.Http.{bad_request, not_found, Result, ok, throw_if}
use back_costa_turnos.Enums.{
  AppointmentStatus, CreatedVia, MembershipStatus, appointment_status_coded,
  membership_status_coded,
}
use back_costa_turnos.Store.Rows.{
  Appointment, PendingBooking, AppointmentAddon, AddonBookingSnapshot, Person, Service, Membership,
  Notification,
}
use back_costa_turnos.Store.Table.{save, find_key, appointment_row, professional_row, person_row}
use back_costa_turnos.Store.Db.{Db, Action, pure, gets, ◌>>=◌, ◌>>◌, modify, raise_if, or_raise}
use back_costa_turnos.Combination.{AddonPricing}
use back_costa_turnos.Identity.{find_or_create, find_or_create_for_account}

-- The keys of the rows that a booking creates.
pub record NewIds : Type 0 where
  pub appointment : ℕ
  pub payment : ℕ
  pub pending : ℕ
  pub person : ℕ

-- `ClientRefDto`
pub record ClientRef : Type 0 where
  pub person_id : Option ℕ
  pub full_name : Option String
  pub email : Option ℕ
  pub phone : Option ℕ

-- `ACTIVE_STATUSES`
abbrev pub is_active : AppointmentStatus → Bool
is_active s =
    s == AppointmentStatus.requested
    || (s == AppointmentStatus.confirmed || s == AppointmentStatus.in_progress)

-- Two half-open intervals share an instant: `a.start_at < end AND a.end_at > start`.
abbrev pub meets : ℕ → ℕ → ℕ → ℕ → Bool
meets start end' a_start a_end = ltb a_start end' && ltb start a_end

abbrev pub occupies : ℕ → ℕ → ℕ → Appointment → Bool
occupies professional_id start end' a =
    a.professional_id == professional_id
    && (is_active a.status && meets start end' a.start_at a.end_at)

abbrev pub holds_slot : ℕ → ℕ → ℕ → ℕ → PendingBooking → Bool
holds_slot now professional_id start end' p =
    p.professional_id == professional_id
    && (ltb now p.expires_at && meets start end' p.start_at p.end_at)

abbrev pub overlapping : Db → ℕ → ℕ → ℕ → List Appointment
overlapping db professional_id start end' =
    filter (occupies professional_id start end') db.appointments

abbrev pub pending_holds : Db → ℕ → ℕ → ℕ → ℕ → List PendingBooking
pending_holds db now professional_id start end' =
    filter (holds_slot now professional_id start end') db.pending_bookings

unfoldable pub assert_lead_time : ℕ → ℕ → ℕ → Result (Unit {0})
assert_lead_time now start_at min_booking_hours =
    throw_if (ltb start_at (now + min_booking_hours * (60 * 60000))) bad_request

unfoldable pub assert_max_booking_window : ℕ → ℕ → ℕ → Result (Unit {0})
assert_max_booking_window now start_at max_booking_days =
    if max_booking_days == 0
    then ok tt
    else throw_if (ltb (now + max_booking_days * (24 * 60 * 60000)) start_at) bad_request

unfoldable pub load_service : ℕ → Action Service
load_service id = do
  or_raise (← gets (λ db. find? (λ s. s.id == id && s.is_active) db.services)) not_found

-- `ComerciosService.getActiveMembership`
unfoldable pub get_active_membership : ℕ → ℕ → Action Membership
get_active_membership professional_id comercio_id = do
  or_raise
      (← gets (λ db.
        find?
          (λ m.
            m.professional_id == professional_id
            && (m.comercio_id == comercio_id && m.status == MembershipStatus.active))
          db.memberships))
      not_found

-- `CatalogService.isAssigned`
abbrev pub is_assigned : ℕ → ℕ → Db → Bool
is_assigned service_id membership_id db =
    any (λ sm. sm.service_id == service_id && sm.membership_id == membership_id)
      db.combination.service_memberships

unfoldable pub resolve_booking_membership : ℕ → Service → Action Membership
resolve_booking_membership professional_id service = do
  m ← get_active_membership professional_id service.comercio_id
  assigned ← gets (is_assigned service.id m.id)
  raise_if (not assigned) not_found
  pure m

unfoldable pub person_of_ref : ℕ → ClientRef → Action ℕ
person_of_ref new_id ref = elim ref.person_id [
  | some id ↦ do p ← or_raise (← gets (λ db. find_key id db.persons)) not_found; pure p.id
  | none ↦ do
    name ← or_raise ref.full_name bad_request
    p ←
        find_or_create new_id (record { full_name = name; email = ref.email; phone = ref.phone })
          none
    pure p.id
]

unfoldable pub resolve_person_id : ℕ → ClientRef → Option ℕ → Action ℕ
resolve_person_id new_id ref none = person_of_ref new_id ref
resolve_person_id new_id ref (some account_id) = do
  p ←
      find_or_create_for_account new_id account_id (record {
        full_name = or_else ref.full_name "Cliente";
        email = ref.email;
        phone = ref.phone;
      })
  pure p.id

abbrev same_account : Option Person → ℕ → Bool
same_account none account_id = false
same_account (some p) account_id = elim p.account_id [ none ↦ false | some a ↦ a == account_id ]

unfoldable pub is_owner_person : ℕ → ℕ → Db → Bool
is_owner_person professional_id person_id db = elim (find_key professional_id db.professionals) [
  | none ↦ false
  | some pro ↦ same_account (find_key person_id db.persons) pro.account_id
]

-- The insert ignores a pair that is there already.
unfoldable pub with_client : ℕ → ℕ → Db → Db
with_client professional_id person_id db =
    if is_owner_person professional_id person_id db
      || any (λ c. c.professional_id == professional_id && c.person_id == person_id)
          db.professional_clients
    then db
    else record db {
      professional_clients =
          db.professional_clients
          ++ record { professional_id = professional_id; person_id = person_id } ∷ [];
    }

unfoldable pub ensure_professional_client : ℕ → ℕ → Action (Unit {0})
ensure_professional_client professional_id person_id =
    modify (with_client professional_id person_id)

unfoldable pub save_appointment : Appointment → Action (Unit {0})
save_appointment a = modify (λ db. record db { appointments = save a db.appointments })

unfoldable pub save_addons : List AppointmentAddon → Action (Unit {0})
save_addons rows = modify (λ db. record db { addons = db.addons ++ rows })

unfoldable pub enqueue : Notification → Action (Unit {0})
enqueue n = modify (λ db. record db { notifications = db.notifications ++ n ∷ [] })

abbrev pub snapshot : AddonPricing → AddonBookingSnapshot
snapshot a = record {
  service_id = a.service.id;
  service_name_snapshot = a.service.name;
  price_at_booking_cents = a.price_at_booking_cents;
  discount_applied_cents = a.discount_applied_cents;
  is_free = a.is_free;
}

abbrev pub addon_row : ℕ → ℕ → AddonBookingSnapshot → AppointmentAddon
addon_row appointment_id professional_id a = record {
  appointment_id = appointment_id;
  service_id = a.service_id;
  professional_id = professional_id;
  service_name_snapshot = a.service_name_snapshot;
  price_at_booking_cents = a.price_at_booking_cents;
  discount_applied_cents = a.discount_applied_cents;
  is_free = a.is_free;
}

-- A row of `appointment` as `create` makes it, with the defaults of the columns.
pub record Slot : Type 0 where
  pub professional_id : ℕ
  pub comercio_id : ℕ
  pub membership_id : ℕ
  pub staff_id : ℕ
  pub person_id : ℕ
  pub service_id : ℕ
  pub start_at : ℕ
  pub end_at : ℕ

abbrev pub new_appointment : ℕ → Slot → AppointmentStatus → Bool → CreatedVia → Appointment
new_appointment id s status is_provisional created_via = record {
  id = id;
  professional_id = s.professional_id;
  comercio_id = s.comercio_id;
  membership_id = s.membership_id;
  staff_id = s.staff_id;
  person_id = s.person_id;
  service_id = s.service_id;
  start_at = s.start_at;
  end_at = s.end_at;
  status = status;
  is_provisional = is_provisional;
  cancellation_reason = none;
  actual_start_at = none;
  checked_in_at = none;
  ticket_number = none;
  queue_rank = none;
  is_priority = false;
  called_at = none;
  call_count = 0;
  away_until = none;
  away_count = 0;
  completed_at = none;
  notified_second_at = none;
  notified_next_at = none;
  public_token = none;
  created_via = created_via;
}
