-- ===== src/Tests.antt =====
-- The rows of a small agenda, and the properties at it.
pub mod Appointments
pub mod Money
pub mod Catalog
pub mod Subscriptions
pub mod Hours
pub mod Assignment
pub mod Days
use back_costa_turnos.Base.{ℕ, ◌+◌, Bool, true, false, Option, none, some, List, [], ◌∷◌}
use Prim.Native.String.{String}
use back_costa_turnos.Enums.{
  AppointmentStatus, CreatedVia, MembershipStatus, WaitingRoomStatus, PaymentMethod, PaymentStatus,
  PaymentType, PaymentOption, enables, work, appointment,
}
use back_costa_turnos.Store.Rows.{
  Appointment, Payment, PendingBooking, Service, Professional, Membership, Person, ScheduleRule,
}
use back_costa_turnos.Store.Db.{Db}
use back_costa_turnos.Combination.{ServiceCombinationRule, ServiceMembership, Tables}
use back_costa_turnos.Payments.{Provider}
use back_costa_turnos.WaitingRoom.{Day}
use back_costa_turnos.Booking.{Slot}

abbrev pub service_with : ℕ → ℕ → Service
service_with id price = record {
  id = id;
  comercio_id = 3;
  name = "Corte";
  duration_minutes = 30;
  price_cents = price;
  allow_deposit = true;
  allow_full_payment = true;
  allow_no_payment = true;
  allow_cash = true;
  allow_transfer = true;
  vat_percent = none;
  vat_charged_to_client = none;
  deposit_amount_cents = some 3000;
  capacity = 2;
  is_active = true;
}

abbrev pub haircut : Service
haircut = service_with 7 10000

abbrev pub wash : Service
wash = service_with 8 4000

abbrev pub barber : Professional
barber = record {
  id = 1;
  account_id = 100;
  default_vat_percent = 2100;
  vat_charged_to_client = true;
  mp_user_id = none;
  mp_connected_at = some 5;
  mp_access_token = some 77;
  mp_refresh_token = none;
  mp_token_expires_at = none;
}

abbrev pub membership : Membership
membership = record {
  id = 4;
  professional_id = 1;
  comercio_id = 3;
  status = MembershipStatus.active;
  min_booking_hours = 0;
  max_booking_days = 0;
  allow_provisional_bookings = true;
  walk_in_only = false;
  waiting_room_enabled = true;
  waiting_room_self_check_in = true;
  waiting_room_status = WaitingRoomStatus.opened;
}

abbrev pub ana : Person
ana = record { id = 20; full_name = "Ana"; email = some 55; phone = none; account_id = none }

abbrev pub visit : ℕ → AppointmentStatus → Bool → Option ℕ → Option ℕ → Appointment
visit id status is_provisional arrived_at ticket = record {
  id = id;
  professional_id = 1;
  comercio_id = 3;
  membership_id = 4;
  staff_id = 6;
  person_id = 20;
  service_id = 7;
  start_at = 1000000;
  end_at = 2800000;
  status = status;
  is_provisional = is_provisional;
  cancellation_reason = none;
  actual_start_at = none;
  checked_in_at = arrived_at;
  ticket_number = ticket;
  queue_rank = arrived_at;
  is_priority = false;
  called_at = none;
  call_count = 0;
  away_until = none;
  away_count = 0;
  completed_at = none;
  notified_second_at = none;
  notified_next_at = none;
  public_token = none;
  created_via = CreatedVia.professional;
}

-- Expected, provisional, and two who wait.
abbrev pub expected : Appointment
expected = visit 30 AppointmentStatus.confirmed false none none

abbrev pub provisional : Appointment
provisional = visit 31 AppointmentStatus.confirmed true none none

abbrev pub first_in : Appointment
first_in = visit 32 AppointmentStatus.confirmed false (some 900000) (some 1)

abbrev pub second_in : Appointment
second_in = visit 33 AppointmentStatus.confirmed false (some 950000) (some 2)

abbrev pub cash_payment : Payment
cash_payment = record {
  id = 40;
  professional_id = 1;
  appointment_id = some 30;
  person_id = 20;
  type = PaymentType.service;
  amount_cents = 10000;
  vat_percent = 0;
  vat_amount_cents = 0;
  method = PaymentMethod.cash;
  status = PaymentStatus.pending;
  mercadopago_ref = none;
  paid_at = none;
  note = none;
}

abbrev pub online_payment : Payment
online_payment = record {
  id = 41;
  professional_id = 1;
  appointment_id = none;
  person_id = 20;
  type = PaymentType.deposit;
  amount_cents = 3630;
  vat_percent = 2100;
  vat_amount_cents = 630;
  method = PaymentMethod.mercado_pago;
  status = PaymentStatus.paid;
  mercadopago_ref = none;
  paid_at = some 6;
  note = none;
}

abbrev pub hold : PendingBooking
hold = record {
  id = 50;
  professional_id = 1;
  comercio_id = 3;
  membership_id = 4;
  staff_id = 6;
  person_id = 20;
  service_id = 7;
  start_at = 1000000;
  end_at = 2800000;
  payment_id = 41;
  amount_cents = 3630;
  payment_type = PaymentType.deposit;
  payment_option = PaymentOption.deposit;
  expires_at = 960000;
  addon_data = [];
}

abbrev pub enabling : ServiceCombinationRule
enabling = record {
  id = 60;
  membership_id = 4;
  source_service_id = 7;
  target_service_id = 8;
  rule_type = enables;
  description = none;
  discount_amount_cents = none;
  discount_type = none;
}

abbrev pub catalog : Tables
catalog = record {
  rules = enabling ∷ [];
  service_memberships =
      record { service_id = 7; membership_id = 4; service = some haircut }
      ∷ record { service_id = 8; membership_id = 4; service = some wash }
      ∷ [];
}

-- Every Monday from one to three in the night, with appointments.
abbrev pub mornings : ScheduleRule
mornings = record {
  id = 80;
  staff_id = 6;
  membership_id = 4;
  day_of_week = 1;
  start_time = record { minute = 60; seconds = some 0 };
  end_time = record { minute = 180; seconds = some 0 };
  kind = work;
  attendance_mode = appointment;
}

abbrev pub agenda : List Appointment → Db
agenda appointments = record {
  appointments = appointments;
  pending_bookings = hold ∷ [];
  payments = cash_payment ∷ online_payment ∷ [];
  addons = [];
  professional_clients = [];
  persons = ana ∷ [];
  notifications = [];
  audit_logs = [];
  services = haircut ∷ wash ∷ [];
  professionals = barber ∷ [];
  memberships = membership ∷ [];
  combination = catalog;
  comercios = record { id = 3; timezone = 0 } ∷ [];
  staff = record { id = 6; professional_id = 1 } ∷ [];
  schedule_rules = mornings ∷ [];
  schedule_rule_services = [];
  time_offs = [];
  subscriptions = [];
}

abbrev pub slot : Slot
slot = record {
  professional_id = 1;
  comercio_id = 3;
  membership_id = 4;
  staff_id = 6;
  person_id = 20;
  service_id = 7;
  start_at = 1000000;
  end_at = 2800000;
}

abbrev pub today : Day
today = record { start = 0; end_of = 86399999 }

-- A provider that is connected and whose checkout fails.
abbrev pub offline : Provider
offline = record {
  is_configured = true;
  create_preference = λ _ _ _ _. none;
  oauth_is_configured = false;
  refresh = λ _. none;
  marketplace_fee_percent = 5;
}
