-- ===== src/Store/Rows.antt =====
-- The entities: appointment.entity.ts, payment.entity.ts, pending-booking.entity.ts,
-- appointment-addon.entity.ts, service.entity.ts and membership.entity.ts. Columns that no modelled
-- code reads (relations, photos, descriptions, timestamps of the row) are left out.
use Prim.Native.String.{String}
use back_costa_turnos.Base.{ℕ, Bool, Option, List}
use back_costa_turnos.Enums.{
  AppointmentStatus, CancellationReason, MembershipStatus, CreatedVia, WaitingRoomStatus,
  PaymentType, PaymentOption, PaymentMethod, PaymentStatus, NotificationType, ScheduleRuleKind,
  AttendanceMode, TimeOffType,
}

pub record Appointment : Type 0 where
  pub id : ℕ
  pub professional_id : ℕ
  pub comercio_id : ℕ
  pub membership_id : ℕ
  pub staff_id : ℕ
  pub person_id : ℕ
  pub service_id : ℕ
  pub start_at : ℕ
  pub end_at : ℕ
  pub status : AppointmentStatus
  pub is_provisional : Bool
  pub cancellation_reason : Option CancellationReason
  pub actual_start_at : Option ℕ
  pub checked_in_at : Option ℕ
  pub ticket_number : Option ℕ
  pub queue_rank : Option ℕ
  pub is_priority : Bool
  pub called_at : Option ℕ
  pub call_count : ℕ
  pub away_until : Option ℕ
  pub away_count : ℕ
  pub completed_at : Option ℕ
  pub notified_second_at : Option ℕ
  pub notified_next_at : Option ℕ
  pub public_token : Option ℕ
  pub created_via : CreatedVia

pub record Payment : Type 0 where
  pub id : ℕ
  pub professional_id : ℕ
  pub appointment_id : Option ℕ
  pub person_id : ℕ
  pub type : PaymentType
  pub amount_cents : ℕ
  pub vat_percent : ℕ
  pub vat_amount_cents : ℕ
  pub method : PaymentMethod
  pub status : PaymentStatus
  pub mercadopago_ref : Option ℕ
  pub paid_at : Option ℕ
  pub note : Option String

pub record AddonBookingSnapshot : Type 0 where
  pub service_id : ℕ
  pub service_name_snapshot : String
  pub price_at_booking_cents : ℕ
  pub discount_applied_cents : ℕ
  pub is_free : Bool

pub record AppointmentAddon : Type 0 where
  pub appointment_id : ℕ
  pub service_id : ℕ
  pub professional_id : ℕ
  pub service_name_snapshot : String
  pub price_at_booking_cents : ℕ
  pub discount_applied_cents : ℕ
  pub is_free : Bool

pub record PendingBooking : Type 0 where
  pub id : ℕ
  pub professional_id : ℕ
  pub comercio_id : ℕ
  pub membership_id : ℕ
  pub staff_id : ℕ
  pub person_id : ℕ
  pub service_id : ℕ
  pub start_at : ℕ
  pub end_at : ℕ
  pub payment_id : ℕ
  pub amount_cents : ℕ
  pub payment_type : PaymentType
  pub payment_option : PaymentOption
  pub expires_at : ℕ
  pub addon_data : List AddonBookingSnapshot

-- A percentage with two decimals (`numeric(5, 2)`) is held in hundredths of a percent.
pub record Service : Type 0 where
  pub id : ℕ
  pub comercio_id : ℕ
  pub name : String
  pub duration_minutes : ℕ
  pub price_cents : ℕ
  pub allow_deposit : Bool
  pub allow_full_payment : Bool
  pub allow_no_payment : Bool
  pub allow_cash : Bool
  pub allow_transfer : Bool
  pub vat_percent : Option ℕ
  pub vat_charged_to_client : Option Bool
  pub deposit_amount_cents : Option ℕ
  pub capacity : ℕ
  pub is_active : Bool

pub record Professional : Type 0 where
  pub id : ℕ
  pub account_id : ℕ
  pub default_vat_percent : ℕ
  pub vat_charged_to_client : Bool
  pub mp_user_id : Option ℕ
  pub mp_connected_at : Option ℕ
  pub mp_access_token : Option ℕ
  pub mp_refresh_token : Option ℕ
  pub mp_token_expires_at : Option ℕ

pub record Membership : Type 0 where
  pub id : ℕ
  pub professional_id : ℕ
  pub comercio_id : ℕ
  pub status : MembershipStatus
  pub min_booking_hours : ℕ
  pub max_booking_days : ℕ
  pub allow_provisional_bookings : Bool
  pub walk_in_only : Bool
  pub waiting_room_enabled : Bool
  pub waiting_room_self_check_in : Bool
  pub waiting_room_status : WaitingRoomStatus

pub record ProfessionalClient : Type 0 where
  pub professional_id : ℕ
  pub person_id : ℕ

-- Addresses and numbers are only compared.
pub record Person : Type 0 where
  pub id : ℕ
  pub full_name : String
  pub email : Option ℕ
  pub phone : Option ℕ
  pub account_id : Option ℕ

-- A queued notification: whom it is for, of what type, and the appointment that it is about.
pub record Notification : Type 0 where
  pub professional_id : ℕ
  pub person_id : Option ℕ
  pub type : NotificationType
  pub subject : ℕ

pub data AuditAction : Type 0 where
  mp_qr mp_paid mark_paid mark_deferred superseded revert : AuditAction

-- An entry of `audit_log` about a payment; of the metadata, the amount and the status before.
pub record AuditLog : Type 0 where
  pub account_id : Option ℕ
  pub professional_id : ℕ
  pub action : AuditAction
  pub entity_id : ℕ
  pub amount_cents : ℕ
  pub previous_status : Option PaymentStatus

pub record Comercio : Type 0 where
  pub id : ℕ
  pub timezone : ℕ

pub record Staff : Type 0 where
  pub id : ℕ
  pub professional_id : ℕ

-- A time of day as text, `HH:mm` or `HH:mm:ss`: its minute of the day, and the seconds if it has them.
pub record Clock : Type 0 where
  pub minute : ℕ
  pub seconds : Option ℕ

-- `day_of_week` counts from 0, Sunday.
pub record ScheduleRule : Type 0 where
  pub id : ℕ
  pub staff_id : ℕ
  pub membership_id : ℕ
  pub day_of_week : ℕ
  pub start_time : Clock
  pub end_time : Clock
  pub kind : ScheduleRuleKind
  pub attendance_mode : AttendanceMode

pub record ScheduleRuleService : Type 0 where
  pub schedule_rule_id : ℕ
  pub service_id : ℕ

pub record TimeOff : Type 0 where
  pub id : ℕ
  pub staff_id : ℕ
  pub membership_id : ℕ
  pub start_at : ℕ
  pub end_at : ℕ
  pub type : TimeOffType
  pub reason : Option String
