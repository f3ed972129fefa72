-- ===== src/Enums.antt =====
-- src/common/enums/index.ts: the enums that the modelled components use, each with the number by
-- which `===` is decided.
use back_costa_turnos.Base.{ℕ, Coded}

pub data MembershipStatus : Type 0 where
  invited active inactive : MembershipStatus

pub data AppointmentStatus : Type 0 where
  requested confirmed in_progress done no_show cancelled : AppointmentStatus

pub data CancellationReason : Type 0 where
  client professional bumped no_show : CancellationReason

pub data CreatedVia : Type 0 where
  client_self professional walk_in : CreatedVia

pub data WaitingRoomStatus : Type 0 where
  opened paused closed : WaitingRoomStatus

pub data PaymentType : Type 0 where
  deposit service : PaymentType

pub data PaymentOption : Type 0 where
  deposit full : PaymentOption

pub data PaymentMethod : Type 0 where
  cash mercado_pago transfer : PaymentMethod

pub data PaymentStatus : Type 0 where
  pending paid deferred refunded failed : PaymentStatus

pub data CashOutcome : Type 0 where
  collected deferred : CashOutcome

pub data CombinationRuleType : Type 0 where
  enables excludes discount free_with : CombinationRuleType

pub data DiscountType : Type 0 where
  percentage fixed : DiscountType

pub data ScheduleRuleKind : Type 0 where
  work break : ScheduleRuleKind

pub data AttendanceMode : Type 0 where
  appointment walk_in : AttendanceMode

pub data TimeOffType : Type 0 where
  holiday vacation block : TimeOffType

pub data SubscriptionStatus : Type 0 where
  trial active past_due grace blocked cancelled : SubscriptionStatus

pub data SubscriptionPaymentStatus : Type 0 where
  paid failed : SubscriptionPaymentStatus

pub data NotificationType : Type 0 where
  reminder waitlist bumped deposit subscription rescheduled : NotificationType

abbrev membership_status_code : MembershipStatus → ℕ
membership_status_code MembershipStatus.invited = 0
membership_status_code MembershipStatus.active = 1
membership_status_code MembershipStatus.inactive = 2

instance abbrev pub membership_status_coded : Coded MembershipStatus
membership_status_coded = record { code = membership_status_code }

abbrev appointment_status_code : AppointmentStatus → ℕ
appointment_status_code AppointmentStatus.requested = 0
appointment_status_code AppointmentStatus.confirmed = 1
appointment_status_code AppointmentStatus.in_progress = 2
appointment_status_code AppointmentStatus.done = 3
appointment_status_code AppointmentStatus.no_show = 4
appointment_status_code AppointmentStatus.cancelled = 5

instance abbrev pub appointment_status_coded : Coded AppointmentStatus
appointment_status_coded = record { code = appointment_status_code }

abbrev created_via_code : CreatedVia → ℕ
created_via_code CreatedVia.client_self = 0
created_via_code CreatedVia.professional = 1
created_via_code CreatedVia.walk_in = 2

instance abbrev pub created_via_coded : Coded CreatedVia
created_via_coded = record { code = created_via_code }

abbrev waiting_room_status_code : WaitingRoomStatus → ℕ
waiting_room_status_code opened = 0
waiting_room_status_code paused = 1
waiting_room_status_code closed = 2

instance abbrev pub waiting_room_status_coded : Coded WaitingRoomStatus
waiting_room_status_coded = record { code = waiting_room_status_code }

abbrev payment_option_code : PaymentOption → ℕ
payment_option_code PaymentOption.deposit = 0
payment_option_code PaymentOption.full = 1

instance abbrev pub payment_option_coded : Coded PaymentOption
payment_option_coded = record { code = payment_option_code }

abbrev payment_method_code : PaymentMethod → ℕ
payment_method_code cash = 0
payment_method_code mercado_pago = 1
payment_method_code transfer = 2

instance abbrev pub payment_method_coded : Coded PaymentMethod
payment_method_coded = record { code = payment_method_code }

abbrev payment_status_code : PaymentStatus → ℕ
payment_status_code PaymentStatus.pending = 0
payment_status_code PaymentStatus.paid = 1
payment_status_code PaymentStatus.deferred = 2
payment_status_code PaymentStatus.refunded = 3
payment_status_code PaymentStatus.failed = 4

instance abbrev pub payment_status_coded : Coded PaymentStatus
payment_status_coded = record { code = payment_status_code }

abbrev rule_type_code : CombinationRuleType → ℕ
rule_type_code enables = 0
rule_type_code excludes = 1
rule_type_code discount = 2
rule_type_code free_with = 3

instance abbrev pub rule_type_coded : Coded CombinationRuleType
rule_type_coded = record { code = rule_type_code }

abbrev discount_type_code : DiscountType → ℕ
discount_type_code percentage = 0
discount_type_code fixed = 1

instance abbrev pub discount_type_coded : Coded DiscountType
discount_type_coded = record { code = discount_type_code }

abbrev subscription_status_code : SubscriptionStatus → ℕ
subscription_status_code trial = 0
subscription_status_code SubscriptionStatus.active = 1
subscription_status_code past_due = 2
subscription_status_code grace = 3
subscription_status_code blocked = 4
subscription_status_code SubscriptionStatus.cancelled = 5

instance abbrev pub subscription_status_coded : Coded SubscriptionStatus
subscription_status_coded = record { code = subscription_status_code }

abbrev schedule_rule_kind_code : ScheduleRuleKind → ℕ
schedule_rule_kind_code work = 0
schedule_rule_kind_code break = 1

instance abbrev pub schedule_rule_kind_coded : Coded ScheduleRuleKind
schedule_rule_kind_coded = record { code = schedule_rule_kind_code }

abbrev attendance_mode_code : AttendanceMode → ℕ
attendance_mode_code appointment = 0
attendance_mode_code AttendanceMode.walk_in = 1

instance abbrev pub attendance_mode_coded : Coded AttendanceMode
attendance_mode_coded = record { code = attendance_mode_code }
