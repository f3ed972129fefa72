-- ===== src/Store/Db.antt =====
-- The tables of the appointments, the payments and the room, and the calls on them.
use back_costa_turnos.Base.{List}
pub use back_costa_turnos.Store.Call.{
  pure, throw, query, gets, transaction, ◌>>=◌, ◌>>◌, modify, raise_if, or_raise, >>=-of_ok,
}
use back_costa_turnos.Store.Call.{Call}
use back_costa_turnos.Store.Rows.{
  Appointment, PendingBooking, Payment, AppointmentAddon, ProfessionalClient, Person, Notification,
  AuditLog, Service, Professional, Membership, Comercio, Staff, ScheduleRule, ScheduleRuleService,
  TimeOff,
}
use back_costa_turnos.Combination.{Tables}
use back_costa_turnos.Subscriptions.{Subscription}

pub record Db : Type 0 where
  pub appointments : List Appointment
  pub pending_bookings : List PendingBooking
  pub payments : List Payment
  pub addons : List AppointmentAddon
  pub professional_clients : List ProfessionalClient
  pub persons : List Person
  pub notifications : List Notification
  pub audit_logs : List AuditLog
  pub services : List Service
  pub professionals : List Professional
  pub memberships : List Membership
  pub combination : Tables
  pub comercios : List Comercio
  pub staff : List Staff
  pub schedule_rules : List ScheduleRule
  pub schedule_rule_services : List ScheduleRuleService
  pub time_offs : List TimeOff
  pub subscriptions : List Subscription

abbrev pub Action : Type 0 → Type 0
Action = Call Db
