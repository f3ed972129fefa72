-- ===== src/Availability.antt =====
-- The hours of an agenda: src/modules/availability/availability.service.ts. This file has the calendar,
-- the times of day, the services of a rule and the windows without appointments.
--
-- The calendar is luxon's, a parameter: a day of the zone of a comercio is a number, and the days of a
-- range follow one another.
pub mod Rules
pub mod Restored
pub mod Days
pub mod DaySummary
pub mod Summaries
pub mod ServiceDays
pub mod Slots
pub mod Inputs
pub mod Hours
pub mod Offered
pub mod Numbers
pub mod Free
pub mod Bookable
pub mod Promise
use back_costa_turnos.Base.{
  ℕ, ◌+◌, ◌%◌, ◌≤◌, ◌<◌, ◌≡◌, Bool, true, false, not, ◌&&◌, ◌||◌, Option, none, some, List, [], ◌∷◌,
  map, ltb, leb, nat_beq, if◌then◌else◌, ◌==◌, nat_coded, or_else, filter, find?, any, length,
}
use back_costa_turnos.Base.Http.{Result, ok, not_found}
use back_costa_turnos.Enums.{
  ScheduleRuleKind, AttendanceMode, work, break, schedule_rule_kind_coded, attendance_mode_coded,
  MembershipStatus, membership_status_coded,
}
use back_costa_turnos.Store.Rows.{
  Comercio, Membership, Staff, Clock, ScheduleRule, ScheduleRuleService, Service, TimeOff,
}
use back_costa_turnos.Store.Table.{find_key, membership_row, comercio_row, service_row}
use back_costa_turnos.Store.Db.{Db, Action, pure, gets, ◌>>=◌, ◌>>◌, or_raise}

-- An instant in a zone: its day, and its minute of the day.
pub record Local : Type 0 where
  pub day : ℕ
  pub minute : ℕ

-- What luxon computes: the day and minute of an instant, the instant of a minute of a day, the ends of
-- a day, the weekday (from 1, Monday), and whether two intervals overlap, given by their ends.
pub record Luxon : Type 0 where
  pub local : ℕ → Local
  pub at : ℕ → ℕ → ℕ
  pub start_of : ℕ → ℕ
  pub end_of : ℕ → ℕ
  pub weekday : ℕ → ℕ
  pub overlaps : ℕ → ℕ → ℕ → ℕ → Bool

-- `day.weekday % 7`: 0 is Sunday.
abbrev pub day_of_week : Luxon → ℕ → ℕ
day_of_week luxon day = luxon.weekday day % 7

-- `a < b` on the texts of two times of day: `09:00` is before `09:00:00`.
unfoldable pub text_before : Clock → Clock → Bool
text_before a b =
    ltb a.minute b.minute || (nat_beq a.minute b.minute && seconds_before a.seconds b.seconds)
  where
    seconds_before : Option ℕ → Option ℕ → Bool
    seconds_before none none = false
    seconds_before none (some t) = true
    seconds_before (some s) none = false
    seconds_before (some s) (some t) = ltb s t

-- What a column of type `time` gives back.
abbrev pub stored : Clock → Clock
stored c = record { minute = c.minute; seconds = some (or_else c.seconds 0) }

-- `ComerciosService.getMembershipById`, `getComercio` and `listMembershipIds`
unfoldable pub get_membership_by_id : ℕ → Action Membership
get_membership_by_id membership_id = do
  or_raise (← gets (λ db. find_key membership_id db.memberships)) not_found

unfoldable pub get_comercio : ℕ → Action Comercio
get_comercio comercio_id = do or_raise (← gets (λ db. find_key comercio_id db.comercios)) not_found

abbrev pub is_membership_of : ℕ → Membership → Bool
is_membership_of professional_id m =
    m.professional_id == professional_id && m.status == MembershipStatus.active

unfoldable pub staff_of : ℕ → Action Staff
staff_of professional_id = do
  or_raise (← gets (λ db. find? (λ s. s.professional_id == professional_id) db.staff)) not_found

-- The services that a rule is directed at: the entry of `serviceIdsByRule`, empty if it has none.
unfoldable pub services_of_rule : Db → ℕ → List ℕ
services_of_rule db rule_id =
    map (λ row. row.service_id)
      (filter (λ row. row.schedule_rule_id == rule_id) db.schedule_rule_services)

abbrev pub is_empty : {A : Type 0} → List A → Bool
is_empty [] = true
is_empty (x ∷ xs) = false

-- A rule with no services is for all of them.
unfoldable pub applies_to : Db → ℕ → ScheduleRule → Bool
applies_to db service_id rule =
    is_empty (services_of_rule db rule.id)
    || any (λ s. s == service_id) (services_of_rule db rule.id)

abbrev pub is_walk_in_rule : ScheduleRule → Membership → Bool
is_walk_in_rule rule m = m.walk_in_only || rule.attendance_mode == AttendanceMode.walk_in

-- Whether a minute of a day lies in the window of a rule, `startTime <= hhmm && hhmm < endTime`.
abbrev pub in_window : ℕ → ScheduleRule → Bool
in_window minute rule = leb rule.start_time.minute minute && ltb minute rule.end_time.minute

abbrev pub is_walk_in_window : ℕ → ℕ → ScheduleRule → Bool
is_walk_in_window membership_id dow rule =
    rule.membership_id == membership_id
    && (rule.kind == work
        && (rule.attendance_mode == AttendanceMode.walk_in && rule.day_of_week == dow))

unfoldable pub walk_in_in : Db → ℕ → ℕ → ℕ → ℕ → Bool
unfolding applies_to
walk_in_in db membership_id service_id dow minute =
    any (λ rule. applies_to db service_id rule && in_window minute rule)
      (filter (is_walk_in_window membership_id dow) db.schedule_rules)

-- `zones` is the calendar of each time zone.
module _ (zones : ℕ → Luxon) where
  unfoldable pub is_walk_in_local : Membership → ℕ → ℕ → Action Bool
  unfolding get_comercio walk_in_in
  is_walk_in_local m service_id t = do
    comercio ← get_comercio m.comercio_id
    let luxon = zones comercio.timezone
    gets (λ db.
        walk_in_in db m.id service_id (day_of_week luxon (luxon.local t).day)
          (luxon.local t).minute)

  unfoldable pub is_walk_in_at : Membership → ℕ → ℕ → Action Bool
  unfolding is_walk_in_local
  is_walk_in_at m service_id t =
      if m.walk_in_only then pure true else is_walk_in_local m service_id t
