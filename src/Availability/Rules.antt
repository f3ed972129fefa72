-- ===== src/Availability/Rules.antt =====
-- The rules of an agenda and its time off, written by the professional:
-- src/modules/availability/availability.service.ts.
use back_costa_turnos.Base.{
  ℕ, Bool, not, ◌&&◌, Option, none, some, List, [], ◌∷◌, ◌++◌, map, leb, if◌then◌else◌, ◌==◌,
  nat_coded, or_else, filter, find?, any, length,
}
use Prim.Native.String.{String}
use back_costa_turnos.Base.Http.{not_found, bad_request}
use back_costa_turnos.Enums.{
  ScheduleRuleKind, AttendanceMode, TimeOffType, block, work, break, appointment,
  schedule_rule_kind_coded, attendance_mode_coded,
}
use back_costa_turnos.Store.Rows.{Clock, ScheduleRule, ScheduleRuleService, TimeOff}
use back_costa_turnos.Store.Table.{save, delete_where, schedule_rule_row, time_off_row}
use back_costa_turnos.Store.Db.{Db, Action, pure, gets, ◌>>=◌, ◌>>◌, modify, raise_if, or_raise}
use back_costa_turnos.Combination.{unique, contains}
use back_costa_turnos.Availability.{
  text_before, stored, get_membership_by_id, staff_of, services_of_rule,
}

pub record RuleDto : Type 0 where
  pub day_of_week : ℕ
  pub start_time : Clock
  pub end_time : Clock
  pub kind : Option ScheduleRuleKind
  pub attendance_mode : Option AttendanceMode
  pub service_ids : Option (List ℕ)

pub record RuleChange : Type 0 where
  pub day_of_week : Option ℕ
  pub start_time : Option Clock
  pub end_time : Option Clock
  pub kind : Option ScheduleRuleKind
  pub attendance_mode : Option AttendanceMode
  pub service_ids : Option (List ℕ)

-- A rule with the services that it is directed at.
pub record RuleWithServices : Type 0 where
  pub rule : ScheduleRule
  pub service_ids : List ℕ

-- `CatalogService.filterAssignedServiceIds`
unfoldable pub filter_assigned : ℕ → List ℕ → Db → List ℕ
filter_assigned membership_id ids db =
    map (λ sm. sm.service_id)
      (filter (λ sm. sm.membership_id == membership_id && contains ids sm.service_id)
        db.combination.service_memberships)

unfoldable pub validate_rule_services : ℕ → List ℕ → Action (List ℕ)
validate_rule_services membership_id [] = pure []
validate_rule_services membership_id (id ∷ ids) = do
  let kept = unique (id ∷ ids)
  assigned ← gets (filter_assigned membership_id kept)
  raise_if (not (length assigned == length kept)) bad_request
  pure kept

abbrev pub link : ℕ → ℕ → ScheduleRuleService
link rule_id service_id = record { schedule_rule_id = rule_id; service_id = service_id }

unfoldable pub save_rule_services : ℕ → List ℕ → Action (Unit {0})
save_rule_services rule_id ids =
    modify λ db. record db {
      schedule_rule_services = db.schedule_rule_services ++ map (link rule_id) ids;
    }

-- The columns of the times give them back with seconds.
abbrev pub as_stored : ScheduleRule → ScheduleRule
as_stored rule = record rule {
  start_time = stored rule.start_time;
  end_time = stored rule.end_time;
}

unfoldable pub save_rule : ScheduleRule → Action (Unit {0})
save_rule rule = modify λ db. record db { schedule_rules = save (as_stored rule) db.schedule_rules }

abbrev pub mode_for : ScheduleRuleKind → AttendanceMode → AttendanceMode
mode_for kind mode = if kind == work then mode else appointment

unfoldable pub rule_of : ℕ → ℕ → ℕ → RuleDto → ScheduleRule
rule_of id membership_id staff_id dto = record {
  id = id;
  staff_id = staff_id;
  membership_id = membership_id;
  day_of_week = dto.day_of_week;
  start_time = dto.start_time;
  end_time = dto.end_time;
  kind = or_else dto.kind work;
  attendance_mode = mode_for (or_else dto.kind work) (or_else dto.attendance_mode appointment);
}

-- `id` is the key of the new row.
unfoldable pub create_rule : ℕ → ℕ → RuleDto → Action RuleWithServices
unfolding get_membership_by_id staff_of validate_rule_services save_rule save_rule_services
create_rule id membership_id dto = do
  raise_if (not (text_before dto.start_time dto.end_time)) bad_request
  m ← get_membership_by_id membership_id
  chair ← staff_of m.professional_id
  service_ids ← validate_rule_services membership_id (or_else dto.service_ids [])
  let rule = rule_of id membership_id chair.id dto
  save_rule rule
  save_rule_services id service_ids
  pure (record { rule = rule; service_ids = service_ids })

abbrev pub owned_rule : ℕ → ℕ → ScheduleRule → Bool
owned_rule membership_id id rule = rule.id == id && rule.membership_id == membership_id

unfoldable pub changed : RuleChange → ScheduleRule → ScheduleRule
changed dto rule =
    let kind = or_else dto.kind rule.kind in
    record rule {
      day_of_week = or_else dto.day_of_week rule.day_of_week;
      start_time = or_else dto.start_time rule.start_time;
      end_time = or_else dto.end_time rule.end_time;
      kind = kind;
      attendance_mode =
          if kind == break then appointment else or_else dto.attendance_mode rule.attendance_mode;
    }

unfoldable pub replace_services : ℕ → ℕ → Option (List ℕ) → Action (List ℕ)
unfolding validate_rule_services save_rule_services
replace_services membership_id id none = gets (λ db. services_of_rule db id)
replace_services membership_id id (some ids) = do
  service_ids ← validate_rule_services membership_id ids
  modify λ db. record db {
    schedule_rule_services =
        delete_where (λ row. row.schedule_rule_id == id) db.schedule_rule_services;
  }
  save_rule_services id service_ids
  pure service_ids

unfoldable pub update_rule : ℕ → ℕ → RuleChange → Action RuleWithServices
unfolding save_rule replace_services
update_rule membership_id id dto = do
  found ← gets (λ db. find? (owned_rule membership_id id) db.schedule_rules)
  rule ← or_raise found not_found
  raise_if
      (not
        (text_before (or_else dto.start_time rule.start_time) (or_else dto.end_time rule.end_time)))
      bad_request
  save_rule (changed dto rule)
  service_ids ← replace_services membership_id id dto.service_ids
  pure (record { rule = changed dto rule; service_ids = service_ids })

-- The rows of the services go with the rule (`onDelete: CASCADE`).
unfoldable pub delete_rule : ℕ → ℕ → Action (Unit {0})
delete_rule membership_id id = do
  known ← gets (λ db. any (owned_rule membership_id id) db.schedule_rules)
  modify λ db. record db {
    schedule_rules = delete_where (owned_rule membership_id id) db.schedule_rules;
    schedule_rule_services =
        delete_where (λ row. known && row.schedule_rule_id == id) db.schedule_rule_services;
  }
  raise_if (not known) not_found

pub record TimeOffDto : Type 0 where
  pub start_at : ℕ
  pub end_at : ℕ
  pub type : Option TimeOffType
  pub reason : Option String

unfoldable pub create_time_off : ℕ → ℕ → TimeOffDto → Action TimeOff
unfolding get_membership_by_id staff_of
create_time_off id membership_id dto = do
  m ← get_membership_by_id membership_id
  chair ← staff_of m.professional_id
  raise_if (leb dto.end_at dto.start_at) bad_request
  let row : TimeOff = record {
    id = id;
    staff_id = chair.id;
    membership_id = membership_id;
    start_at = dto.start_at;
    end_at = dto.end_at;
    type = or_else dto.type block;
    reason = dto.reason;
  }
  modify λ db. record db { time_offs = save row db.time_offs }
  pure row

abbrev pub owned_time_off : ℕ → ℕ → TimeOff → Bool
owned_time_off membership_id id t = t.id == id && t.membership_id == membership_id

unfoldable pub delete_time_off : ℕ → ℕ → Action (Unit {0})
delete_time_off membership_id id = do
  known ← gets (λ db. any (owned_time_off membership_id id) db.time_offs)
  modify λ db. record db { time_offs = delete_where (owned_time_off membership_id id) db.time_offs }
  raise_if (not known) not_found
