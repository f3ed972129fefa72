-- ===== src/Tests/Hours.antt =====
-- A calendar without time zones, and the slots of the agenda's membership.
use back_costa_turnos.Store.Db.{Db}
use back_costa_turnos.Base.{
  none, ◌+◌, ◌*◌, ◌/◌, ◌%◌, ◌≡◌, ◌↔◌, refl, some, List, [], ◌∷◌, arith, length, sum_by, All, In,
}
use back_costa_turnos.Base.Http.{ok, err, bad_request}
use back_costa_turnos.Store.Table.{
  find_key, membership_row, comercio_row, service_row, schedule_rule_row,
}
use back_costa_turnos.Booking.{meets}
use back_costa_turnos.Availability.{Luxon}
use back_costa_turnos.Availability.{text_before}
use back_costa_turnos.Combination.{unique}
use back_costa_turnos.Availability.Rules.{
  RuleDto, RuleChange, RuleWithServices, create_rule, delete_rule, update_rule, as_stored, changed,
  validate_rule_services, filter_assigned,
}
use back_costa_turnos.Availability.Restored.{delete_rule-create_rule, update_rule-half_made}
use back_costa_turnos.Availability.Slots.{
  AvailableSlot, BuildSlotsArgs, SlotsWithCounts, build_slots_with_counts,
}
use back_costa_turnos.Availability.Inputs.{compute_slots_by_membership}
use back_costa_turnos.Availability.Offered.{Offers, build_slots_with_counts-Offers}
use back_costa_turnos.Availability.Numbers.{IsCounted, build_slots_with_counts-counts}
use back_costa_turnos.Availability.Bookable.{IsCalendar}
use back_costa_turnos.Availability.Promise.{
  Loaded, IsSteady, IsAccepted, compute_slots_by_membership-IsAccepted,
}
use back_costa_turnos.Tests.{agenda, mornings, membership, haircut}

-- Day 0 is a Sunday.
abbrev pub plain : Luxon
plain = record {
  local = λ t. record { day = t / 86_400_000; minute = t % 86_400_000 / 60_000 };
  at = λ day minute. day * 86_400_000 + minute * 60_000;
  start_of = λ day. day * 86_400_000;
  end_of = λ day. day * 86_400_000 + 86_399_999;
  weekday = λ day. (day + 6) % 7 + 1;
  overlaps = meets;
}

pub plain-IsCalendar : IsCalendar plain
plain-IsCalendar = record {
  overlaps_meets = λ s e a b p q. refl;
  after_start = λ first day minute h. omega (arith, h);
  before_end = λ day last minute h q. omega (arith, h, q);
}

pub plain-IsSteady : IsSteady plain
plain-IsSteady = record {
  same_day = λ day a b t h p q. omega (arith, h, p, q);
  not_before = λ t minute h. omega (arith, h);
  before = λ t minute h. omega (arith, h);
}

-- The Monday, from one to three in the night, for visits of half an hour.
abbrev monday : BuildSlotsArgs
monday = record {
  range_start = 1;
  range_end = 1;
  duration = 30;
  target_service_id = 7;
  capacity = 2;
  work_by_day = λ dow. mornings ∷ [];
  breaks_by_day = λ dow. [];
  time_offs = [];
  busy = [];
  min_booking_hours = 0;
  max_booking_days = 0;
}

build_slots_with_counts-Offers_example :
    (found : SlotsWithCounts) × (build_slots_with_counts plain 0 monday ≡ some found)
    × ((slot : AvailableSlot) → In slot found.slots ↔ Offers plain 0 monday slot)
build_slots_with_counts-Offers_example = build_slots_with_counts-Offers plain 0 monday (omega arith)

build_slots_with_counts-counts_example :
    (found : SlotsWithCounts) × (build_slots_with_counts plain 0 monday ≡ some found)
    × All (IsCounted plain 0 monday 1 1) found.counts_by_day
    × (length found.slots ≡ sum_by (λ d. d.counts.free) found.counts_by_day)
build_slots_with_counts-counts_example = build_slots_with_counts-counts plain 0 monday (omega arith)

-- The four half hours.
monday_slots :
    build_slots_with_counts plain 0 monday
    ≡ some (record {
      slots =
          record { start_at = 90_000_000; end_at = 91_800_000 }
          ∷ record { start_at = 91_800_000; end_at = 93_600_000 }
          ∷ record { start_at = 93_600_000; end_at = 95_400_000 }
          ∷ record { start_at = 95_400_000; end_at = 97_200_000 }
          ∷ [];
      counts_by_day = record { date = 1; counts = record { free = 4; total = 4 } } ∷ [];
    })
unfolding build_slots_with_counts
monday_slots = refl

unfoldable pub loaded : Loaded (agenda []) 4 7
unfolding find_key
loaded = record {
  m = membership;
  comercio = record { id = 3; timezone = 0 };
  service = haircut;
  has_membership = refl;
  has_comercio = refl;
  has_service = refl;
  assigned = refl;
  lasts = omega arith;
  times = (omega arith, tt);
}

compute_slots_by_membership-IsAccepted_example :
    (slots : List AvailableSlot) × (compute_slots_by_membership
        (λ zone. plain)
        0
        4
        7
        (some 1)
        (some 1)
        []
        (agenda [])
      ≡ (ok slots, agenda []))
    × ((slot : AvailableSlot)
        → In slot slots
        → IsAccepted (λ zone. plain) 0 4 7 1 1 [] (agenda []) loaded slot)
compute_slots_by_membership-IsAccepted_example =
    compute_slots_by_membership-IsAccepted (λ zone. plain) 0 4 7 1 1 [] (agenda []) loaded
      (omega arith) plain-IsCalendar plain-IsSteady (tt, ((omega arith, λ h. omega arith), tt))

abbrev afternoons : RuleDto
afternoons = record {
  day_of_week = 2;
  start_time = record { minute = 900; seconds = none };
  end_time = record { minute = 1020; seconds = none };
  kind = none;
  attendance_mode = none;
  service_ids = some (7 ∷ []);
}

delete_rule-create_rule_example :
    (made : RuleWithServices) × (db' : Db) × (create_rule 81 4 afternoons (agenda [])
      ≡ (ok made, db'))
    × (delete_rule 4 81 db' ≡ (ok tt, agenda []))
unfolding find_key text_before validate_rule_services filter_assigned unique
delete_rule-create_rule_example =
    delete_rule-create_rule 81 4 afternoons (agenda []) membership
      (record { id = 6; professional_id = 1 }) (7 ∷ []) refl refl refl refl
      ((λ e. ground (arith, e)), tt) tt

abbrev for_unknown : RuleChange
for_unknown = record {
  day_of_week = some 3;
  start_time = none;
  end_time = none;
  kind = none;
  attendance_mode = none;
  service_ids = some (9 ∷ []);
}

update_rule-half_made_example :
    (db' : Db) × (update_rule 4 80 for_unknown (agenda []) ≡ (err bad_request, db'))
    × (find_key 80 db'.schedule_rules ≡ some (as_stored (changed for_unknown mornings)))
    × (db'.schedule_rule_services ≡ [])
unfolding text_before filter_assigned unique
update_rule-half_made_example =
    update_rule-half_made 4 80 for_unknown 9 [] (agenda []) mornings refl refl refl refl
