-- ===== src/Availability/Days.antt =====
-- The summaries of the days of a range and what several professionals offer together:
-- `computeDayAvailabilityByMembership`, `computeServiceSlots` and `computeServiceDayAvailability` of
-- src/modules/availability/availability.service.ts. A ratio is kept as its two numbers.
use back_costa_turnos.Base.Sort.{sort_by}
use back_costa_turnos.Base.{
  ℕ, zero, suc, ◌+◌, ◌-◌, Bool, true, false, not, ◌&&◌, ◌||◌, Option, none, some, List, [], ◌∷◌,
  ◌++◌, map, ltb, if◌then◌else◌, ◌==◌, nat_coded, find?, any,
}
use Prim.Native.String.{String}
use back_costa_turnos.Base.Http.{internal}
use back_costa_turnos.Enums.{TimeOffType}
use back_costa_turnos.Store.Rows.{Membership, ScheduleRule, TimeOff}
use back_costa_turnos.Store.Db.{Action, pure, ◌>>=◌, or_raise}
use back_costa_turnos.Availability.{Luxon, day_of_week, is_empty}
use back_costa_turnos.Availability.Slots.{AvailableSlot, Counts, DayCounts, build_slots_with_counts}
use back_costa_turnos.Availability.Inputs.{
  SlotInputs, prepare_slot_inputs, compute_slots_by_membership,
}

pub data DayStatus : Type 0 where
  available closed time_off full walk_in : DayStatus

pub record TimeWindow : Type 0 where
  pub start_time : ℕ
  pub end_time : ℕ

pub record Ratio : Type 0 where
  pub part : ℕ
  pub whole : ℕ

pub record DayAvailability : Type 0 where
  pub date : ℕ
  pub status : DayStatus
  pub reason : Option String
  pub time_off_type : Option TimeOffType
  pub free_slots : ℕ
  pub total_slots : ℕ
  pub occupancy : Ratio
  pub bookable : Bool
  pub walk_in_windows : List TimeWindow

abbrev pub window_of : ScheduleRule → TimeWindow
window_of r = record { start_time = r.start_time.minute; end_time = r.end_time.minute }

unfoldable pub to_windows : List ScheduleRule → List TimeWindow
to_windows rules = sort_by (λ a b. ltb b.start_time a.start_time) (map window_of rules)

abbrev pub no_counts : Counts
no_counts = record { free = 0; total = 0 }

-- `countsByDay.get(date) ?? { free: 0, total: 0 }`
unfoldable pub counts_on : ℕ → List DayCounts → Counts
counts_on day [] = no_counts
counts_on day (d ∷ ds) = if d.date == day then d.counts else counts_on day ds

unfoldable pub occupancy_of : ℕ → ℕ → Ratio
occupancy_of free total =
    if ltb 0 total
    then record { part = total - free; whole = total }
    else record { part = 0; whole = 1 }

unfoldable pub time_off_covering_day : Luxon → List TimeOff → ℕ → Option TimeOff
time_off_covering_day luxon offs day =
    find? (λ t. luxon.overlaps (luxon.start_of day) (luxon.end_of day) t.start_at t.end_at) offs

-- A day without a free hour, and why.
unfoldable pub day_without :
    ℕ → Counts → List TimeWindow → Bool → Bool → Option TimeOff → DayAvailability
day_without day counts windows walk_in_only has_work (some off) = record {
  date = day;
  status = time_off;
  reason = off.reason;
  time_off_type = some off.type;
  free_slots = 0;
  total_slots = counts.total;
  occupancy = occupancy_of counts.free counts.total;
  bookable = false;
  walk_in_windows = windows;
}
day_without day counts windows walk_in_only has_work none =
    if not has_work
    then record {
      date = day;
      status = if not (is_empty windows) || walk_in_only then walk_in else closed;
      reason = none;
      time_off_type = none;
      free_slots = 0;
      total_slots = 0;
      occupancy = record { part = 0; whole = 1 };
      bookable = false;
      walk_in_windows = windows;
    }
    else record {
      date = day;
      status = full;
      reason = none;
      time_off_type = none;
      free_slots = 0;
      total_slots = counts.total;
      occupancy =
          if ltb 0 counts.total
          then record { part = 1; whole = 1 }
          else record { part = 0; whole = 1 };
      bookable = false;
      walk_in_windows = windows;
    }

unfoldable pub day_availability : Luxon → SlotInputs → List DayCounts → ℕ → DayAvailability
unfolding day_without occupancy_of
day_availability luxon inputs counts_by_day day =
    let dow = day_of_week luxon day in
    let counts = counts_on day counts_by_day in
    let windows = to_windows (inputs.walk_in_by_day dow) in
    if ltb 0 counts.free
    then record {
      date = day;
      status = available;
      reason = none;
      time_off_type = none;
      free_slots = counts.free;
      total_slots = counts.total;
      occupancy = occupancy_of counts.free counts.total;
      bookable = true;
      walk_in_windows = windows;
    }
    else day_without day counts windows inputs.walk_in_only
        (not (is_empty (inputs.args.work_by_day dow)))
        (time_off_covering_day luxon inputs.args.time_offs day)

-- The days that are left, from `day` on.
unfoldable pub days_from : Luxon → SlotInputs → List DayCounts → ℕ → ℕ → List DayAvailability
days_from luxon inputs counts zero day = []
days_from luxon inputs counts (suc left) day =
    day_availability luxon inputs counts day ∷ days_from luxon inputs counts left (day + 1)

-- The best of two days: `full` before `time_off` before `walk_in` before `closed`.
abbrev pub status_rank : DayStatus → ℕ
status_rank full = 4
status_rank time_off = 3
status_rank walk_in = 2
status_rank _ = 1

abbrev pub same_window : TimeWindow → TimeWindow → Bool
same_window a b = a.start_time == b.start_time && a.end_time == b.end_time

unfoldable pub unseen_windows : List TimeWindow → List TimeWindow → List TimeWindow
unseen_windows seen [] = []
unseen_windows seen (w ∷ ws) =
    let kept = unseen_windows (w ∷ seen) ws in
    let skipped = unseen_windows seen ws in if any (same_window w) seen then skipped else w ∷ kept

unfoldable pub merge_day_availability : DayAvailability → DayAvailability → DayAvailability
unfolding occupancy_of
merge_day_availability a b =
    let free = a.free_slots + b.free_slots in
    let total = a.total_slots + b.total_slots in
    let winner = if ltb (status_rank a.status) (status_rank b.status) then b else a in
    if a.bookable || b.bookable
    then record {
      date = a.date;
      status = available;
      reason = none;
      time_off_type = none;
      free_slots = free;
      total_slots = total;
      occupancy = occupancy_of free total;
      bookable = true;
      walk_in_windows = unseen_windows [] (a.walk_in_windows ++ b.walk_in_windows);
    }
    else record {
      date = a.date;
      status = winner.status;
      reason = winner.reason;
      time_off_type = winner.time_off_type;
      free_slots = free;
      total_slots = total;
      occupancy = occupancy_of free total;
      bookable = false;
      walk_in_windows = unseen_windows [] (a.walk_in_windows ++ b.walk_in_windows);
    }

-- `byDate.set(day.date, existing ? merge(existing, day) : day)`; the map keeps the order of its keys.
unfoldable pub merge_in : DayAvailability → List DayAvailability → List DayAvailability
merge_in day [] = day ∷ []
merge_in day (d ∷ ds) =
    let rest = merge_in day ds in
    if d.date == day.date then merge_day_availability d day ∷ ds else d ∷ rest

unfoldable pub merge_all : List DayAvailability → List DayAvailability → List DayAvailability
merge_all found [] = found
merge_all found (day ∷ days) = merge_all (merge_in day found) days

module _ (zones : ℕ → Luxon) where
  unfoldable pub compute_day_availability_by_membership :
      ℕ → ℕ → ℕ → Option ℕ → Option ℕ → List ℕ → Action (List DayAvailability)
  compute_day_availability_by_membership now membership_id service_id from to addon_ids = do
    inputs ← prepare_slot_inputs zones now membership_id service_id from to addon_ids
    found ← or_raise (build_slots_with_counts (zones inputs.zone) now inputs.args) internal
    pure (
        days_from (zones inputs.zone) inputs found.counts_by_day
          (suc inputs.args.range_end - inputs.args.range_start) inputs.args.range_start)

  -- The loop over the memberships; a slot whose beginning is there already is left out.
  abbrev pub has_start : ℕ → List AvailableSlot → Bool
  has_start start found = any (λ s. s.start_at == start) found

  unfoldable pub add_new : List AvailableSlot → List AvailableSlot → List AvailableSlot
  add_new found [] = found
  add_new found (slot ∷ slots) =
      let longer = add_new (found ++ (slot ∷ [])) slots in
      let same = add_new found slots in if has_start slot.start_at found then same else longer

  unfoldable pub collect_slots :
      ℕ
      → ℕ
      → Option ℕ
      → Option ℕ
      → List ℕ
      → List AvailableSlot
      → List Membership
      → Action (List AvailableSlot)
  unfolding add_new
  collect_slots now service_id from to addon_ids found [] = pure found
  collect_slots now service_id from to addon_ids found (m ∷ ms) = do
    slots ← compute_slots_by_membership zones now m.id service_id from to addon_ids
    collect_slots now service_id from to addon_ids (add_new found slots) ms

  unfoldable pub collect_days :
      ℕ
      → ℕ
      → Option ℕ
      → Option ℕ
      → List ℕ
      → List DayAvailability
      → List Membership
      → Action (List DayAvailability)
  unfolding compute_day_availability_by_membership merge_all
  collect_days now service_id from to addon_ids found [] = pure found
  collect_days now service_id from to addon_ids found (m ∷ ms) = do
    days ← compute_day_availability_by_membership now m.id service_id from to addon_ids
    collect_days now service_id from to addon_ids (merge_all found days) ms
