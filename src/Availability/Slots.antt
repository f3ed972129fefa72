-- ===== src/Availability/Slots.antt =====
-- The slots of a range of days, `buildSlotsWithCounts` of
-- src/modules/availability/availability.service.ts: the loops over the days, the rules of a day and the
-- hours of a rule. The `while` over the hours runs on fuel.
use back_costa_turnos.Base.{
  ℕ, zero, suc, ◌+◌, ◌-◌, ◌*◌, Bool, true, false, not, ◌&&◌, ◌||◌, Option, none, some, List, [],
  ◌∷◌, ◌++◌, ltb, leb, if◌then◌else◌, ◌==◌, nat_coded, any,
}
use back_costa_turnos.Store.Rows.{ScheduleRule, TimeOff}
use back_costa_turnos.Availability.{Luxon, day_of_week}

pub record AvailableSlot : Type 0 where
  pub start_at : ℕ
  pub end_at : ℕ

-- An appointment or a live hold: what occupies the professional.
pub record BusyInterval : Type 0 where
  pub service_id : ℕ
  pub start_at : ℕ
  pub end_at : ℕ

-- The rules by day of the week are functions; a day without an entry has none. Durations are minutes.
pub record BuildSlotsArgs : Type 0 where
  pub range_start : ℕ
  pub range_end : ℕ
  pub duration : ℕ
  pub target_service_id : ℕ
  pub capacity : ℕ
  pub work_by_day : ℕ → List ScheduleRule
  pub breaks_by_day : ℕ → List ScheduleRule
  pub time_offs : List TimeOff
  pub busy : List BusyInterval
  pub min_booking_hours : ℕ
  pub max_booking_days : ℕ

pub record Counts : Type 0 where
  pub free : ℕ
  pub total : ℕ

-- What the loops collect: the free slots and, of the day, the numbers.
pub record Collected : Type 0 where
  pub slots : List AvailableSlot
  pub counts : Counts

pub record DayCounts : Type 0 where
  pub date : ℕ
  pub counts : Counts

pub record SlotsWithCounts : Type 0 where
  pub slots : List AvailableSlot
  pub counts_by_day : List DayCounts

-- The loop over `busy`: the same service counts, any other one ends it.
pub record Occupation : Type 0 where
  pub same_service_count : ℕ
  pub other_service_blocked : Bool

module _ (luxon : Luxon) (now : ℕ) (args : BuildSlotsArgs) where
  abbrev pub step_ms : ℕ
  step_ms = args.duration * 60000

  abbrev pub overlaps_break : ℕ → ℕ → Bool
  overlaps_break day start =
      any
        (λ b.
          luxon.overlaps start (start + step_ms) (luxon.at day b.start_time.minute)
            (luxon.at day b.end_time.minute))
        (args.breaks_by_day (day_of_week luxon day))

  abbrev pub time_off_blocked : ℕ → Bool
  time_off_blocked start =
      any (λ t. luxon.overlaps start (start + step_ms) t.start_at t.end_at) args.time_offs

  unfoldable pub occupation : ℕ → ℕ → List BusyInterval → Occupation
  occupation start seen [] = record { same_service_count = seen; other_service_blocked = false }
  occupation start seen (appt ∷ rest) =
      let skipped = occupation start seen rest in
      let counted = occupation start (seen + 1) rest in
      if not (luxon.overlaps start (start + step_ms) appt.start_at appt.end_at)
      then skipped
      else if appt.service_id == args.target_service_id
      then counted
      else record { same_service_count = seen; other_service_blocked = true }

  unfoldable pub taken_by_booking : ℕ → Bool
  unfolding occupation
  taken_by_booking start =
      let found = occupation start 0 args.busy in
      found.other_service_blocked || leb args.capacity found.same_service_count

  abbrev pub too_soon : ℕ → Bool
  too_soon start = ltb start (now + args.min_booking_hours * 3600000)

  abbrev pub too_late : ℕ → Bool
  too_late start = ltb 0 args.max_booking_days && ltb (now + args.max_booking_days * 86400000) start

  abbrev pub offered : ℕ → ℕ → Bool
  offered day start = not (overlaps_break day start) && not (time_off_blocked start)

  unfoldable pub reservable : ℕ → Bool
  unfolding taken_by_booking
  reservable start = not (taken_by_booking start) && (not (too_soon start) && not (too_late start))

  -- The body of the `while`.
  unfoldable pub visit : ℕ → ℕ → Collected → Collected
  unfolding reservable
  visit day start c =
      if offered day start
      then (if reservable start
          then record {
            slots = c.slots ++ (record { start_at = start; end_at = start + step_ms } ∷ []);
            counts = record { free = c.counts.free + 1; total = c.counts.total + 1 };
          }
          else record c { counts = record { free = c.counts.free; total = c.counts.total + 1 } })
      else c

  -- `none`: the fuel was used up before the test of the `while` failed.
  unfoldable pub while_fits : ℕ → ℕ → ℕ → ℕ → Collected → Option Collected
  unfolding visit
  while_fits zero day work_end cursor c = none
  while_fits (suc fuel) day work_end cursor c = elim (leb (cursor + step_ms) work_end) [
    | true ↦ while_fits fuel day work_end (cursor + step_ms) (visit day cursor c)
    | false ↦ some c
  ]

  -- One round more than the window has milliseconds.
  abbrev pub enough : ℕ → ℕ → ℕ
  enough work_start work_end = suc (work_end - work_start)

  unfoldable pub visit_rule : ℕ → ScheduleRule → Collected → Option Collected
  unfolding while_fits
  visit_rule day rule c =
      let work_start = luxon.at day rule.start_time.minute in
      let work_end = luxon.at day rule.end_time.minute in
      while_fits (enough work_start work_end) day work_end work_start c

  unfoldable pub visit_rules : ℕ → List ScheduleRule → Collected → Option Collected
  unfolding visit_rule
  visit_rules day [] c = some c
  visit_rules day (rule ∷ rules) c = elim (visit_rule day rule c) [
    | none ↦ none
    | some c' ↦ visit_rules day rules c'
  ]

  abbrev pub with_counts : ℕ → Counts → List DayCounts → List DayCounts
  with_counts day counts kept =
      if ltb 0 counts.total then kept ++ (record { date = day; counts = counts } ∷ []) else kept

  -- The days that are left, from `day` on.
  unfoldable pub visit_days : ℕ → ℕ → SlotsWithCounts → Option SlotsWithCounts
  unfolding visit_rules
  visit_days zero day found = some found
  visit_days (suc left) day found =
      elim (visit_rules day (args.work_by_day (day_of_week luxon day))
        (record { slots = found.slots; counts = record { free = 0; total = 0 } })) [
          | none ↦ none
          | some c ↦ visit_days left (day + 1) (record {
            slots = c.slots;
            counts_by_day = with_counts day c.counts found.counts_by_day;
          })
        ]

  abbrev pub no_slots : SlotsWithCounts
  no_slots = record { slots = []; counts_by_day = [] }

  unfoldable pub build_slots_with_counts : Option SlotsWithCounts
  unfolding visit_days
  build_slots_with_counts =
      visit_days (suc args.range_end - args.range_start) args.range_start no_slots
