-- ===== src/Availability/Promise.antt =====
-- From the slots that the page shows to the checks of a booking: `computeSlotsByMembership` and
-- `isWalkInAt` of src/modules/availability/availability.service.ts, with `book` and
-- `assertNotWalkInSlot` of src/modules/appointments/appointments.service.ts.
use back_costa_turnos.Base.{
  ◌*◌, All-In, any-of_none_In, ℕ, ◌+◌, ◌≤◌, ◌<◌, ◌≡◌, refl, sym, subst, ◌∙◌, inl, inr, true, false,
  ◌&&◌, some, List, arith, nat_coded, Bool-cases, filter, All, In, In-filter, In-any, and_true,
}
use back_costa_turnos.Base.Http.{ok}
use back_costa_turnos.Enums.{attendance_mode_coded, schedule_rule_kind_coded}
use back_costa_turnos.Store.Rows.{Comercio, Membership, Service, ScheduleRule}
use back_costa_turnos.Store.Table.{find_key, membership_row, comercio_row, service_row}
use back_costa_turnos.Store.Db.{Db}
use back_costa_turnos.Booking.{is_assigned, assert_lead_time, assert_max_booking_window}
use back_costa_turnos.Booking.Book.{assert_available}
use back_costa_turnos.Booking.Capacity.{case_clash}
use back_costa_turnos.Availability.{
  Luxon, day_of_week, get_membership_by_id, get_comercio, applies_to, in_window, is_walk_in_window,
  walk_in_in, is_walk_in_local, is_walk_in_at,
}
use back_costa_turnos.Availability.Slots.{
  AvailableSlot, BuildSlotsArgs, SlotsWithCounts, step_ms, overlaps_break, taken_by_booking,
  reservable, build_slots_with_counts,
}
use back_costa_turnos.Availability.Offered.{IsSlotOf, build_slots_with_counts-Offers}
use back_costa_turnos.Availability.Inputs.{
  args_of, work_on, breaks_on, prepare_slot_inputs, compute_slots_by_membership,
}
use back_costa_turnos.Availability.Bookable.{IsCalendar, IsTidy, assert_available-free}

-- The rows that a call for slots reads: the membership, its comercio and the service.
pub record Loaded (db : Db) (membership_id service_id : ℕ) : Type 0 where
  pub m : Membership
  pub comercio : Comercio
  pub service : Service
  pub has_membership : find_key membership_id db.memberships ≡ some m
  pub has_comercio : find_key m.comercio_id db.comercios ≡ some comercio
  pub has_service : find_key service_id db.services ≡ some service
  pub assigned : is_assigned service_id membership_id db ≡ true
  pub lasts : 0 < service.duration_minutes
  pub times : All (λ r. r.end_time.minute < 1440) db.schedule_rules

-- A calendar whose clock does not change: between two minutes of a day lie the minutes of that day.
pub record IsSteady (luxon : Luxon) : Type 0 where
  pub same_day :
      (day a b t : ℕ)
      → b < 1440
      → luxon.at day a ≤ t
      → t < luxon.at day b
      → (luxon.local t).day ≡ day
  pub not_before :
      (t minute : ℕ) → minute ≤ (luxon.local t).minute → luxon.at (luxon.local t).day minute ≤ t
  pub before :
      (t minute : ℕ) → (luxon.local t).minute < minute → t < luxon.at (luxon.local t).day minute

module _ (zones : ℕ → Luxon) (now membership_id service_id first last : ℕ) (addon_ids : List ℕ)
    (db : Db) (loaded : Loaded db membership_id service_id) where
  open loaded use {m, comercio, service}

  abbrev pub luxon : Luxon
  luxon = zones comercio.timezone

  abbrev pub args : BuildSlotsArgs
  args = args_of zones db now m service comercio.timezone first last addon_ids

  compute_lem :
      (found : SlotsWithCounts)
      → first ≤ last
      → build_slots_with_counts luxon now args ≡ some found
      → compute_slots_by_membership zones now membership_id service_id
          (some first)
          (some last)
          addon_ids
          db
        ≡ (ok found.slots, db)
  unfolding compute_slots_by_membership prepare_slot_inputs get_membership_by_id get_comercio
  compute_lem found range e = ground (
    arith, range, e, loaded.has_membership, loaded.has_comercio, loaded.has_service,
    loaded.assigned,
  )

  -- What a booking of the slot by the client checks before it writes.
  pub record IsAccepted (slot : AvailableSlot) : Type 0 where
    pub ends : slot.end_at ≡ slot.start_at + args.duration * 60000
    pub is_free :
        assert_available now m.professional_id service slot.start_at slot.end_at db ≡ (ok tt, db)
    pub is_in_time : assert_lead_time now slot.start_at m.min_booking_hours ≡ ok tt
    pub is_in_window : assert_max_booking_window now slot.start_at m.max_booking_days ≡ ok tt
    pub has_appointments : is_walk_in_at zones m service.id slot.start_at db ≡ (ok false, db)

  slot-in_time :
      (start : ℕ)
      → reservable luxon now args start ≡ true
      → (taken_by_booking luxon now args start ≡ false)
        × (assert_lead_time now start m.min_booking_hours ≡ ok tt)
        × (assert_max_booking_window now start m.max_booking_days ≡ ok tt)
  unfolding reservable args_of assert_lead_time assert_max_booking_window
  slot-in_time start h = (ground (arith, h), ground (arith, h), ground (arith, h))

  slot-free :
      (day : ℕ) (slot : AvailableSlot)
      → IsCalendar luxon
      → IsTidy db (luxon.start_of first)
      → first ≤ day
      → day ≤ last
      → IsSlotOf luxon now args day slot
      → assert_available now m.professional_id service slot.start_at slot.end_at db ≡ (ok tt, db)
  unfolding args_of work_on
  slot-free day slot calendar tidy lo hi s =
      let late : s.rule.end_time.minute < 1440 =
        All-In (λ r. r.end_time.minute < 1440) s.rule db.schedule_rules loaded.times
          ((In-filter _ s.rule db.schedule_rules).0 s.of_day).0 in
      let starts = calendar.after_start first day s.rule.start_time.minute lo in
      let stops = calendar.before_end day last s.rule.end_time.minute hi late in
      subst (λ e. assert_available now m.professional_id service slot.start_at e db ≡ (ok tt, db))
        (sym s.ends)
        (assert_available-free luxon now args calendar.overlaps_meets m.professional_id
          (luxon.start_of first) (luxon.end_of last) slot.start_at db tidy
          (omega (arith, loaded.lasts)) (omega (arith, starts, s.begins))
          (omega (arith, stops, s.fits, s.ends)) refl service refl refl
          (slot-in_time slot.start_at s.is_reservable).0)

  -- A window without appointments is a break of its day.
  window-break :
      (dow : ℕ) (rule : ScheduleRule)
      → In rule (filter (is_walk_in_window m.id dow) db.schedule_rules)
      → applies_to db service.id rule ≡ true
      → In rule (breaks_on db m service.id dow)
  unfolding breaks_on
  window-break dow rule i applies =
      let (j, w) = (In-filter _ rule db.schedule_rules).0 i in
      (In-filter _ rule db.schedule_rules).1 (j, ground (arith, w, applies))

  slot-today :
      (day : ℕ) (slot : AvailableSlot)
      → IsSteady luxon
      → IsSlotOf luxon now args day slot
      → (m.walk_in_only ≡ false) × ((luxon.local slot.start_at).day ≡ day)
  unfolding args_of work_on
  slot-today day slot steady s =
      let (i, of_work) = (In-filter _ s.rule db.schedule_rules).0 s.of_day in
      (
        ground (arith, of_work),
        steady.same_day day s.rule.start_time.minute s.rule.end_time.minute slot.start_at
            (All-In (λ r. r.end_time.minute < 1440) s.rule db.schedule_rules loaded.times i)
            (omega (arith, s.begins)) (omega (arith, s.fits, s.ends, loaded.lasts)),
      )

  -- A window that has the minute of an instant overlaps every slot that begins then.
  window-overlaps :
      (t : ℕ) (rule : ScheduleRule)
      → IsCalendar luxon
      → IsSteady luxon
      → in_window (luxon.local t).minute rule ≡ true
      → luxon.overlaps t
          (t + step_ms luxon now args)
          (luxon.at (luxon.local t).day rule.start_time.minute)
          (luxon.at (luxon.local t).day rule.end_time.minute)
        ≡ true
  unfolding args_of
  window-overlaps t rule calendar steady h =
      let begun = steady.not_before t rule.start_time.minute (ground (arith, h)) in
      let ongoing = steady.before t rule.end_time.minute (ground (arith, h)) in
      calendar.overlaps_meets t (t + step_ms luxon now args)
        (luxon.at (luxon.local t).day rule.start_time.minute)
        (luxon.at (luxon.local t).day rule.end_time.minute) (omega (arith, loaded.lasts))
        (omega (arith, begun, ongoing))
      ∙ ground (arith, begun, ongoing, loaded.lasts)

  window-closed :
      (t : ℕ) (rule : ScheduleRule)
      → IsCalendar luxon
      → IsSteady luxon
      → overlaps_break luxon now args (luxon.local t).day t ≡ false
      → In rule (
          filter (is_walk_in_window m.id (day_of_week luxon (luxon.local t).day)) db.schedule_rules)
      → (applies_to db service.id rule && in_window (luxon.local t).minute rule) ≡ false
  unfolding args_of
  window-closed t rule calendar steady free i =
      elim (Bool-cases (applies_to db service.id rule && in_window (luxon.local t).minute rule)) [
        | inr e ↦ e
        | inl e ↦
            let (applies, inside) = and_true _ _ e in
            let clash =
              In-any _ rule _ (window-break (day_of_week luxon (luxon.local t).day) rule i applies)
                (window-overlaps t rule calendar steady inside) in
            absurd (case_clash (sym clash ∙ free))
      ]

  slot-not_walk_in :
      (day : ℕ) (slot : AvailableSlot)
      → IsCalendar luxon
      → IsSteady luxon
      → IsSlotOf luxon now args day slot
      → is_walk_in_at zones m service.id slot.start_at db ≡ (ok false, db)
  unfolding is_walk_in_at is_walk_in_local walk_in_in get_comercio
  slot-not_walk_in day slot calendar steady s =
      let (with_turns, today) = slot-today day slot steady s in
      let no_break : overlaps_break luxon now args (luxon.local slot.start_at).day slot.start_at
          ≡ false =
        rw today (ground (arith, s.is_offered)) in
      let closed =
        any-of_none_In _ _
          (λ rule i. window-closed slot.start_at rule calendar steady no_break i) in
      ground (arith, with_turns, loaded.has_comercio, closed)

  -- Every slot that the page shows can be booked: where the membership, its comercio and its service are
  -- there, the service lasts at least a minute and rules end before midnight, the call returns, and each
  -- slot of its answer passes, at the same instant and tables, the conflict test, the lead time, the
  -- booking window and the test for the windows without appointments. Nothing of the tables began before
  -- the first day and is still going on then, and the clock of the zone does not change.
  pub compute_slots_by_membership-IsAccepted :
      first ≤ last
      → IsCalendar luxon
      → IsSteady luxon
      → IsTidy db (luxon.start_of first)
      → (slots : List AvailableSlot) × (compute_slots_by_membership zones now membership_id
            service_id
            (some first)
            (some last)
            addon_ids
            db
          ≡ (ok slots, db))
        × ((slot : AvailableSlot) → In slot slots → IsAccepted slot)
  unfolding args_of
  compute_slots_by_membership-IsAccepted range calendar steady tidy =
      let (found, e, offers) =
        build_slots_with_counts-Offers luxon now args (omega (arith, loaded.lasts)) in
      (
        found.slots,
        compute_lem found range e,
        λ slot i.
            let o = (offers slot).0 i in
            let (taken, lead, window) = slot-in_time slot.start_at o.is_slot.is_reservable in
            record {
              ends = o.is_slot.ends;
              is_free = slot-free o.day slot calendar tidy o.from_start o.to_end o.is_slot;
              is_in_time = lead;
              is_in_window = window;
              has_appointments = slot-not_walk_in o.day slot calendar steady o.is_slot;
            },
      )
