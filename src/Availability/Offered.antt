-- ===== src/Availability/Offered.antt =====
-- Which slots `buildSlotsWithCounts` (src/modules/availability/availability.service.ts) gives for a
-- range of days, and their numbers.
use back_costa_turnos.Base.{
  append_assoc, append_nil, In-append, In-map, ℕ, zero, suc, ◌+◌, ◌-◌, ◌*◌, ◌≤◌, ◌<◌, ◌≡◌, refl, ap,
  subst, and_true, ◌∙◌, ◌↔◌, inl, inr, true, some, List, [], ◌∷◌, ◌++◌, arith, In, In-filter,
}
use native.Mathlib.Decide.{dec_lt}
use back_costa_turnos.Store.Rows.{ScheduleRule}
use back_costa_turnos.Availability.{Luxon, day_of_week}
use back_costa_turnos.Availability.Slots.{
  AvailableSlot, BuildSlotsArgs, Counts, Collected, SlotsWithCounts, DayCounts, offered, reservable,
  visit_rules, visit_days, with_counts, build_slots_with_counts, no_slots,
}
use back_costa_turnos.Availability.Hours.{
  visit_all_lem, bookable, slot_at, slots_of, counts_of, rule_hours, day_hours,
  visit_rules-day_hours, In-hours, step,
}

module _ (luxon : Luxon) (now : ℕ) (args : BuildSlotsArgs) where
  abbrev pub starts_on : ℕ → List ℕ
  starts_on day = day_hours luxon now args day (args.work_by_day (day_of_week luxon day))

  abbrev collected : List AvailableSlot → Counts → Collected
  collected slots counts = record { slots = slots; counts = counts }

  unfoldable pub range_slots : ℕ → ℕ → List AvailableSlot
  range_slots zero day = []
  range_slots (suc left) day =
      slots_of luxon now args day (starts_on day) ++ range_slots left (day + 1)

  unfoldable pub range_counts : ℕ → ℕ → List DayCounts
  range_counts zero day = []
  range_counts (suc left) day =
      with_counts luxon now args day (counts_of luxon now args day (starts_on day)) []
      ++ range_counts left (day + 1)

  with_counts-append :
      (day : ℕ) (c : Counts) (kept : List DayCounts)
      → with_counts luxon now args day c kept ≡ kept ++ with_counts luxon now args day c []
  with_counts-append day c kept = ground (arith, append_nil kept)

  visit_days_day :
      (left day : ℕ) (found : SlotsWithCounts) (c : Collected)
      → visit_rules luxon now args day
          (args.work_by_day (day_of_week luxon day))
          (record { slots = found.slots; counts = record { free = 0; total = 0 } })
        ≡ some c
      → visit_days luxon now args (suc left) day found
        ≡ visit_days luxon now args left (day + 1) (record {
          slots = c.slots;
          counts_by_day = with_counts luxon now args day c.counts found.counts_by_day;
        })
  unfolding visit_days
  visit_days_day left day found c e = ground (arith, e)

  pub visit_days_lem :
      (left day : ℕ) (found : SlotsWithCounts)
      → 0 < step luxon now args
      → visit_days luxon now args left day found
        ≡ some (record {
          slots = found.slots ++ range_slots left day;
          counts_by_day = found.counts_by_day ++ range_counts left day;
        })
  unfolding visit_days range_slots range_counts
  visit_days_lem zero day found pos =
      ground (arith, append_nil found.slots, append_nil found.counts_by_day)
  visit_days_lem (suc left) day found pos =
      let start : Collected = record {
        slots = found.slots;
        counts = record { free = 0; total = 0 };
      } in
      let slots = slots_of luxon now args day (starts_on day) in
      let counts = counts_of luxon now args day (starts_on day) in
      let fresh : record {
        slots = found.slots ++ slots;
        counts = record { free = 0 + counts.free; total = 0 + counts.total };
      }
          ≡ collected (found.slots ++ slots) counts =
        ground arith in
      let ih =
        visit_days_lem left (day + 1)
          (record {
            slots = found.slots ++ slots;
            counts_by_day = with_counts luxon now args day counts found.counts_by_day;
          })
          pos in
      visit_days_day left day found _ (
        visit_rules-day_hours luxon now args day (args.work_by_day (day_of_week luxon day)) start
          pos
        ∙ ap some (visit_all_lem luxon now args day (starts_on day) start ∙ fresh))
      ∙ ih
      ∙ ap
          (λ l. some (record {
            slots = l;
            counts_by_day =
                with_counts luxon now args day counts found.counts_by_day
                ++ range_counts left (day + 1);
          }))
          (append_assoc found.slots slots (range_slots left (day + 1)))
      ∙ ap
          (λ l.
            some (record { slots = found.slots ++ range_slots (suc left) day; counts_by_day = l }))
          (ap (λ l. l ++ range_counts left (day + 1))
              (with_counts-append day counts found.counts_by_day)
            ∙ append_assoc found.counts_by_day (with_counts luxon now args day counts [])
                (range_counts left (day + 1)))

  -- What a slot on a day is: it begins whole durations after a work rule of the day does, ends within
  -- the rule, misses the breaks and the time off, and can be reserved.
  pub record IsSlotOf (day : ℕ) (slot : AvailableSlot) : Type 0 where
    pub rule : ScheduleRule
    pub of_day : In rule (args.work_by_day (day_of_week luxon day))
    pub turns : ℕ
    pub begins : slot.start_at ≡ luxon.at day rule.start_time.minute + turns * step luxon now args
    pub ends : slot.end_at ≡ slot.start_at + step luxon now args
    pub fits : slot.end_at ≤ luxon.at day rule.end_time.minute
    pub is_offered : offered luxon now args day slot.start_at ≡ true
    pub is_reservable : reservable luxon now args slot.start_at ≡ true

  pub record Offers (slot : AvailableSlot) : Type 0 where
    pub day : ℕ
    pub from_start : args.range_start ≤ day
    pub to_end : day ≤ args.range_end
    pub is_slot : IsSlotOf day slot

  In-day_hours :
      (day s : ℕ) (rules : List ScheduleRule)
      → In s (day_hours luxon now args day rules)
        ↔ ((rule : ScheduleRule) × In rule rules × In s (rule_hours luxon now args day rule))
  unfolding day_hours
  In-day_hours day s [] = (λ i. elim i [ ], λ (rule, i, j). elim i [ ])
  In-day_hours day s (rule ∷ rules) =
      let ih = In-day_hours day s rules in
      let here =
        In-append s (rule_hours luxon now args day rule) (day_hours luxon now args day rules) in
      (
        λ i. elim (here.0 i) [
          | inl j ↦ (rule, inl refl, j)
          | inr j ↦ let (r, k, l) = ih.0 j in (r, inr k, l)
        ],
        λ (r, k, l). elim k [
          | inl e ↦ here.1 (inl (rw (← e) l))
          | inr m ↦ here.1 (inr (ih.1 (r, m, l)))
        ],
      )

  In-slots_of :
      (day : ℕ) (slot : AvailableSlot)
      → 0 < step luxon now args
      → In slot (slots_of luxon now args day (starts_on day)) ↔ IsSlotOf day slot
  In-slots_of day slot pos = (
    λ i.
        let (s, j, e) = (In-map (slot_at luxon now args) slot _).0 i in
        let (k, b) = (In-filter (bookable luxon now args day) s (starts_on day)).0 j in
        let (rule, r, h) = (In-day_hours day s _).0 k in
        let (n, q, fit) = (In-hours luxon now args _ _ _ s pos (omega arith)).0 h in
        let (off, res) = and_true _ _ b in
        rw e (record {
          rule = rule;
          of_day = r;
          turns = n;
          begins = q;
          ends = refl;
          fits = fit;
          is_offered = off;
          is_reservable = res;
        }),
    λ o. (In-map (slot_at luxon now args) slot _).1 (
      slot.start_at,
      (In-filter (bookable luxon now args day) slot.start_at (starts_on day)).1 (
        (In-day_hours day slot.start_at _).1 (
          o.rule,
          o.of_day,
          (In-hours luxon now args _ _ _ slot.start_at pos (omega arith)).1
              (o.turns, o.begins, rw (← o.ends) o.fits),
        ),
        rw (o.is_offered, o.is_reservable) refl,
      ),
      ap (λ t. record { start_at = slot.start_at; end_at = t }) o.ends,
    ),
  )

  In-range_slots :
      (left day : ℕ) (slot : AvailableSlot)
      → 0 < step luxon now args
      → In slot (range_slots left day) ↔ ((d : ℕ) × (day ≤ d) × (d < day + left) × IsSlotOf d slot)
  unfolding range_slots
  In-range_slots zero day slot pos = (λ i. elim i [ ], λ (d, a, b, o). absurd (omega arith))
  In-range_slots (suc left) day slot pos =
      let ih = In-range_slots left (day + 1) slot pos in
      let here = In-slots_of day slot pos in
      let split =
        In-append slot (slots_of luxon now args day (starts_on day)) (range_slots left (day + 1)) in
      (
        λ i. elim (split.0 i) [
          | inl j ↦ (day, omega arith, omega arith, here.0 j)
          | inr j ↦ let (d, a, b, o) = ih.0 j in (d, omega (arith, a), omega (arith, b), o)
        ],
        λ (d, a, b, o). elim (dec_lt day d) [
          | yes l ↦ split.1 (inr (ih.1 (d, omega (arith, l), omega (arith, b), o)))
          | no g ↦
              let e : d ≡ day = omega (arith, a, g) in
              split.1 (inl (here.1 (subst (λ x. IsSlotOf x slot) e o)))
        ],
      )

  -- The slots of a range always come, where the duration is at least a minute: the loops end, and a slot
  -- is in the list exactly if it is one of a day of the range.
  pub build_slots_with_counts-Offers :
      0 < args.duration
      → (found : SlotsWithCounts) × (build_slots_with_counts luxon now args ≡ some found)
        × ((slot : AvailableSlot) → In slot found.slots ↔ Offers slot)
  unfolding build_slots_with_counts
  build_slots_with_counts-Offers pos =
      let n = suc args.range_end - args.range_start in
      (
        record {
          slots = range_slots n args.range_start;
          counts_by_day = range_counts n args.range_start;
        },
        visit_days_lem n args.range_start (no_slots luxon now args) (omega (arith, pos)),
        λ slot.
            let here = In-range_slots n args.range_start slot (omega (arith, pos)) in
            (
              λ i.
                  let (d, a, b, o) = here.0 i in
                  record { day = d; from_start = a; to_end = omega (arith, a, b); is_slot = o },
              λ o. here.1 (o.day, o.from_start, omega (arith, o.from_start, o.to_end), o.is_slot),
            ),
      )
