-- ===== src/Availability/Hours.antt =====
-- The loops of `buildSlotsWithCounts` (src/modules/availability/availability.service.ts) against lists:
-- the hours at which a slot of a rule can begin, and what is kept of each.
use back_costa_turnos.Base.{
  append_assoc, append_nil, ℕ, zero, suc, ◌+◌, ◌-◌, ◌*◌, ◌≤◌, ◌<◌, ◌≡◌, refl, ◌∙◌, ◌↔◌, inl, inr,
  Bool, true, ◌&&◌, some, List, [], ◌∷◌, ◌++◌, map, arith, leb, leb→le, if◌then◌else◌, Bool-cases,
  filter, count, In,
}
use back_costa_turnos.Store.Rows.{ScheduleRule}
use back_costa_turnos.Availability.{Luxon}
use back_costa_turnos.Availability.Slots.{
  AvailableSlot, BuildSlotsArgs, Counts, Collected, step_ms, offered, reservable, visit, while_fits,
  enough, visit_rule, visit_rules,
}

module _ (luxon : Luxon) (now : ℕ) (args : BuildSlotsArgs) where
  abbrev pub step : ℕ
  step = step_ms luxon now args

  -- The beginnings of the slots between `cursor` and `work_end`, at most `fuel` of them.
  unfoldable pub hours : ℕ → ℕ → ℕ → List ℕ
  hours zero work_end cursor = []
  hours (suc fuel) work_end cursor =
      let rest = hours fuel work_end (cursor + step) in
      if leb (cursor + step) work_end then cursor ∷ rest else []

  unfoldable pub visit_all : ℕ → List ℕ → Collected → Collected
  visit_all day [] c = c
  visit_all day (start ∷ starts) c = visit_all day starts (visit luxon now args day start c)

  pub while_fits-hours :
      (fuel day work_end cursor : ℕ) (c : Collected)
      → 0 < step
      → suc (work_end - cursor) ≤ fuel
      → while_fits luxon now args fuel day work_end cursor c
        ≡ some (visit_all day (hours fuel work_end cursor) c)
  unfolding while_fits hours visit_all
  while_fits-hours zero day work_end cursor c pos h = absurd (omega arith)
  while_fits-hours (suc fuel) day work_end cursor c pos h =
      elim (Bool-cases (leb (cursor + step) work_end)) [
        | inl e ↦
            let fits = leb→le (cursor + step) work_end e in
            let ih =
              while_fits-hours fuel day work_end (cursor + step) (visit luxon now args day cursor c)
                pos (omega (arith, fits, pos, h)) in
            ground (arith, e, ih)
        | inr e ↦ ground (arith, e)
      ]

  hours-In :
      (fuel work_end cursor s k : ℕ)
      → 0 < step
      → suc (work_end - cursor) ≤ fuel
      → s ≡ cursor + k * step
      → s + step ≤ work_end
      → In s (hours fuel work_end cursor)
  unfolding hours
  hours-In zero work_end cursor s k pos h q r = absurd (omega arith)
  hours-In (suc fuel) work_end cursor s zero pos h q r =
      let fits : leb (cursor + step) work_end ≡ true = ground (arith, q, r) in
      rw fits (inl (omega (arith, q)))
  hours-In (suc fuel) work_end cursor s (suc k) pos h q r =
      let fits : leb (cursor + step) work_end ≡ true = ground (arith, q, r) in
      rw fits (
        inr (
          hours-In fuel work_end (cursor + step) s k pos (omega (arith, q, r, h, pos))
            (omega (arith, q)) r))

  In-hours_fits :
      (fuel work_end cursor s : ℕ)
      → In s (hours fuel work_end cursor)
      → (k : ℕ) × (s ≡ cursor + k * step) × (s + step ≤ work_end)
  unfolding hours
  In-hours_fits zero work_end cursor s i = elim i [ ]
  In-hours_fits (suc fuel) work_end cursor s i = elim (Bool-cases (leb (cursor + step) work_end)) [
    | inl e ↦
        let fits = leb→le (cursor + step) work_end e in
        elim (rw e at i) [
          | inl q ↦ (0, omega (arith, q), omega (arith, q, fits))
          | inr j ↦
              let (k, q, r) = In-hours_fits fuel work_end (cursor + step) s j in
              (suc k, omega (arith, q), r)
        ]
    | inr e ↦ elim (rw e at i) [ ]
  ]

  -- An hour is in the list exactly if it lies whole steps after the beginning and its slot ends in time.
  pub In-hours :
      (fuel work_end cursor s : ℕ)
      → 0 < step
      → suc (work_end - cursor) ≤ fuel
      → In s (hours fuel work_end cursor)
        ↔ ((k : ℕ) × (s ≡ cursor + k * step) × (s + step ≤ work_end))
  In-hours fuel work_end cursor s pos h = (
    In-hours_fits fuel work_end cursor s,
    λ (k, q, r). hours-In fuel work_end cursor s k pos h q r,
  )

  -- What the page offers of an hour.
  abbrev pub bookable : ℕ → ℕ → Bool
  bookable day start = offered luxon now args day start && reservable luxon now args start

  abbrev pub slot_at : ℕ → AvailableSlot
  slot_at start = record { start_at = start; end_at = start + step }

  abbrev pub slots_of : ℕ → List ℕ → List AvailableSlot
  slots_of day starts = map slot_at (filter (bookable day) starts)

  abbrev pub counts_of : ℕ → List ℕ → Counts
  counts_of day starts = record {
    free = count (bookable day) starts;
    total = count (offered luxon now args day) starts;
  }

  pub visit_all_lem :
      (day : ℕ) (starts : List ℕ) (c : Collected)
      → visit_all day starts c ≡ record {
        slots = c.slots ++ slots_of day starts;
        counts = record {
          free = c.counts.free + count (bookable day) starts;
          total = c.counts.total + count (offered luxon now args day) starts;
        };
      }
  unfolding visit_all visit
  visit_all_lem day [] c = ground (arith, append_nil c.slots)
  visit_all_lem day (start ∷ starts) c =
      visit_all_lem day starts (visit luxon now args day start c)
      ∙ elim (Bool-cases (offered luxon now args day start)) [
        | inl e ↦ elim (Bool-cases (reservable luxon now args start)) [
          | inl f ↦
              ground (arith, e, f, append_assoc c.slots (slot_at start ∷ []) (slots_of day starts))
          | inr f ↦ ground (arith, e, f)
        ]
        | inr e ↦ ground (arith, e)
      ]

  -- The hours of a rule, and of all the rules of a day.
  abbrev pub rule_hours : ℕ → ScheduleRule → List ℕ
  rule_hours day rule =
      hours
        (enough luxon now args (luxon.at day rule.start_time.minute)
          (luxon.at day rule.end_time.minute))
        (luxon.at day rule.end_time.minute) (luxon.at day rule.start_time.minute)

  unfoldable pub day_hours : ℕ → List ScheduleRule → List ℕ
  day_hours day [] = []
  day_hours day (rule ∷ rules) = rule_hours day rule ++ day_hours day rules

  visit_all-append :
      (day : ℕ) (xs ys : List ℕ) (c : Collected)
      → visit_all day (xs ++ ys) c ≡ visit_all day ys (visit_all day xs c)
  unfolding visit_all
  visit_all-append day [] ys c = refl
  visit_all-append day (x ∷ xs) ys c = visit_all-append day xs ys (visit luxon now args day x c)

  pub visit_rules-day_hours :
      (day : ℕ) (rules : List ScheduleRule) (c : Collected)
      → 0 < step
      → visit_rules luxon now args day rules c ≡ some (visit_all day (day_hours day rules) c)
  unfolding visit_rules visit_rule day_hours visit_all
  visit_rules-day_hours day [] c pos = refl
  visit_rules-day_hours day (rule ∷ rules) c pos =
      let first =
        while_fits-hours
          (enough luxon now args (luxon.at day rule.start_time.minute)
            (luxon.at day rule.end_time.minute))
          day (luxon.at day rule.end_time.minute) (luxon.at day rule.start_time.minute) c pos
          (omega arith) in
      ground (
        arith,
        first,
        visit_all-append day (rule_hours day rule) (day_hours day rules) c,
        visit_rules-day_hours day rules (visit_all day (rule_hours day rule) c) pos,
      )
