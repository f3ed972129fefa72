-- ===== src/Availability/Numbers.antt =====
-- The numbers of a day, `countsByDay` of `buildSlotsWithCounts`
-- (src/modules/availability/availability.service.ts).
use back_costa_turnos.Base.{
  length-map, ℕ, zero, suc, ◌+◌, ◌-◌, ◌≤◌, ◌<◌, ◌≡◌, refl, ◌∙◌, inl, inr, some, List, [], ◌∷◌,
  arith, ltb, Bool-cases, count, All, All-append, length, length-append, length-filter, sum_by,
  sum_by-append,
}
use back_costa_turnos.Availability.{Luxon}
use back_costa_turnos.Availability.Slots.{
  BuildSlotsArgs, SlotsWithCounts, DayCounts, offered, reservable, with_counts,
  build_slots_with_counts, no_slots,
}
use back_costa_turnos.Availability.Hours.{bookable, slot_at, slots_of, counts_of}
use back_costa_turnos.Availability.Offered.{starts_on, range_slots, range_counts, visit_days_lem}

module _ (luxon : Luxon) (now : ℕ) (args : BuildSlotsArgs) where
  count-bookable :
      (day : ℕ) (starts : List ℕ)
      → count (bookable luxon now args day) starts ≤ count (offered luxon now args day) starts
  count-bookable day [] = omega arith
  count-bookable day (x ∷ xs) = elim (Bool-cases (offered luxon now args day x)) [
    | inl e ↦ elim (Bool-cases (reservable luxon now args x)) [
      | inl f ↦ rw (e, f) (omega (arith, count-bookable day xs))
      | inr f ↦ rw (e, f) (omega (arith, count-bookable day xs))
    ]
    | inr e ↦ rw e (omega (arith, count-bookable day xs))
  ]

  length-slots_of :
      (day : ℕ) (starts : List ℕ)
      → length (slots_of luxon now args day starts) ≡ count (bookable luxon now args day) starts
  length-slots_of day starts =
      length-map (slot_at luxon now args) _ ∙ length-filter (bookable luxon now args day) starts

  -- The numbers of a day of the range that has an hour to offer.
  abbrev pub IsCounted : ℕ → ℕ → DayCounts → Type 0
  IsCounted first last d =
      (first ≤ d.date) × (d.date ≤ last) × (0 < d.counts.total) × (d.counts.free ≤ d.counts.total)

  All-with_counts :
      (day first last : ℕ) (starts : List ℕ)
      → first ≤ day
      → day ≤ last
      → All
          (IsCounted first last)
          (with_counts luxon now args day (counts_of luxon now args day starts) [])
  All-with_counts day first last starts a b =
      elim (Bool-cases (ltb 0 (count (offered luxon now args day) starts))) [
        | inl e ↦ rw e ((a, b, ground (arith, e), count-bookable day starts), tt)
        | inr e ↦ rw e tt
      ]

  sum-with_counts :
      (day : ℕ) (starts : List ℕ)
      → sum_by
          (λ d. d.counts.free)
          (with_counts luxon now args day (counts_of luxon now args day starts) [])
        ≡ count (bookable luxon now args day) starts
  sum-with_counts day starts =
      elim (Bool-cases (ltb 0 (count (offered luxon now args day) starts))) [
        | inl e ↦ rw e (omega arith)
        | inr e ↦ rw e (ground (arith, e, count-bookable day starts))
      ]

  All-range_counts :
      (left day first last : ℕ)
      → first ≤ day
      → day + left ≤ suc last
      → All (IsCounted first last) (range_counts luxon now args left day)
  unfolding range_counts
  All-range_counts zero day first last a b = tt
  All-range_counts (suc left) day first last a b =
      All-append (IsCounted first last) _ _
        (All-with_counts day first last (starts_on luxon now args day) a (omega (arith, b)))
        (All-range_counts left (day + 1) first last (omega (arith, a)) (omega (arith, b)))

  All-range :
      (n first last : ℕ)
      → n ≡ suc last - first
      → All (IsCounted first last) (range_counts luxon now args n first)
  unfolding range_counts
  All-range zero first last e = tt
  All-range (suc n) first last e =
      All-range_counts (suc n) first first last (omega arith) (omega (arith, e))

  length-range_slots :
      (left day : ℕ)
      → length (range_slots luxon now args left day)
        ≡ sum_by (λ d. d.counts.free) (range_counts luxon now args left day)
  unfolding range_slots range_counts
  length-range_slots zero day = refl
  length-range_slots (suc left) day = omega (
    arith,
    length-append (slots_of luxon now args day (starts_on luxon now args day))
        (range_slots luxon now args left (day + 1)),
    length-slots_of day (starts_on luxon now args day),
    sum_by-append (λ d. d.counts.free)
        (with_counts luxon now args day
          (counts_of luxon now args day (starts_on luxon now args day)) [])
        (range_counts luxon now args left (day + 1)),
    sum-with_counts day (starts_on luxon now args day),
    length-range_slots left (day + 1),
  )

  -- The numbers agree with the slots, where the duration is at least a minute: every day that is counted
  -- lies in the range and offers an hour, no day has more free hours than hours, and the free hours of
  -- all days together are the slots that are given.
  pub build_slots_with_counts-counts :
      0 < args.duration
      → (found : SlotsWithCounts) × (build_slots_with_counts luxon now args ≡ some found)
        × All (IsCounted args.range_start args.range_end) found.counts_by_day
        × (length found.slots ≡ sum_by (λ d. d.counts.free) found.counts_by_day)
  unfolding build_slots_with_counts
  build_slots_with_counts-counts pos =
      let n = suc args.range_end - args.range_start in
      (
        record {
          slots = range_slots luxon now args n args.range_start;
          counts_by_day = range_counts luxon now args n args.range_start;
        },
        visit_days_lem luxon now args n args.range_start (no_slots luxon now args)
            (omega (arith, pos)),
        All-range n args.range_start args.range_end refl,
        length-range_slots n args.range_start,
      )
