-- ===== src/Availability/ServiceDays.antt =====
-- The days that `computeServiceDayAvailability` (src/modules/availability/availability.service.ts)
-- gives, of all the professionals of a service together.
use back_costa_turnos.Base.Sort.{sort_by, Ascending, sort_by-Ascending, sort_by-All, any-sort_by}
use back_costa_turnos.Base.{
  ℕ, suc, ◌-◌, ◌<◌, ◌≡◌, refl, sym, ap, ◌∙◌, ◌&&◌, ◌||◌, Option, none, some, List, [], ◌∷◌, arith,
  ltb, ◌==◌, nat_coded, any, All, All-imp,
}
use back_costa_turnos.Base.Http.{ok}
use back_costa_turnos.Store.Rows.{Membership}
use back_costa_turnos.Store.Db.{Db}
use back_costa_turnos.Availability.{Luxon}
use back_costa_turnos.Availability.Slots.{build_slots_with_counts, SlotsWithCounts}
use back_costa_turnos.Availability.Inputs.{SlotInputs, prepare_slot_inputs}
use back_costa_turnos.Availability.Numbers.{build_slots_with_counts-counts}
use back_costa_turnos.Availability.Days.{
  DayAvailability, days_from, merge_all, compute_day_availability_by_membership, collect_days,
}
use back_costa_turnos.Availability.DaySummary.{
  Fits, IsSummary, days_from-IsSummary, merge_all-IsSummary, open_on, open_on-merge_all, or_swap,
}
use back_costa_turnos.Availability.Summaries.{in_comercio, compute_service_day_availability}

module _ (zones : ℕ → Luxon) (now service_id : ℕ) (from to : Option ℕ) (addon_ids : List ℕ)
    (db : Db) (inputs : Membership → SlotInputs) where
  abbrev pub days_with : Membership → Option SlotsWithCounts → List DayAvailability
  days_with m none = []
  days_with m (some found) =
      let args = (inputs m).args in
      days_from (zones (inputs m).zone) (inputs m) found.counts_by_day
        (suc args.range_end - args.range_start) args.range_start

  -- The days of one professional.
  abbrev pub days_of : Membership → List DayAvailability
  days_of m = days_with m (build_slots_with_counts (zones (inputs m).zone) now (inputs m).args)

  -- Of each membership the slots can be prepared, and the service takes some time.
  abbrev pub AllPrepared : List Membership → Type 0
  AllPrepared ms =
      All
        (λ m.
          (prepare_slot_inputs zones now m.id service_id from to addon_ids db ≡ (ok (inputs m), db))
          × (0 < (inputs m).args.duration))
        ms

  days_of_lem :
      (m : Membership)
      → prepare_slot_inputs zones now m.id service_id from to addon_ids db ≡ (ok (inputs m), db)
      → 0 < (inputs m).args.duration
      → (compute_day_availability_by_membership zones now m.id service_id from to addon_ids db
          ≡ (ok (days_of m), db))
        × All IsSummary (days_of m)
  unfolding compute_day_availability_by_membership
  days_of_lem m e pos =
      let (found, q, counted, _) =
        build_slots_with_counts-counts (zones (inputs m).zone) now (inputs m).args pos in
      rw q (
        ground (arith, e, q),
        days_from-IsSummary _ _ found.counts_by_day _ _
            (All-imp _ Fits found.counts_by_day (λ d c. c.3) counted),
      )

  merged : List DayAvailability → List Membership → List DayAvailability
  merged found [] = found
  merged found (m ∷ ms) = merged (merge_all found (days_of m)) ms

  collect_days-merged :
      (found : List DayAvailability) (ms : List Membership)
      → AllPrepared ms
      → collect_days zones now service_id from to addon_ids found ms db ≡ (ok (merged found ms), db)
  unfolding collect_days merged
  collect_days-merged found [] h = refl
  collect_days-merged found (m ∷ ms) h =
      ground
        (arith, days_of_lem m h.0.0 h.0.1, collect_days-merged (merge_all found (days_of m)) ms h.1)

  merged-IsSummary :
      (found : List DayAvailability) (ms : List Membership)
      → AllPrepared ms
      → All IsSummary found
      → All IsSummary (merged found ms)
  unfolding merged
  merged-IsSummary found [] h k = k
  merged-IsSummary found (m ∷ ms) h k =
      merged-IsSummary (merge_all found (days_of m)) ms h.1
        (merge_all-IsSummary found (days_of m) k (days_of_lem m h.0.0 h.0.1).1)

  open_on-merged :
      (t : ℕ) (found : List DayAvailability) (ms : List Membership)
      → open_on t (merged found ms) ≡ (open_on t found || any (λ m. open_on t (days_of m)) ms)
  unfolding merged
  open_on-merged t found [] = ground arith
  open_on-merged t found (m ∷ ms) =
      open_on-merged t (merge_all found (days_of m)) ms
      ∙ ap (λ r. r || any (λ n. open_on t (days_of n)) ms) (open_on-merge_all t found (days_of m))
      ∙ sym
          (or_swap (open_on t found) (open_on t (days_of m)) (any (λ n. open_on t (days_of n)) ms))

  -- What the calendar shows for a service: where the slots of every professional that offers it in the
  -- comercio can be prepared and the service takes some time, the call returns days by their dates. On
  -- each, the free hours are at most the hours, the day is bookable exactly if an hour is free, its
  -- status is `available` exactly then, and its occupancy is the share of the hours that are taken, a
  -- number from 0 to 1. A date has a bookable day exactly if it has one for some professional.
  pub compute_service_day_availability-IsSummary :
      (comercio_id : ℕ)
      → AllPrepared (in_comercio zones comercio_id service_id db)
      → (days : List DayAvailability) × (compute_service_day_availability zones now comercio_id
            service_id from to addon_ids db
          ≡ (ok days, db))
        × Ascending (λ d. d.date) days
        × All IsSummary days
        × ((t : ℕ)
            → open_on t days
              ≡ any (λ m. open_on t (days_of m)) (in_comercio zones comercio_id service_id db))
  unfolding compute_service_day_availability
  compute_service_day_availability-IsSummary comercio_id h =
      let ms = in_comercio zones comercio_id service_id db in
      (
        sort_by (λ a b. ltb b.date a.date) (merged [] ms),
        ground (arith, collect_days-merged [] ms h),
        sort_by-Ascending (λ d. d.date) (merged [] ms),
        sort_by-All _ IsSummary (merged [] ms) (merged-IsSummary [] ms h tt),
        λ t. any-sort_by _ (λ d. d.date == t && d.bookable) (merged [] ms) ∙ open_on-merged t [] ms,
      )
