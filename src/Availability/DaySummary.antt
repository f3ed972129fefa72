-- ===== src/Availability/DaySummary.antt =====
-- The fields of a day's summary agree, and stay so when two days are merged (`mergeDayAvailability` of
-- src/modules/availability/availability.service.ts).
use back_costa_turnos.Base.{
  ℕ, zero, suc, ◌+◌, ◌-◌, ◌*◌, ◌≤◌, ◌<◌, ◌≡◌, refl, sym, ap, ◌∙◌, inl, inr, Bool, true, false, ◌&&◌,
  ◌||◌, Option, none, some, List, [], ◌∷◌, arith, ltb, ◌==◌, nat_coded, Bool-cases, nat_beq→eq, any,
  All, not,
}
use back_costa_turnos.Store.Rows.{TimeOff}
use back_costa_turnos.Availability.{Luxon, is_empty}
use back_costa_turnos.Availability.Slots.{Counts, DayCounts}
use back_costa_turnos.Availability.Inputs.{SlotInputs}
use back_costa_turnos.Availability.Days.{
  DayStatus, DayAvailability, Ratio, TimeWindow, counts_on, occupancy_of, day_without,
  day_availability, days_from, merge_day_availability, merge_in, merge_all, status_rank,
}

abbrev pub is_available : DayStatus → Bool
is_available DayStatus.available = true
is_available _ = false

-- The occupancy is the share of the hours that are taken, a number from 0 to 1.
abbrev pub IsOccupancy : ℕ → ℕ → Ratio → Type 0
IsOccupancy free total r =
    (r.part * total ≡ (total - free) * r.whole) × (r.part ≤ r.whole) × (0 < r.whole)

-- A day whose fields agree.
abbrev pub IsSummary : DayAvailability → Type 0
IsSummary d =
    (d.free_slots ≤ d.total_slots)
    × (d.bookable ≡ ltb 0 d.free_slots)
    × (is_available d.status ≡ d.bookable)
    × IsOccupancy d.free_slots d.total_slots d.occupancy

occupancy_of-IsOccupancy : (free total : ℕ) → IsOccupancy free total (occupancy_of free total)
unfolding occupancy_of
occupancy_of-IsOccupancy free total = elim (Bool-cases (ltb 0 total)) [
  | inl e ↦ rw e (refl, omega arith, ground (arith, e))
  | inr e ↦
      let q : total ≡ 0 = ground (arith, e) in rw (e, q) (omega arith, omega arith, omega arith)
]

day_without-IsSummary :
    (day : ℕ) (c : Counts) (windows : List TimeWindow) (only work : Bool) (off : Option TimeOff)
    → c.free ≡ 0
    → IsSummary (day_without day c windows only work off)
unfolding day_without
day_without-IsSummary day c windows only work (some off) e =
    let o : IsOccupancy 0 c.total (occupancy_of c.free c.total) =
      rw e (occupancy_of-IsOccupancy 0 c.total) in
    (omega arith, refl, refl, o)
day_without-IsSummary day c windows only false none e =
    elim (Bool-cases (not (is_empty windows) || only)) [
      | inl q ↦ rw q (omega arith, refl, refl, (refl, omega arith, omega arith))
      | inr q ↦ rw q (omega arith, refl, refl, (refl, omega arith, omega arith))
    ]
day_without-IsSummary day c windows only true none e = elim (Bool-cases (ltb 0 c.total)) [
  | inl q ↦ rw q (omega arith, refl, refl, (omega arith, omega arith, omega arith))
  | inr q ↦
      let z : c.total ≡ 0 = ground (arith, q) in
      rw q (omega arith, refl, refl, (omega (arith, z), omega arith, omega arith))
]

-- A day that has no more free hours than hours.
abbrev pub Fits : DayCounts → Type 0
Fits d = d.counts.free ≤ d.counts.total

counts_on-Fits :
    (day : ℕ) (ds : List DayCounts)
    → All Fits ds
    → (counts_on day ds).free ≤ (counts_on day ds).total
unfolding counts_on
counts_on-Fits day [] h = omega arith
counts_on-Fits day (d ∷ ds) h = elim (Bool-cases (d.date == day)) [
  | inl e ↦ rw e (h.0)
  | inr e ↦ rw e (counts_on-Fits day ds h.1)
]

day_availability-IsSummary :
    (luxon : Luxon) (inputs : SlotInputs) (ds : List DayCounts) (day : ℕ)
    → (counts_on day ds).free ≤ (counts_on day ds).total
    → IsSummary (day_availability luxon inputs ds day)
unfolding day_availability
day_availability-IsSummary luxon inputs ds day h =
    let c = counts_on day ds in
    elim (Bool-cases (ltb 0 (counts_on day ds).free)) [
      | inl e ↦ rw e (h, sym e, refl, occupancy_of-IsOccupancy c.free c.total)
      | inr e ↦ rw e (day_without-IsSummary day c _ inputs.walk_in_only _ _ (ground (arith, e)))
    ]

pub days_from-IsSummary :
    (luxon : Luxon) (inputs : SlotInputs) (ds : List DayCounts) (left day : ℕ)
    → All Fits ds
    → All IsSummary (days_from luxon inputs ds left day)
unfolding days_from
days_from-IsSummary luxon inputs ds zero day h = tt
days_from-IsSummary luxon inputs ds (suc left) day h = (
  day_availability-IsSummary luxon inputs ds day (counts_on-Fits day ds h),
  days_from-IsSummary luxon inputs ds left (day + 1) h,
)

merge_day_availability-date : (a b : DayAvailability) → (merge_day_availability a b).date ≡ a.date
unfolding merge_day_availability
merge_day_availability-date a b = elim (Bool-cases (a.bookable || b.bookable)) [
  | inl e ↦ rw e refl
  | inr e ↦ rw e refl
]

merge_day_availability-bookable :
    (a b : DayAvailability) → (merge_day_availability a b).bookable ≡ (a.bookable || b.bookable)
unfolding merge_day_availability
merge_day_availability-bookable a b = elim (Bool-cases (a.bookable || b.bookable)) [
  | inl e ↦ rw e refl
  | inr e ↦ rw e refl
]

some_free : (p q : Bool) (m n : ℕ) → p ≡ ltb 0 m → q ≡ ltb 0 n → (p || q) ≡ ltb 0 (m + n)
some_free p q m n h k = rw (h, k) (ground arith)

neither : (p q : Bool) → (p || q) ≡ false → (p ≡ false) × (q ≡ false)
neither true q h = ground arith
neither false q h = (refl, h)

merge_day_availability-IsSummary :
    (a b : DayAvailability) → IsSummary a → IsSummary b → IsSummary (merge_day_availability a b)
unfolding merge_day_availability
merge_day_availability-IsSummary a b h k =
    let o =
      occupancy_of-IsOccupancy (a.free_slots + b.free_slots) (a.total_slots + b.total_slots) in
    let fits : a.free_slots + b.free_slots ≤ a.total_slots + b.total_slots =
      omega (arith, h.0, k.0) in
    let free = some_free a.bookable b.bookable a.free_slots b.free_slots h.1 k.1 in
    elim (Bool-cases (a.bookable || b.bookable)) [
      | inl e ↦ rw e (fits, sym e ∙ free, refl, o)
      | inr e ↦
          let shut = neither a.bookable b.bookable e in
          elim (Bool-cases (ltb (status_rank a.status) (status_rank b.status))) [
            | inl q ↦ rw (e, q) (fits, sym e ∙ free, k.2 ∙ shut.1, o)
            | inr q ↦ rw (e, q) (fits, sym e ∙ free, h.2 ∙ shut.0, o)
          ]
    ]

merge_in-IsSummary :
    (day : DayAvailability) (ds : List DayAvailability)
    → IsSummary day
    → All IsSummary ds
    → All IsSummary (merge_in day ds)
unfolding merge_in
merge_in-IsSummary day [] h k = (h, tt)
merge_in-IsSummary day (d ∷ ds) h k = elim (Bool-cases (d.date == day.date)) [
  | inl e ↦ rw e (merge_day_availability-IsSummary d day k.0 h, k.1)
  | inr e ↦ rw e (k.0, merge_in-IsSummary day ds h k.1)
]

pub merge_all-IsSummary :
    (found days : List DayAvailability)
    → All IsSummary found
    → All IsSummary days
    → All IsSummary (merge_all found days)
unfolding merge_all
merge_all-IsSummary found [] h k = h
merge_all-IsSummary found (day ∷ days) h k =
    merge_all-IsSummary (merge_in day found) days (merge_in-IsSummary day found k.0 h) k.1

-- Whether that day can be booked.
abbrev pub open_on : ℕ → List DayAvailability → Bool
open_on t = any (λ d. d.date == t && d.bookable)

or_and_share : (p a b r : Bool) → ((p && (a || b)) || r) ≡ (((p && a) || r) || (p && b))
or_and_share true true b r = refl
or_and_share true false b true = ground arith
or_and_share true false b false = ground arith
or_and_share false a b r = ground arith

pub or_swap : (p q r : Bool) → (p || (q || r)) ≡ ((p || q) || r)
or_swap true q r = refl
or_swap false q r = refl

open_on-merge_in :
    (t : ℕ) (day : DayAvailability) (ds : List DayAvailability)
    → open_on t (merge_in day ds) ≡ (open_on t ds || (day.date == t && day.bookable))
unfolding merge_in
open_on-merge_in t day [] = ground arith
open_on-merge_in t day (d ∷ ds) = elim (Bool-cases (d.date == day.date)) [
  | inl e ↦
      let same : d.date ≡ day.date = nat_beq→eq _ _ e in
      rw e (
        rw (merge_day_availability-date d day, merge_day_availability-bookable d day)
          (or_and_share (d.date == t) d.bookable day.bookable (open_on t ds)
            ∙ ap (λ k. ((d.date == t && d.bookable) || open_on t ds) || (k == t && day.bookable))
                same))
  | inr e ↦ rw e (
      ap (λ r. (d.date == t && d.bookable) || r) (open_on-merge_in t day ds)
      ∙ or_swap (d.date == t && d.bookable) (open_on t ds) (day.date == t && day.bookable))
]

pub open_on-merge_all :
    (t : ℕ) (found days : List DayAvailability)
    → open_on t (merge_all found days) ≡ (open_on t found || open_on t days)
unfolding merge_all
open_on-merge_all t found [] = ground arith
open_on-merge_all t found (day ∷ days) =
    open_on-merge_all t (merge_in day found) days
    ∙ ap (λ r. r || open_on t days) (open_on-merge_in t day found)
    ∙ sym (or_swap (open_on t found) (day.date == t && day.bookable) (open_on t days))
