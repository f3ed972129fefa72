-- ===== src/Tests/Days.antt =====
-- The days of the agenda's service, and the property at them.
use back_costa_turnos.Base.Sort.{Ascending}
use back_costa_turnos.Base.{ℕ, ◌≡◌, refl, some, List, [], ◌∷◌, arith, All, any}
use back_costa_turnos.Base.Http.{ok}
use back_costa_turnos.Store.Rows.{Membership}
use back_costa_turnos.Store.Table.{find_key}
use back_costa_turnos.Availability.{get_membership_by_id, get_comercio}
use back_costa_turnos.Availability.Inputs.{
  SlotInputs, args_of, walk_in_on, prepare_slot_inputs, active_assigned_memberships, addon_duration,
}
use back_costa_turnos.Availability.Days.{DayAvailability}
use back_costa_turnos.Availability.Summaries.{in_comercio, compute_service_day_availability}
use back_costa_turnos.Availability.DaySummary.{IsSummary, open_on}
use back_costa_turnos.Availability.ServiceDays.{
  days_of, AllPrepared, compute_service_day_availability-IsSummary,
}
use back_costa_turnos.Tests.{agenda, membership, haircut}
use back_costa_turnos.Tests.Hours.{plain}

abbrev prepared : Membership → SlotInputs
prepared m = record {
  zone = 0;
  args = args_of (λ zone. plain) (agenda []) 0 m haircut 0 1 1 [];
  walk_in_by_day = walk_in_on (agenda []) m 7;
  walk_in_only = m.walk_in_only;
}

all_prepared :
    AllPrepared (λ zone. plain) 0 7 (some 1) (some 1) [] (agenda []) prepared (membership ∷ [])
unfolding prepare_slot_inputs find_key args_of addon_duration get_membership_by_id get_comercio
all_prepared = ((refl, omega arith), tt)

compute_service_day_availability-IsSummary_example :
    (days : List DayAvailability) × (compute_service_day_availability
        (λ zone. plain)
        0
        3
        7
        (some 1)
        (some 1)
        []
        (agenda [])
      ≡ (ok days, agenda []))
    × Ascending (λ d. d.date) days
    × All IsSummary days
    × ((t : ℕ)
        → open_on t days
          ≡ any
              (λ m.
                open_on t (days_of (λ zone. plain) 0 7 (some 1) (some 1) [] (agenda []) prepared m))
              (in_comercio (λ zone. plain) 3 7 (agenda [])))
unfolding active_assigned_memberships
compute_service_day_availability-IsSummary_example =
    compute_service_day_availability-IsSummary (λ zone. plain) 0 7 (some 1) (some 1) [] (agenda [])
      prepared 3 all_prepared
