-- ===== src/Tests/Assignment.antt =====
-- Reservations of the agenda's membership and service, and the properties at them.
use back_costa_turnos.Base.Sort.{Ascending, sort_by, insert_by}
use back_costa_turnos.Base.{
  ℕ, ◌≡◌, ◌↔◌, refl, true, none, some, List, [], ◌∷◌, arith, In, ◌==◌, nat_coded, ◌≤◌, any, ◌⊎◌,
  ◌+◌, ◌*◌,
}
use back_costa_turnos.Base.Http.{Result, ok, err, conflict}
use back_costa_turnos.Enums.{
  AppointmentStatus, CreatedVia, MembershipStatus, membership_status_coded,
}
use back_costa_turnos.Store.Rows.{Appointment, Membership}
use back_costa_turnos.Store.Table.{find_key, comercio_row}
use back_costa_turnos.Store.Db.{Db}
use back_costa_turnos.Booking.{NewIds, ClientRef, is_assigned, resolve_person_id, person_of_ref}
use back_costa_turnos.Booking.Book.{BookDto}
use back_costa_turnos.Booking.Capacity.{FitsIn}
use back_costa_turnos.Availability.Slots.{AvailableSlot}
use back_costa_turnos.Availability.Inputs.{
  active_assigned_memberships, compute_slots_by_membership, work_on, addon_duration, breaks_on,
  time_offs_of, busy_of,
}
use back_costa_turnos.Availability.{applies_to, services_of_rule}
use back_costa_turnos.Assignment.{book_for_membership, book_for_service, rank_candidates, may_write}
use back_costa_turnos.Assignment.Offered.{Ready, book_for_membership-offered}
use back_costa_turnos.Assignment.Choice.{Comes, load_of, is_candidate, rank_candidates-Ascending}
use back_costa_turnos.Assignment.Attempts.{Conflicts, Decides, attempt_at, book_for_service-Tries}
use back_costa_turnos.Availability.Days.{has_start}
use back_costa_turnos.Availability.Summaries.{
  AllCome, compute_service_slots, compute_service_slots-Ascending, in_comercio, begins,
}
use back_costa_turnos.Tests.{agenda, membership, haircut, ana, offline}
use back_costa_turnos.Tests.Hours.{plain, plain-IsCalendar, plain-IsSteady, loaded}

abbrev ids : NewIds
ids = record { appointment = 90; payment = 91; pending = 92; person = 93 }

abbrev known_client : ClientRef
known_client = record { person_id = some 20; full_name = none; email = none; phone = none }

ready : Ready (agenda []) ids known_client none membership haircut
unfolding resolve_person_id person_of_ref find_key
ready = record {
  chair = record { id = 6; professional_id = 1 };
  person_id = 20;
  persons = ana ∷ [];
  is_found = refl;
  is_free_of_charge = refl;
  works_there = refl;
  offers_it = refl;
  has_chair = refl;
  has_person = refl;
}

book_for_membership-offered_example :
    (slots : List AvailableSlot) × (compute_slots_by_membership
        (λ zone. plain)
        0
        4
        7
        (some 1)
        (some 1)
        []
        (agenda [])
      ≡ (ok slots, agenda []))
    × ((slot : AvailableSlot) (staff_id : ℕ)
        → In slot slots
        → (a : Appointment) × (db' : Db) × (book_for_membership
              (λ zone. plain)
              3
              offline
              0
              ids
              4
              (record {
                service_id = 7;
                start_at = slot.start_at;
                staff_id = staff_id;
                client = known_client;
                addon_service_ids = [];
              })
              CreatedVia.client_self
              none
              (agenda [])
            ≡ (ok a, db'))
          × (a.start_at ≡ slot.start_at)
          × (a.end_at ≡ slot.end_at)
          × (a.status ≡ AppointmentStatus.confirmed)
          × FitsIn db' 0
              (record {
                professional_id = a.professional_id;
                comercio_id = a.comercio_id;
                membership_id = a.membership_id;
                staff_id = a.staff_id;
                person_id = a.person_id;
                service_id = a.service_id;
                start_at = a.start_at;
                end_at = a.end_at;
              })
              haircut)
unfolding loaded
book_for_membership-offered_example =
    book_for_membership-offered (λ zone. plain) 3 offline 0 4 7 1 1 (agenda []) loaded ids
      known_client none ready (omega arith) plain-IsCalendar plain-IsSteady
      (tt, ((omega arith, λ h. omega arith), tt))

abbrev monday_slots : List AvailableSlot
monday_slots =
    record { start_at = 90_000_000; end_at = 91_800_000 }
    ∷ record { start_at = 91_800_000; end_at = 93_600_000 }
    ∷ record { start_at = 93_600_000; end_at = 95_400_000 }
    ∷ record { start_at = 95_400_000; end_at = 97_200_000 }
    ∷ []

found_comercio : find_key 3 (agenda []).comercios ≡ some (record { id = 3; timezone = 0 })
unfolding find_key
found_comercio = refl

comes :
    Comes
      (λ zone. plain)
      3
      offline
      0
      3
      7
      90_000_000
      []
      plain
      (agenda [])
      (λ m. monday_slots)
      (membership ∷ [])
unfolding compute_slots_by_membership find_key work_on applies_to services_of_rule addon_duration
    breaks_on time_offs_of busy_of
comes = (refl, tt)

rank_candidates-Ascending_example :
    (ranked : List Membership) × (rank_candidates
        (λ zone. plain)
        3
        offline
        0
        3
        7
        90_000_000
        []
        (agenda [])
      ≡ (ok ranked, agenda []))
    × Ascending
        (load_of
          (λ zone. plain)
          3
          offline
          0
          3
          7
          90_000_000
          []
          plain
          (agenda [])
          (λ m. monday_slots))
        ranked
    × ((m : Membership)
        → In m ranked ↔ (
            In m (agenda []).memberships
            × (m.status == MembershipStatus.active ≡ true)
            × (is_assigned 7 m.id (agenda []) ≡ true)
            × (m.comercio_id == 3 ≡ true)
            × (is_candidate
                  (λ zone. plain)
                  3
                  offline
                  0
                  3
                  7
                  90_000_000
                  []
                  plain
                  (agenda [])
                  (λ m. monday_slots)
                  m
                ≡ true)))
unfolding active_assigned_memberships
rank_candidates-Ascending_example =
    rank_candidates-Ascending (λ zone. plain) 3 offline 0 3 7 90_000_000 [] plain (agenda [])
      (λ m. monday_slots) (record { id = 3; timezone = 0 }) found_comercio refl comes

abbrev any_of_them : BookDto
any_of_them = record {
  service_id = 7;
  start_at = 90_000_000;
  staff_id = 6;
  client = known_client;
  addon_service_ids = [];
}

ranked_lem :
    rank_candidates (λ zone. plain) 3 offline 0 3 7 90_000_000 [] (agenda [])
    ≡ (ok (membership ∷ []), agenda [])
unfolding rank_candidates compute_slots_by_membership find_key active_assigned_memberships may_write
    work_on applies_to services_of_rule addon_duration sort_by breaks_on time_offs_of busy_of
    insert_by
ranked_lem = refl

-- Each attempt inserts under keys of its own.
abbrev ids_of : ℕ → NewIds
ids_of n = record {
  appointment = 90 + 4 * n;
  payment = 91 + 4 * n;
  pending = 92 + 4 * n;
  person = 93 + 4 * n;
}

book_for_service-Tries_example :
    (r : Result Appointment) × (db' : Db) × (book_for_service
        (λ zone. plain)
        3
        offline
        0
        ids_of
        3
        7
        any_of_them
        CreatedVia.client_self
        none
        (agenda [])
      ≡ (r, db'))
    × ((Conflicts
            (attempt_at
              (λ zone. plain)
              3
              offline
              0
              ids_of
              7
              any_of_them
              CreatedVia.client_self
              none)
            0
            (membership ∷ [])
            (agenda [])
            db'
          × (r ≡ err conflict))
        ⊎ Decides
            (attempt_at
              (λ zone. plain)
              3
              offline
              0
              ids_of
              7
              any_of_them
              CreatedVia.client_self
              none)
            0
            (membership ∷ [])
            (agenda [])
            r
            db')
book_for_service-Tries_example =
    book_for_service-Tries (λ zone. plain) 3 offline 0 ids_of 7 any_of_them CreatedVia.client_self
      none 3 (agenda []) (membership ∷ []) ranked_lem

all_come :
    AllCome
      (λ zone. plain)
      0
      7
      (some 1)
      (some 1)
      []
      (agenda [])
      (λ m. monday_slots)
      (membership ∷ [])
unfolding compute_slots_by_membership find_key work_on applies_to services_of_rule addon_duration
    breaks_on time_offs_of busy_of
all_come = (refl, tt)

compute_service_slots-Ascending_example :
    (slots : List AvailableSlot) × (compute_service_slots
        (λ zone. plain)
        0
        3
        7
        (some 1)
        (some 1)
        []
        (agenda [])
      ≡ (ok slots, agenda []))
    × Ascending (λ s. s.start_at) slots
    × ((t : ℕ) → begins (λ zone. plain) t slots ≤ 1)
    × ((t : ℕ)
        → has_start (λ zone. plain) t slots
          ≡ any
              (λ m. has_start (λ zone. plain) t monday_slots)
              (in_comercio (λ zone. plain) 3 7 (agenda [])))
unfolding active_assigned_memberships
compute_service_slots-Ascending_example =
    compute_service_slots-Ascending (λ zone. plain) 0 7 (some 1) (some 1) [] (agenda [])
      (λ m. monday_slots) 3 all_come
