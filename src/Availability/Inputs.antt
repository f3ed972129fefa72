-- ===== src/Availability/Inputs.antt =====
-- What the slots of a membership and a service are computed from, and the slots:
-- `prepareSlotInputs` and `computeSlotsByMembership` of
-- src/modules/availability/availability.service.ts.
use back_costa_turnos.Base.{
  [], ◌∷◌, ℕ, ◌+◌, Bool, not, ◌&&◌, ◌||◌, Option, List, ◌++◌, map, ltb, leb, ◌==◌, nat_coded,
  filter, any, sum_by,
}
use back_costa_turnos.Base.Http.{not_found, bad_request, internal}
use back_costa_turnos.Enums.{
  AppointmentStatus, MembershipStatus, membership_status_coded, appointment_status_coded, work,
  schedule_rule_kind_coded,
}
use back_costa_turnos.Store.Rows.{
  Appointment, PendingBooking, Membership, Service, ScheduleRule, TimeOff,
}
use back_costa_turnos.Store.Table.{find_key, service_row}
use back_costa_turnos.Store.Db.{Db, Action, pure, gets, ◌>>=◌, ◌>>◌, raise_if, or_raise}
use back_costa_turnos.Combination.{contains}
use back_costa_turnos.Booking.{is_assigned}
use back_costa_turnos.Availability.{
  Luxon, get_membership_by_id, get_comercio, is_membership_of, applies_to, is_walk_in_rule,
}
use back_costa_turnos.Availability.Rules.{filter_assigned}
use back_costa_turnos.Availability.Slots.{
  AvailableSlot, BusyInterval, BuildSlotsArgs, build_slots_with_counts,
}

-- `BLOCKING_STATUSES`
abbrev pub is_blocking : AppointmentStatus → Bool
is_blocking s =
    s == AppointmentStatus.requested
    || (s == AppointmentStatus.confirmed
        || (s == AppointmentStatus.in_progress || s == AppointmentStatus.done))

-- `Between` has both its ends.
abbrev pub between : ℕ → ℕ → ℕ → Bool
between first last t = leb first t && leb t last

abbrev pub blocks : ℕ → ℕ → ℕ → Appointment → Bool
blocks professional_id first last a =
    a.professional_id == professional_id && (is_blocking a.status && between first last a.start_at)

abbrev pub still_held : ℕ → ℕ → ℕ → ℕ → PendingBooking → Bool
still_held now professional_id first last h =
    h.professional_id == professional_id && (ltb now h.expires_at && between first last h.start_at)

abbrev pub busy_visit : Appointment → BusyInterval
busy_visit a = record { service_id = a.service_id; start_at = a.start_at; end_at = a.end_at }

abbrev pub busy_hold : PendingBooking → BusyInterval
busy_hold h = record { service_id = h.service_id; start_at = h.start_at; end_at = h.end_at }

unfoldable pub busy_of : Db → ℕ → ℕ → ℕ → ℕ → List BusyInterval
busy_of db now professional_id first last =
    map busy_visit (filter (blocks professional_id first last) db.appointments)
    ++ map busy_hold (filter (still_held now professional_id first last) db.pending_bookings)

-- The rules of the membership that apply to the service, in one of the three lists.
abbrev pub of_service : Db → Membership → ℕ → ScheduleRule → Bool
of_service db m service_id rule = rule.membership_id == m.id && applies_to db service_id rule

abbrev pub gives_walk_in : Membership → ScheduleRule → Bool
gives_walk_in m rule = rule.kind == work && is_walk_in_rule rule m

-- `workByDay`, `breaksByDay` and `walkInByDay` at a day: a window without appointments counts as a
-- break too.
unfoldable pub work_on : Db → Membership → ℕ → ℕ → List ScheduleRule
work_on db m service_id dow =
    filter
      (λ r.
        of_service db m service_id r
        && (r.day_of_week == dow && (r.kind == work && not (gives_walk_in m r))))
      db.schedule_rules

unfoldable pub breaks_on : Db → Membership → ℕ → ℕ → List ScheduleRule
breaks_on db m service_id dow =
    filter
      (λ r.
        of_service db m service_id r
        && (r.day_of_week == dow && (gives_walk_in m r || not (r.kind == work))))
      db.schedule_rules

unfoldable pub walk_in_on : Db → Membership → ℕ → ℕ → List ScheduleRule
walk_in_on db m service_id dow =
    filter (λ r. of_service db m service_id r && (r.day_of_week == dow && gives_walk_in m r))
      db.schedule_rules

-- The time off of all the active memberships of the professional.
unfoldable pub time_offs_of : Db → ℕ → List TimeOff
time_offs_of db professional_id =
    filter
      (λ t. any (λ m. m.id == t.membership_id && is_membership_of professional_id m) db.memberships)
      db.time_offs

-- The minutes of the added services that the membership offers.
unfoldable pub addon_duration : Db → ℕ → List ℕ → ℕ
addon_duration db membership_id [] = 0
addon_duration db membership_id (id ∷ ids) =
    let assigned = filter_assigned membership_id (id ∷ ids) db in
    sum_by (λ s. s.duration_minutes) (filter (λ s. contains assigned s.id) db.services)

-- `CatalogService.activeAssignedMemberships`, by age, which is the order of the table.
unfoldable pub active_assigned_memberships : Db → ℕ → List Membership
active_assigned_memberships db service_id =
    filter (λ m. m.status == MembershipStatus.active && is_assigned service_id m.id db)
      db.memberships

-- A range is two days, `none` where the text is no date.
abbrev pub day_of : Option ℕ → Action ℕ
day_of day = or_raise day bad_request

-- The inputs, with the two lists that only the summaries of the days read.
pub record SlotInputs : Type 0 where
  pub zone : ℕ
  pub args : BuildSlotsArgs
  pub walk_in_by_day : ℕ → List ScheduleRule
  pub walk_in_only : Bool

module _ (zones : ℕ → Luxon) where
  unfoldable pub args_of : Db → ℕ → Membership → Service → ℕ → ℕ → ℕ → List ℕ → BuildSlotsArgs
  args_of db now m service zone first last addon_ids = record {
    range_start = first;
    range_end = last;
    duration = service.duration_minutes + addon_duration db m.id addon_ids;
    target_service_id = service.id;
    capacity = service.capacity;
    work_by_day = work_on db m service.id;
    breaks_by_day = breaks_on db m service.id;
    time_offs = time_offs_of db m.professional_id;
    busy =
        busy_of db now m.professional_id ((zones zone).start_of first) ((zones zone).end_of last);
    min_booking_hours = m.min_booking_hours;
    max_booking_days = m.max_booking_days;
  }

  unfoldable pub prepare_slot_inputs : ℕ → ℕ → ℕ → Option ℕ → Option ℕ → List ℕ → Action SlotInputs
  unfolding args_of get_membership_by_id get_comercio
  prepare_slot_inputs now membership_id service_id from to addon_ids = do
    m ← get_membership_by_id membership_id
    comercio ← get_comercio m.comercio_id
    found ← gets (λ db. find_key service_id db.services)
    service ← or_raise found not_found
    assigned ← gets (is_assigned service_id membership_id)
    raise_if (not assigned) not_found
    first ← day_of from
    last ← day_of to
    raise_if (ltb last first) bad_request
    gets (λ db. record {
      zone = comercio.timezone;
      args = args_of db now m service comercio.timezone first last addon_ids;
      walk_in_by_day = walk_in_on db m service.id;
      walk_in_only = m.walk_in_only;
    })

  -- `none`, a loop that does not end, is a call that gives no answer; the theorems exclude it.
  abbrev answer_of : {A : Type 0} → Option A → Action A
  answer_of found = or_raise found internal

  unfoldable pub compute_slots_by_membership :
      ℕ → ℕ → ℕ → Option ℕ → Option ℕ → List ℕ → Action (List AvailableSlot)
  unfolding prepare_slot_inputs build_slots_with_counts
  compute_slots_by_membership now membership_id service_id from to addon_ids = do
    inputs ← prepare_slot_inputs now membership_id service_id from to addon_ids
    found ← answer_of (build_slots_with_counts (zones inputs.zone) now inputs.args)
    pure found.slots
