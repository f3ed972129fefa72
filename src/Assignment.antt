-- ===== src/Assignment.antt =====
-- Reservations that name a membership, or a service alone and leave the professional to the program:
-- `bookForMembership`, `bookForService`, their twins with a deposit and `rankCandidates` of
-- src/modules/appointments/appointments.service.ts.
pub mod Offered
pub mod Choice
pub mod Attempts
use back_costa_turnos.Base.Sort.{sort_by}
use back_costa_turnos.Base.{
  ℕ, suc, ◌+◌, ◌*◌, ◌≡◌, Bool, true, false, not, ◌&&◌, ◌||◌, Option, none, some, List, [], ◌∷◌,
  ◌++◌, map, ltb, leb, if◌then◌else◌, ◌==◌, nat_coded, or_else, filter, find?, any, count,
}
use back_costa_turnos.Base.Http.{HttpError, conflict, Result, ok, err, bad_request}
use back_costa_turnos.Enums.{
  CreatedVia, created_via_coded, MembershipStatus, membership_status_coded,
}
use back_costa_turnos.Store.Rows.{Appointment, Membership}
use back_costa_turnos.Store.Db.{Db, Action, pure, throw, gets, ◌>>=◌, ◌>>◌, raise_if}
use back_costa_turnos.Subscriptions.{by_tenant, has_write_access}
use back_costa_turnos.Booking.{NewIds, is_active, is_assigned}
use back_costa_turnos.Booking.Book.{BookDto, book}
use back_costa_turnos.Booking.Deposit.{DepositDto, Booked, book_with_deposit}
use back_costa_turnos.Payments.{Provider}
use back_costa_turnos.Availability.{
  Luxon, get_membership_by_id, get_comercio, staff_of, is_walk_in_at,
}
use back_costa_turnos.Availability.Slots.{AvailableSlot}
use back_costa_turnos.Availability.Inputs.{
  active_assigned_memberships, between, compute_slots_by_membership,
}

pub record BookingTarget : Type 0 where
  pub professional_id : ℕ
  pub staff_id : ℕ

unfoldable pub resolve_membership_booking_target : ℕ → Action BookingTarget
unfolding get_membership_by_id staff_of
resolve_membership_booking_target membership_id = do
  m ← get_membership_by_id membership_id
  chair ← staff_of m.professional_id
  pure (record { professional_id = m.professional_id; staff_id = chair.id })

-- A professional without a subscription may write.
unfoldable pub may_write : ℕ → ℕ → ℕ → Db → Bool
may_write grace_days now professional_id db = elim (by_tenant professional_id db.subscriptions) [
  | none ↦ true
  | some sub ↦ has_write_access grace_days sub now
]

unfoldable pub day_load : Luxon → ℕ → ℕ → Db → ℕ
day_load luxon professional_id instant db =
    let day = (luxon.local instant).day in
    count
      (λ a.
        a.professional_id == professional_id
        && (is_active a.status && between (luxon.start_of day) (luxon.end_of day) a.start_at))
      db.appointments

pub record Scored : Type 0 where
  pub membership : Membership
  pub load : ℕ

-- `err instanceof ConflictException`
abbrev pub is_conflict : HttpError → Bool
is_conflict conflict = true
is_conflict _ = false

-- The next candidate is tried after a conflict, on the tables as the last attempt left them. An attempt
-- is given its number, by which the rows that it inserts have keys of their own.
module _ {B : Type 0} (attempt : ℕ → ℕ → Action B) where
  unfoldable pub try_each : ℕ → List Membership → Action B
  try_each n [] db = (err conflict, db)
  try_each n (m ∷ ms) db =
      let (r, db') = attempt n m.id db in
      let rest = try_each (suc n) ms db' in
      elim r [ ok b ↦ (ok b, db') | err e ↦ if is_conflict e then rest else (err e, db') ]

module _ (zones : ℕ → Luxon) (grace_days : ℕ) (provider : Provider) where
  unfoldable pub assert_not_walk_in_slot : ℕ → ℕ → ℕ → Action (Unit {0})
  unfolding get_membership_by_id
  assert_not_walk_in_slot membership_id service_id start_at = do
    m ← get_membership_by_id membership_id
    walk_in ← is_walk_in_at zones m service_id start_at
    raise_if walk_in bad_request

  -- What a client books keeps off the windows without appointments.
  abbrev pub guard_client : CreatedVia → ℕ → ℕ → ℕ → Action (Unit {0})
  guard_client created_via membership_id service_id start_at =
      if created_via == CreatedVia.client_self
      then assert_not_walk_in_slot membership_id service_id start_at
      else pure tt

  unfoldable pub book_for_membership :
      ℕ → NewIds → ℕ → BookDto → CreatedVia → Option ℕ → Action Appointment
  unfolding resolve_membership_booking_target
  book_for_membership now ids membership_id dto created_via account_id = do
    target ← resolve_membership_booking_target membership_id
    guard_client created_via membership_id dto.service_id dto.start_at
    book now ids target.professional_id (record dto { staff_id = target.staff_id }) created_via
        account_id

  unfoldable pub book_with_deposit_for_membership :
      ℕ → NewIds → ℕ → DepositDto → Option ℕ → Action Booked
  unfolding resolve_membership_booking_target assert_not_walk_in_slot
  book_with_deposit_for_membership now ids membership_id dto account_id = do
    target ← resolve_membership_booking_target membership_id
    assert_not_walk_in_slot membership_id dto.service_id dto.start_at
    book_with_deposit provider now ids target.professional_id
        (record dto { staff_id = target.staff_id }) account_id

  -- The loop that scores the memberships which may write and have that hour free.
  unfoldable pub score : ℕ → Luxon → ℕ → ℕ → List ℕ → List Membership → Action (List Scored)
  score now luxon service_id start_at addon_ids [] = pure []
  score now luxon service_id start_at addon_ids (m ∷ ms) = do
    let day = (luxon.local start_at).day
    let rest = score now luxon service_id start_at addon_ids ms
    open_to_write ← gets (may_write grace_days now m.professional_id)
    if not open_to_write then rest else (do
      slots ← compute_slots_by_membership zones now m.id service_id (some day) (some day) addon_ids
      load ← gets (day_load luxon m.professional_id start_at)
      others ← rest
      pure (
          if any (λ s. s.start_at == start_at) slots
          then record { membership = m; load = load } ∷ others
          else others))

  unfoldable pub rank_candidates : ℕ → ℕ → ℕ → ℕ → List ℕ → Action (List Membership)
  unfolding get_comercio score
  rank_candidates now comercio_id service_id start_at addon_ids = do
    comercio ← get_comercio comercio_id
    memberships ← gets (λ db.
        filter (λ m. m.comercio_id == comercio_id) (active_assigned_memberships db service_id))
    scored ← score now (zones comercio.timezone) service_id start_at addon_ids memberships
    pure (map (λ s. s.membership) (sort_by (λ a b. ltb b.load a.load) scored))

  unfoldable pub book_for_service :
      ℕ → (ℕ → NewIds) → ℕ → ℕ → BookDto → CreatedVia → Option ℕ → Action Appointment
  unfolding rank_candidates try_each
  book_for_service now ids comercio_id service_id dto created_via account_id = do
    candidates ← rank_candidates now comercio_id service_id dto.start_at dto.addon_service_ids
    try_each
        (λ n membership_id.
          book_for_membership now (ids n) membership_id (record dto { service_id = service_id })
            created_via account_id)
        0 candidates

  unfoldable pub book_with_deposit_for_service :
      ℕ → (ℕ → NewIds) → ℕ → ℕ → DepositDto → Option ℕ → Action Booked
  unfolding rank_candidates try_each
  book_with_deposit_for_service now ids comercio_id service_id dto account_id = do
    candidates ← rank_candidates now comercio_id service_id dto.start_at dto.addon_service_ids
    try_each
        (λ n membership_id.
          book_with_deposit_for_membership now (ids n) membership_id
            (record dto { service_id = service_id }) account_id)
        0 candidates
