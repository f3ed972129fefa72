-- ===== src/Lifecycle/NewRows.antt =====
-- The calls of src/modules/appointments/appointments.service.ts that insert an appointment, under a key of
-- its own, or make others give way, take no other one out of a final state.
use back_costa_turnos.Base.{
  ℕ, ◌≡◌, ◌≢◌, refl, Bool, Option, none, some, List, [], ◌∷◌, arith, nat_coded, Option-cases, inl,
  inr,
}
use back_costa_turnos.Enums.{AppointmentStatus, CreatedVia, appointment_status_coded}
use back_costa_turnos.Identity.{
  PersonData, new_person, or_then, by_email, by_phone, loose_or_new, save_person, find_or_create,
  find_or_create_for_account,
}
use back_costa_turnos.Store.Rows.{
  Appointment, Payment, PendingBooking, Service, Membership, Person, Notification, AppointmentAddon,
}
use back_costa_turnos.Store.Db.{Db, Action, pure, gets, ◌>>=◌}
use back_costa_turnos.Store.Frame.{Keeps, steps, >>=-Keeps, pure-Keeps, gets-Keeps}
use back_costa_turnos.Combination.{AddonPricing}
use back_costa_turnos.Booking.{
  NewIds, ClientRef, Slot, new_appointment, load_service, get_active_membership,
  resolve_booking_membership, person_of_ref, resolve_person_id, with_client,
  ensure_professional_client, save_addons, enqueue,
}
use back_costa_turnos.Booking.Book.{BookDto, reserve, book, assert_available}
use back_costa_turnos.Booking.Deposit.{
  Order, bump_all, bumped, take_off_system, take_hold, take_slot,
}
use back_costa_turnos.Booking.Confirm.{confirm_hold}
use back_costa_turnos.WaitingRoom.{Day}
use back_costa_turnos.WaitingRoom.Queue.{create_walk_in}
use back_costa_turnos.Lifecycle.Final.{Ended, final, save-Keeps, other-Keeps, query-Keeps}
use back_costa_turnos.Lifecycle.Writes.{mark_arrival-Keeps}

module _ (k : ℕ) where
  new-Ended :
      (id : ℕ) (s : Slot) (status : AppointmentStatus) (provisional : Bool) (via : CreatedVia)
      → id ≢ k
      → Ended k (new_appointment id s status provisional via)
  new-Ended id s status provisional via ne e = absurd (ne e)

  with_client-appointments :
      (p person : ℕ) (db : Db) → (with_client p person db).appointments ≡ db.appointments
  unfolding with_client
  with_client-appointments p person db = ground arith

  ensure-Keeps : (p person : ℕ) → Keeps (final k) (ensure_professional_client p person)
  unfolding ensure_professional_client
  ensure-Keeps p person = other-Keeps k _ (λ db. with_client-appointments p person db)

  save_addons-Keeps : (rows : List AppointmentAddon) → Keeps (final k) (save_addons rows)
  unfolding save_addons
  save_addons-Keeps rows = other-Keeps k _ (λ db. refl)

  enqueue-Keeps : (n : Notification) → Keeps (final k) (enqueue n)
  unfolding enqueue
  enqueue-Keeps n = other-Keeps k _ (λ db. refl)

  save_person-Keeps : (p : Person) → Keeps (final k) (save_person p)
  unfolding save_person
  save_person-Keeps p = record { keeps = λ db h. record { is_there = h.is_there; ended = h.ended } }

  pub load_service-Keeps : (id : ℕ) → Keeps (final k) (load_service id)
  unfolding load_service
  load_service-Keeps id = search steps depth 12

  get_active_membership-Keeps : (p c : ℕ) → Keeps (final k) (get_active_membership p c)
  unfolding get_active_membership
  get_active_membership-Keeps p c = search steps depth 12

  pub resolve_booking_membership-Keeps :
      (p : ℕ) (s : Service) → Keeps (final k) (resolve_booking_membership p s)
  unfolding resolve_booking_membership
  resolve_booking_membership-Keeps p s = search (steps, get_active_membership-Keeps) depth 12

  assert_available-Keeps :
      (now p : ℕ) (s : Service) (b e : ℕ) → Keeps (final k) (assert_available now p s b e)
  unfolding assert_available
  assert_available-Keeps now p s b e = search steps depth 12

  reserve-Keeps :
      (now id : ℕ) (s : Service) (slot : Slot) (provisional : Bool) (via : CreatedVia)
      (addons : List AddonPricing)
      → id ≢ k
      → Keeps (final k) (reserve now id s slot provisional via addons)
  unfolding reserve
  reserve-Keeps now id s slot provisional via addons ne =
      search
        (steps, assert_available-Keeps, save-Keeps k, new-Ended, ensure-Keeps, save_addons-Keeps)
        depth 16

  bump_all-Keeps : (t : ℕ) (xs : List Appointment) → Keeps (final k) (bump_all t xs)
  unfolding bump_all
  bump_all-Keeps t [] = pure-Keeps (final k) tt
  bump_all-Keeps t (x ∷ xs) =
      >>=-Keeps (final k) _ _ (save-Keeps k (bumped x) (λ _. refl))
        λ _. >>=-Keeps (final k) _ _ (enqueue-Keeps _) λ _. bump_all-Keeps t xs

  created-Keeps :
      (id : ℕ) (d : PersonData) (account : Option ℕ) (found : Option Person)
      → Keeps (final k) (elim found as (λ _. Action Person) [
        | none ↦ save_person (new_person id d account)
        | some p ↦ pure p
      ])
  created-Keeps id d account none = save_person-Keeps (new_person id d account)
  created-Keeps id d account (some p) = pure-Keeps (final k) p

  find_or_create-Keeps :
      (id : ℕ) (d : PersonData) (account : Option ℕ) → Keeps (final k) (find_or_create id d account)
  unfolding find_or_create
  find_or_create-Keeps id d account =
      >>=-Keeps (final k) _ _ (gets-Keeps (final k) _) λ found. created-Keeps id d account found

  loosened-Keeps :
      (id account : ℕ) (d : PersonData) (linked : Option Person)
      → Keeps (final k) (elim linked as (λ _. Action Person) [
        | none ↦ gets (λ db. or_then (by_email d db.persons) (by_phone d db.persons)) >>= λ loose.
            save_person (loose_or_new id account d loose)
        | some p ↦ pure p
      ])
  loosened-Keeps id account d none = search (steps, save_person-Keeps) depth 8
  loosened-Keeps id account d (some p) = pure-Keeps (final k) p

  find_or_create_for_account-Keeps :
      (id account : ℕ) (d : PersonData) → Keeps (final k) (find_or_create_for_account id account d)
  unfolding find_or_create_for_account
  find_or_create_for_account-Keeps id account d =
      >>=-Keeps (final k) _ _ (gets-Keeps (final k) _) λ linked. loosened-Keeps id account d linked

  given-Keeps : (new_id : ℕ) (ref : ClientRef) → Keeps (final k) (person_of_ref new_id ref)
  unfolding person_of_ref
  given-Keeps new_id ref = elim (Option-cases ref.person_id) [
    | inl e ↦ rw e (search (steps, find_or_create-Keeps) depth 12)
    | inr (p, e) ↦ rw e (search steps depth 12)
  ]

  pub resolve_person_id-Keeps :
      (id : ℕ) (ref : ClientRef) (account : Option ℕ)
      → Keeps (final k) (resolve_person_id id ref account)
  unfolding resolve_person_id
  resolve_person_id-Keeps id ref none = given-Keeps id ref
  resolve_person_id-Keeps id ref (some a) =
      search (steps, find_or_create_for_account-Keeps) depth 12

  pub book-Keeps :
      (now : ℕ) (ids : NewIds) (t : ℕ) (dto : BookDto) (via : CreatedVia) (account : Option ℕ)
      → ids.appointment ≢ k
      → Keeps (final k) (book now ids t dto via account)
  unfolding book
  book-Keeps now ids t dto via account ne =
      search
        (
          steps,
          query-Keeps k,
          load_service-Keeps,
          resolve_booking_membership-Keeps,
          resolve_person_id-Keeps,
          reserve-Keeps,
        )
        depth 24

  pub create_walk_in-Keeps :
      (now : ℕ) (day : Day) (token id person professional : ℕ) (m : Membership) (staff service : ℕ)
      (client : ClientRef) (approval : Bool) (account : Option ℕ)
      → id ≢ k
      → Keeps (final k) (
          create_walk_in now day token id person professional m staff service client approval
            account)
  unfolding create_walk_in
  create_walk_in-Keeps now day token id person professional m staff service client approval account
        ne =
      search
        (
          steps,
          load_service-Keeps,
          resolve_person_id-Keeps,
          save-Keeps k,
          new-Ended,
          mark_arrival-Keeps k,
          ensure-Keeps,
        )
        depth 24

  pub take_slot-Keeps :
      (now : ℕ) (ids : NewIds) (order : Order)
      → ids.appointment ≢ k
      → Keeps (final k) (take_slot now ids order)
  unfolding take_slot take_off_system take_hold
  take_slot-Keeps now ids order ne =
      search
        (
          steps,
          query-Keeps k,
          bump_all-Keeps,
          save-Keeps k,
          new-Ended,
          ensure-Keeps,
          save_addons-Keeps,
          enqueue-Keeps,
          other-Keeps k,
        )
        depth 24

  pub confirm_hold-Keeps :
      (id : ℕ) (payment : Payment) (p : PendingBooking)
      → id ≢ k
      → Keeps (final k) (confirm_hold id payment p)
  unfolding confirm_hold
  confirm_hold-Keeps id payment p ne =
      search
        (
          steps,
          bump_all-Keeps,
          save-Keeps k,
          new-Ended,
          ensure-Keeps,
          save_addons-Keeps,
          enqueue-Keeps,
          other-Keeps k,
        )
        depth 24
