-- ===== src/Booking/Book.antt =====
-- `book` (src/modules/appointments/appointments.service.ts): a reservation without payment.
use back_costa_turnos.Base.{
  ℕ, ◌+◌, ◌*◌, Bool, not, ◌&&◌, ◌||◌, Option, List, map, leb, ◌==◌, nat_coded, any, count, sum_by,
}
use back_costa_turnos.Base.Http.{bad_request, conflict}
use back_costa_turnos.Enums.{
  AppointmentStatus, CreatedVia, payment_method_coded, payment_option_coded, payment_status_coded,
  appointment_status_coded, created_via_coded,
}
use back_costa_turnos.Store.Rows.{Appointment, Service, Membership}
use back_costa_turnos.Store.Table.{
  appointment_row, payment_row, pending_booking_row, professional_row,
}
use back_costa_turnos.Store.Db.{Action, pure, gets, query, ◌>>=◌, ◌>>◌, raise_if}
use back_costa_turnos.Combination.{AddonPricing, resolve_addons}
use back_costa_turnos.Booking.{
  NewIds, ClientRef, Slot, overlapping, pending_holds, assert_lead_time, assert_max_booking_window,
  load_service, resolve_booking_membership, resolve_person_id, ensure_professional_client,
  save_appointment, save_addons, snapshot, addon_row, new_appointment,
}

pub record BookDto : Type 0 where
  pub service_id : ℕ
  pub start_at : ℕ
  pub staff_id : ℕ
  pub client : ClientRef
  pub addon_service_ids : List ℕ

abbrev pub addon_minutes : List AddonPricing → ℕ
addon_minutes = sum_by (λ a. a.service.duration_minutes)

-- Both queries run before the test; another service, or a full quota, refuses the hour.
unfoldable pub assert_available : ℕ → ℕ → Service → ℕ → ℕ → Action (Unit {0})
assert_available now tenant_id service start_at end_at = do
  conflicts ← gets (λ db. overlapping db tenant_id start_at end_at)
  holds ← gets (λ db. pending_holds db now tenant_id start_at end_at)
  let other_conflict = any (λ a. not (a.service_id == service.id)) conflicts
  let other_hold = any (λ h. not (h.service_id == service.id)) holds
  let same_count =
      count (λ a. a.service_id == service.id) conflicts
      + count (λ h. h.service_id == service.id) holds
  raise_if (other_conflict || (other_hold || leb service.capacity same_count)) conflict

abbrev pub slot_of : ℕ → Membership → Service → ℕ → ℕ → ℕ → ℕ → Slot
slot_of tenant_id m service staff_id person_id start_at end_at = record {
  professional_id = tenant_id;
  comercio_id = m.comercio_id;
  membership_id = m.id;
  staff_id = staff_id;
  person_id = person_id;
  service_id = service.id;
  start_at = start_at;
  end_at = end_at;
}

abbrev pub is_provisional_booking : Membership → Service → Bool
is_provisional_booking m service =
    m.allow_provisional_bookings && (service.allow_deposit || service.allow_full_payment)

-- From the conflict test to the end of `book`.
unfoldable pub reserve :
    ℕ → ℕ → Service → Slot → Bool → CreatedVia → List AddonPricing → Action Appointment
reserve now new_id service slot provisional created_via addons = do
  assert_available now slot.professional_id service slot.start_at slot.end_at
  let saved = new_appointment new_id slot AppointmentStatus.confirmed provisional created_via
  save_appointment saved
  ensure_professional_client slot.professional_id slot.person_id
  save_addons (map (λ a. addon_row saved.id slot.professional_id (snapshot a)) addons)
  pure saved

unfoldable pub book : ℕ → NewIds → ℕ → BookDto → CreatedVia → Option ℕ → Action Appointment
book now ids tenant_id dto created_via account_id = do
  service ← load_service dto.service_id
  raise_if (not service.allow_no_payment) bad_request
  m ← resolve_booking_membership tenant_id service
  addons ← query (λ db. resolve_addons db.combination m.id service dto.addon_service_ids)
  let end_at = dto.start_at + (service.duration_minutes + addon_minutes addons) * 60000
  query (λ _. assert_lead_time now dto.start_at m.min_booking_hours)
  query (λ _. assert_max_booking_window now dto.start_at m.max_booking_days)
  person_id ← resolve_person_id ids.person dto.client account_id
  reserve now ids.appointment service
      (slot_of tenant_id m service dto.staff_id person_id dto.start_at end_at)
      (is_provisional_booking m service) created_via addons
