-- ===== src/Booking/Bump.antt =====
-- What `bookWithDeposit` (src/modules/appointments/appointments.service.ts) decides about an hour under
-- its lock: which provisional appointments give way.
use back_costa_turnos.Base.{
  ℕ, zero, suc, ◌+◌, ◌-◌, ◌≤◌, ◌<◌, ◌≡◌, refl, sym, ◌∙◌, ◌⊎◌, inl, inr, true, not, ◌||◌, List, [],
  ◌∷◌, ◌++◌, ap, arith, leb, ◌==◌, nat_coded, Bool-cases, length, filter, any, all, count, drop,
  take,
}
use back_costa_turnos.Base.Http.{conflict, ok, err}
use back_costa_turnos.Enums.{
  payment_method_coded, payment_option_coded, payment_status_coded, appointment_status_coded,
  created_via_coded,
}
use back_costa_turnos.Store.Rows.{Appointment, PendingBooking, Service}
use back_costa_turnos.Store.Table.{
  appointment_row, payment_row, pending_booking_row, professional_row,
}
use back_costa_turnos.Booking.Capacity.{case_clash, all-of_none_other, none_other-of_all}
use back_costa_turnos.Booking.Deposit.{same_service, firm_same, prov_same, plan_slot}

length-drop : {A : Type 0} (n : ℕ) (xs : List A) → length (drop n xs) ≡ length xs - n
length-drop zero xs = ground arith
length-drop (suc n) [] = ground arith
length-drop (suc n) (x ∷ xs) = ground (arith, length-drop n xs)

take-drop : {A : Type 0} (n : ℕ) (xs : List A) → take n xs ++ drop n xs ≡ xs
take-drop zero xs = refl
take-drop (suc n) [] = refl
take-drop (suc n) (x ∷ xs) = ap (λ l. x ∷ l) (take-drop n xs)

module _ (service : Service) where
  -- Nobody else's service is in the hour.
  abbrev pub SameService : List Appointment → List PendingBooking → Type 0
  SameService conflicts holds =
      (all (same_service service) conflicts ≡ true)
      × (all (λ h. h.service_id == service.id) holds ≡ true)

  count-firm :
      (xs : List Appointment)
      → all (same_service service) xs ≡ true
      → count (firm_same service) xs ≡ count (λ a. not a.is_provisional) xs
  count-firm [] h = refl
  count-firm (x ∷ xs) h = ground (arith, count-firm xs)

  filter-provisional :
      (xs : List Appointment)
      → all (same_service service) xs ≡ true
      → filter (prov_same service) xs ≡ filter (λ a. a.is_provisional) xs
  filter-provisional [] h = refl
  filter-provisional (x ∷ xs) h = ground (arith, h, filter-provisional xs)

  length-provisional :
      (xs : List Appointment)
      → all (same_service service) xs ≡ true
      → length (filter (prov_same service) xs) + count (firm_same service) xs ≡ length xs
  length-provisional [] h = refl
  length-provisional (x ∷ xs) h = ground (arith, length-provisional xs)

module _ (service : Service) (conflicts : List Appointment) (holds : List PendingBooking) where
  -- The rows of the hour that keep their place: firm appointments and holds.
  abbrev pub firm : ℕ
  firm = count (λ a. not a.is_provisional) conflicts + length holds

  -- The appointments that the plan removes are the last of the provisional ones of the hour, the others
  -- are kept, and they are as many as it takes to fit one more, not one fewer and not one over.
  pub record IsPlan (gone : List Appointment) : Type 0 where
    pub kept : List Appointment
    pub of_hour : filter (λ a. a.is_provisional) conflicts ≡ kept ++ gone
    pub enough : length gone ≡ length conflicts + length holds + 1 - service.capacity

  -- The hour of a deposit booking is refused, or planned: where it holds the rows of the service alone
  -- it is refused only if firm rows and holds fill the capacity; otherwise they do not, and the plan
  -- removes the last of the provisional appointments of the hour, exactly as many as the new row needs
  -- to fit.
  pub plan_slot-IsPlan :
      ((plan_slot service conflicts holds ≡ err conflict)
        × (SameService service conflicts holds → service.capacity ≤ firm))
      ⊎ (SameService service conflicts holds
          × (firm < service.capacity)
          × ((gone : List Appointment) × (plan_slot service conflicts holds ≡ ok gone)
              × IsPlan gone))
  unfolding plan_slot
  plan_slot-IsPlan =
      let other =
        any (λ a. not (same_service service a)) conflicts
        || any (λ h. not (h.service_id == service.id)) holds in
      let firm_occupied =
        count (firm_same service) conflicts + count (λ h. h.service_id == service.id) holds in
      elim (Bool-cases other) [
        | inl e ↦ inl (
          rw e refl,
          λ s. absurd (
              case_clash (
                sym e
                ∙ ground (
                  arith,
                  none_other-of_all (same_service service) conflicts s.0,
                  none_other-of_all (λ h. h.service_id == service.id) holds s.1,
                ))),
        )
        | inr e ↦
            let same_a = all-of_none_other (same_service service) conflicts (ground arith) in
            let same_h = all-of_none_other (λ h. h.service_id == service.id) holds (ground arith) in
            let firm_lem : firm_occupied ≡ firm =
              ground (arith, count-firm service conflicts same_a.0, same_h.1) in
            elim (Bool-cases (leb service.capacity firm_occupied)) [
              | inl f ↦ inl (rw (e, f) refl, λ _. ground arith)
              | inr f ↦
                  let f_small : firm_occupied < service.capacity = ground arith in
                  inr (
                    (same_a.0, same_h.0),
                    ground arith,
                    (
                      drop (service.capacity - firm_occupied - 1)
                          (filter (prov_same service) conflicts),
                      rw (e, f) refl,
                      record {
                        kept =
                            take (service.capacity - firm_occupied - 1)
                              (filter (prov_same service) conflicts);
                        of_hour =
                            sym (filter-provisional service conflicts same_a.0)
                            ∙ sym (
                                take-drop (service.capacity - firm_occupied - 1)
                                  (filter (prov_same service) conflicts));
                        enough = omega (
                          arith,
                          length-drop (service.capacity - firm_occupied - 1)
                              (filter (prov_same service) conflicts),
                          length-provisional service conflicts same_a.0,
                          f_small,
                          same_h.1,
                        );
                      },
                    ),
                  )
            ]
      ]
