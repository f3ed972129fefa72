-- ===== src/Availability/Summaries.antt =====
-- The slots of a service, of all its professionals together: `computeServiceSlots` and
-- `computeServiceDayAvailability` of src/modules/availability/availability.service.ts.
use back_costa_turnos.Base.Sort.{sort_by, Ascending, sort_by-Ascending, count-sort_by, any-sort_by}
use back_costa_turnos.Base.{
  ℕ, ◌≤◌, ◌≡◌, refl, ◌∙◌, inl, inr, Bool, true, false, ◌||◌, nat_beq→eq, subst, any-append, Option,
  List, [], ◌∷◌, ◌++◌, arith, ltb, ◌==◌, nat_coded, Bool-cases, filter, any, All, count,
  count-append,
}
use back_costa_turnos.Base.Http.{ok}
use back_costa_turnos.Store.Rows.{Membership}
use back_costa_turnos.Store.Db.{Db, Action, pure, gets, ◌>>=◌}
use back_costa_turnos.Availability.{Luxon}
use back_costa_turnos.Availability.Slots.{AvailableSlot}
use back_costa_turnos.Availability.Inputs.{active_assigned_memberships, compute_slots_by_membership}
use back_costa_turnos.Availability.Days.{
  DayAvailability, has_start, add_new, collect_slots, collect_days,
}

module _ (zones : ℕ → Luxon) where
  abbrev pub in_comercio : ℕ → ℕ → Db → List Membership
  in_comercio comercio_id service_id db =
      filter (λ m. m.comercio_id == comercio_id) (active_assigned_memberships db service_id)

  unfoldable pub compute_service_slots :
      ℕ → ℕ → ℕ → Option ℕ → Option ℕ → List ℕ → Action (List AvailableSlot)
  unfolding collect_slots
  compute_service_slots now comercio_id service_id from to addon_ids = do
    memberships ← gets (in_comercio comercio_id service_id)
    found ← collect_slots zones now service_id from to addon_ids [] memberships
    pure (sort_by (λ a b. ltb b.start_at a.start_at) found)

  unfoldable pub compute_service_day_availability :
      ℕ → ℕ → ℕ → Option ℕ → Option ℕ → List ℕ → Action (List DayAvailability)
  unfolding collect_days
  compute_service_day_availability now comercio_id service_id from to addon_ids = do
    memberships ← gets (in_comercio comercio_id service_id)
    found ← collect_days zones now service_id from to addon_ids [] memberships
    pure (sort_by (λ a b. ltb b.date a.date) found)

  -- The number of slots that begin then.
  abbrev pub begins : ℕ → List AvailableSlot → ℕ
  begins t = count (λ s. s.start_at == t)

  has_start-count :
      (t : ℕ) (xs : List AvailableSlot) → has_start zones t xs ≡ false → begins t xs ≡ 0
  has_start-count t [] h = refl
  has_start-count t (x ∷ xs) h = ground (arith, h, has_start-count t xs)

  -- No two slots begin together.
  abbrev Once : List AvailableSlot → Type 0
  Once xs = (t : ℕ) → begins t xs ≤ 1

  once_more :
      (t : ℕ) (found : List AvailableSlot) (slot : AvailableSlot)
      → has_start zones slot.start_at found ≡ false
      → begins t found ≤ 1
      → begins t (found ++ (slot ∷ [])) ≤ 1
  once_more t found slot e h = elim (Bool-cases (slot.start_at == t)) [
    | inl q ↦
        let none : begins t found ≡ 0 =
          has_start-count t found
            (subst (λ k. has_start zones k found ≡ false) (nat_beq→eq _ _ q) e) in
        rw (count-append (λ s. s.start_at == t) found (slot ∷ []), q, none) (omega arith)
    | inr q ↦ rw (count-append (λ s. s.start_at == t) found (slot ∷ []), q) (omega (arith, h))
  ]

  already :
      (t : ℕ) (found : List AvailableSlot) (slot : AvailableSlot) (later : Bool)
      → has_start zones slot.start_at found ≡ true
      → (has_start zones t found || later)
        ≡ (has_start zones t found || (slot.start_at == t || later))
  already t found slot later e = elim (Bool-cases (slot.start_at == t)) [
    | inl q ↦
        let there : has_start zones t found ≡ true =
          subst (λ k. has_start zones k found ≡ true) (nat_beq→eq _ _ q) e in
        ground (arith, there)
    | inr q ↦ ground (arith, q)
  ]

  or_assoc : (a b c : Bool) → ((a || (b || false)) || c) ≡ (a || (b || c))
  or_assoc a b c = ground arith

  add_new-Once : (found slots : List AvailableSlot) → Once found → Once (add_new zones found slots)
  unfolding add_new
  add_new-Once found [] h = h
  add_new-Once found (slot ∷ slots) h = elim (Bool-cases (has_start zones slot.start_at found)) [
    | inl e ↦ rw e (add_new-Once found slots h)
    | inr e ↦ rw e (add_new-Once (found ++ (slot ∷ [])) slots (λ t. once_more t found slot e (h t)))
  ]

  has_start-add_new :
      (t : ℕ) (found slots : List AvailableSlot)
      → has_start zones t (add_new zones found slots)
        ≡ (has_start zones t found || has_start zones t slots)
  unfolding add_new
  has_start-add_new t found [] = ground arith
  has_start-add_new t found (slot ∷ slots) =
      elim (Bool-cases (has_start zones slot.start_at found)) [
        | inl e ↦
            rw e
              (has_start-add_new t found slots ∙ already t found slot (has_start zones t slots) e)
        | inr e ↦ rw e (
            has_start-add_new t (found ++ (slot ∷ [])) slots
            ∙ rw (any-append (λ s. s.start_at == t) found (slot ∷ []))
                (or_assoc (has_start zones t found) (slot.start_at == t) (has_start zones t slots)))
      ]

  module _ (now service_id : ℕ) (from to : Option ℕ) (addon_ids : List ℕ) (db : Db)
      (offers : Membership → List AvailableSlot) where
    -- The slots of those memberships come.
    abbrev pub AllCome : List Membership → Type 0
    AllCome ms =
        All
          (λ m.
            compute_slots_by_membership zones now m.id service_id from to addon_ids db
            ≡ (ok (offers m), db))
          ms

    gathered : List AvailableSlot → List Membership → List AvailableSlot
    gathered found [] = found
    gathered found (m ∷ ms) = gathered (add_new zones found (offers m)) ms

    collect_slots-gathered :
        (found : List AvailableSlot) (ms : List Membership)
        → AllCome ms
        → collect_slots zones now service_id from to addon_ids found ms db
          ≡ (ok (gathered found ms), db)
    unfolding collect_slots gathered
    collect_slots-gathered found [] h = refl
    collect_slots-gathered found (m ∷ ms) h =
        ground (arith, h.0, collect_slots-gathered (add_new zones found (offers m)) ms h.1)

    gathered-Once :
        (found : List AvailableSlot) (ms : List Membership) → Once found → Once (gathered found ms)
    unfolding gathered
    gathered-Once found [] h = h
    gathered-Once found (m ∷ ms) h =
        gathered-Once (add_new zones found (offers m)) ms (add_new-Once found (offers m) h)

    has_start-gathered :
        (t : ℕ) (found : List AvailableSlot) (ms : List Membership)
        → has_start zones t (gathered found ms)
          ≡ (has_start zones t found || any (λ m. has_start zones t (offers m)) ms)
    unfolding gathered
    has_start-gathered t found [] = ground arith
    has_start-gathered t found (m ∷ ms) = ground (
      arith,
      has_start-gathered t (add_new zones found (offers m)) ms,
      has_start-add_new t found (offers m),
    )

    -- What the page shows for a service: where the slots of every professional that offers it in the
    -- comercio come, the call returns their slots by the clock, no two that begin together, and there is
    -- one that begins at an instant exactly if one of the professionals has one.
    pub compute_service_slots-Ascending :
        (comercio_id : ℕ)
        → AllCome (in_comercio comercio_id service_id db)
        → (slots : List AvailableSlot) × (compute_service_slots now comercio_id service_id from to
              addon_ids db
            ≡ (ok slots, db))
          × Ascending (λ s. s.start_at) slots
          × ((t : ℕ) → begins t slots ≤ 1)
          × ((t : ℕ)
              → has_start zones t slots
                ≡ any (λ m. has_start zones t (offers m)) (in_comercio comercio_id service_id db))
    unfolding compute_service_slots
    compute_service_slots-Ascending comercio_id come =
        let ms = in_comercio comercio_id service_id db in
        (
          sort_by (λ a b. ltb b.start_at a.start_at) (gathered [] ms),
          ground (arith, collect_slots-gathered [] ms come),
          sort_by-Ascending (λ s. s.start_at) (gathered [] ms),
          λ t. rw (count-sort_by _ _ (gathered [] ms)) (gathered-Once [] ms (λ k. omega arith) t),
          λ t. any-sort_by _ (λ s. s.start_at == t) (gathered [] ms) ∙ has_start-gathered t [] ms,
        )
