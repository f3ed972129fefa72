-- ===== src/Assignment/Choice.antt =====
-- Which professional is tried first, and what the attempts come to: `rankCandidates` and
-- `bookForService` of src/modules/appointments/appointments.service.ts.
use back_costa_turnos.Base.Sort.{sort_by, In-sort_by, Ascending, sort_by-Ascending}
use back_costa_turnos.Base.{
  ℕ, ◌≤◌, ◌≡◌, ◌↔◌, refl, inl, inr, Bool, true, ◌&&◌, some, List, [], ◌∷◌, map, arith, ltb, ◌==◌,
  nat_coded, filter, any, All, In, In-filter, In-map, and_true,
}
use back_costa_turnos.Base.Http.{ok}
use back_costa_turnos.Enums.{MembershipStatus, membership_status_coded}
use back_costa_turnos.Store.Rows.{Membership, Comercio}
use back_costa_turnos.Store.Table.{find_key, comercio_row}
use back_costa_turnos.Store.Db.{Db}
use back_costa_turnos.Booking.{is_assigned}
use back_costa_turnos.Payments.{Provider}
use back_costa_turnos.Availability.{Luxon, get_comercio}
use back_costa_turnos.Availability.Slots.{AvailableSlot}
use back_costa_turnos.Availability.Inputs.{active_assigned_memberships, compute_slots_by_membership}
use back_costa_turnos.Assignment.{Scored, may_write, day_load, score, rank_candidates}

map-Ascending :
    {A B : Type 0} (f : A → ℕ) (g : B → ℕ) (h : A → B) (xs : List A)
    → All (λ x. f x ≡ g (h x)) xs
    → Ascending f xs
    → Ascending g (map h xs)
map-Ascending f g h [] e s = tt
map-Ascending f g h (x ∷ xs) e s = (below x xs e.0 e.1 s.0, map-Ascending f g h xs e.1 s.1)
  where
    below :
        (x : _) (ys : List _)
        → f x ≡ g (h x)
        → All (λ y. f y ≡ g (h y)) ys
        → All (λ y. f x ≤ f y) ys
        → All (λ y. g (h x) ≤ g y) (map h ys)
    below x [] p q r = tt
    below x (y ∷ ys) p q r = (omega (arith, p, q.0, r.0), below x ys p q.1 r.1)

module _ (zones : ℕ → Luxon) (grace_days : ℕ) (provider : Provider)
    (now comercio_id service_id start_at : ℕ) (addon_ids : List ℕ) (luxon : Luxon) (db : Db)
    (offers : Membership → List AvailableSlot) where
  abbrev pub day : ℕ
  day = (luxon.local start_at).day

  -- The slots of that day come for those memberships.
  abbrev pub Comes : List Membership → Type 0
  Comes ms =
      All
        (λ m.
          compute_slots_by_membership zones now m.id service_id (some day) (some day) addon_ids db
          ≡ (ok (offers m), db))
        ms

  -- May be booked, and shows that hour.
  abbrev pub is_candidate : Membership → Bool
  is_candidate m =
      may_write grace_days now m.professional_id db && any (λ s. s.start_at == start_at) (offers m)

  abbrev pub scored : Membership → Scored
  scored m = record { membership = m; load = day_load luxon m.professional_id start_at db }

  score-is_candidate :
      (ms : List Membership)
      → Comes ms
      → score zones grace_days provider now luxon service_id start_at addon_ids ms db
        ≡ (ok (map scored (filter is_candidate ms)), db)
  unfolding score
  score-is_candidate [] h = refl
  score-is_candidate (m ∷ ms) h = let ih = score-is_candidate ms h.1 in ground (arith, h.0, ih)

  -- The memberships of the comercio that offer the service.
  abbrev pub offering : List Membership
  offering = filter (λ m. m.comercio_id == comercio_id) (active_assigned_memberships db service_id)

  rank_lem :
      (comercio : Comercio)
      → find_key comercio_id db.comercios ≡ some comercio
      → zones comercio.timezone ≡ luxon
      → Comes offering
      → rank_candidates zones grace_days provider now comercio_id service_id start_at addon_ids db
        ≡ (
          ok (
              map
                (λ s. s.membership)
                (sort_by (λ a b. ltb b.load a.load) (map scored (filter is_candidate offering)))),
          db,
        )
  unfolding rank_candidates get_comercio
  rank_lem comercio found zone comes =
      ground (arith, found, zone, score-is_candidate offering comes)

  abbrev pub load_of : Membership → ℕ
  load_of m = day_load luxon m.professional_id start_at db

  scored_load :
      (xs : List Scored)
      → ((s : Scored) → In s xs → s.load ≡ load_of s.membership)
      → All (λ s. s.load ≡ load_of s.membership) xs
  scored_load [] h = tt
  scored_load (x ∷ xs) h = (h x (inl refl), scored_load xs (λ s i. h s (inr i)))

  In-ranked :
      (m : Membership)
      → In m (
          map
            (λ s. s.membership)
            (sort_by (λ a b. ltb b.load a.load) (map scored (filter is_candidate offering))))
        ↔ In m (filter is_candidate offering)
  In-ranked m = (
    λ i.
        let (s, j, e) = (In-map (λ (s : Scored). s.membership) m _).0 i in
        let (x, k, f) = (In-map scored s _).0 ((In-sort_by _ s _).0 j) in rw (e, f) k,
    λ i. (In-map (λ (s : Scored). s.membership) m _).1 (
      scored m,
      (In-sort_by _ (scored m) _).1 ((In-map scored (scored m) _).1 (m, i, refl)),
      refl,
    ),
  )

  -- The candidates for an hour: where the slots of the memberships that offer the service come, the call
  -- returns those memberships of the comercio that are active, may be booked and show the hour, all of
  -- them and no other, and nobody stands behind a professional with more appointments that day.
  pub rank_candidates-Ascending :
      (comercio : Comercio)
      → find_key comercio_id db.comercios ≡ some comercio
      → zones comercio.timezone ≡ luxon
      → Comes offering
      → (ranked : List Membership) × (rank_candidates zones grace_days provider now comercio_id
            service_id start_at addon_ids db
          ≡ (ok ranked, db))
        × Ascending load_of ranked
        × ((m : Membership)
            → In m ranked ↔ (
                In m db.memberships
                × (m.status == MembershipStatus.active ≡ true)
                × (is_assigned service_id m.id db ≡ true)
                × (m.comercio_id == comercio_id ≡ true)
                × (is_candidate m ≡ true)))
  unfolding active_assigned_memberships
  rank_candidates-Ascending comercio found zone comes =
      let sorted = sort_by (λ a b. ltb b.load a.load) (map scored (filter is_candidate offering)) in
      (
        map (λ s. s.membership) sorted,
        rank_lem comercio found zone comes,
        map-Ascending (λ s. s.load) load_of (λ s. s.membership) sorted
            (scored_load sorted
              (λ s i. let (x, k, e) = (In-map scored s _).0 ((In-sort_by _ s _).0 i) in rw e refl))
            (sort_by-Ascending (λ s. s.load) (map scored (filter is_candidate offering))),
        λ m. (
          λ i.
              let (j, c) = (In-filter is_candidate m offering).0 ((In-ranked m).0 i) in
              let (k, there) = (In-filter _ m _).0 j in
              let (l, both) = (In-filter _ m db.memberships).0 k in
              let (active, assigned) = and_true _ _ both in (l, active, assigned, there, c),
          λ (l, active, assigned, there, c). (In-ranked m).1 (
              (In-filter is_candidate m offering).1 (
                (In-filter _ m _).1
                    ((In-filter _ m db.memberships).1 (l, rw (active, assigned) refl), there),
                c,
              )),
        ),
      )
