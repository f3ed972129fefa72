-- ===== src/WaitingRoom/Eta.antt =====
-- `computeWaitingRoom` (src/modules/appointments/appointments.service.ts): the places of the queue and the estimated waiting times. The durations, learned
-- from the last visits or configured, are an argument.
use back_costa_turnos.Base.Sort.{sort_by, count-sort_by}
use back_costa_turnos.Base.{
  ℕ, ◌≤◌, ◌<◌, ◌≢◌, sym, ap, subst, ◌∙◌, All, All-imp, Option-cases, find?-Found, ◌+◌, ◌-◌, ◌*◌,
  max, ◌≡◌, refl, inl, inr, Bool, true, false, not, ◌&&◌, ◌||◌, Option, none, some, List, [], ◌∷◌,
  ◌++◌, arith, ltb, if◌then◌else◌, ◌==◌, nat_coded, Bool-cases, or_else, filter, find?, count,
  sum_by, sum_by-append, count-append,
}
use back_costa_turnos.Enums.{
  AppointmentStatus, payment_method_coded, payment_option_coded, payment_status_coded,
  appointment_status_coded, created_via_coded,
}
use back_costa_turnos.Store.Rows.{Appointment}
use back_costa_turnos.Store.Table.{
  appointment_row, payment_row, pending_booking_row, professional_row,
}
use back_costa_turnos.Store.Db.{Db}
use back_costa_turnos.WaitingRoom.{Day, is_today, goes_after}
use back_costa_turnos.Pricing.{round_div}
use back_costa_turnos.WaitingRoom.Turns.{InTurn, sort_by-InTurn}
use back_costa_turnos.Booking.Capacity.{case_clash}

-- What the screen shows of a place.
pub record Item : Type 0 where
  pub appointment_id : ℕ
  pub position : ℕ
  pub eta_minutes : ℕ

abbrev pub later_than : ℕ → Option ℕ → Bool
later_than now none = false
later_than now (some t) = ltb now t

abbrev pub is_away : ℕ → Appointment → Bool
is_away now a = later_than now a.away_until

abbrev of_comercio : Option ℕ → ℕ → Bool
of_comercio none c = true
of_comercio (some id) c = c == id

-- The rows of the room: present today and open, of the membership's comercio if there is one.
abbrev pub in_room : Day → ℕ → ℕ → Option ℕ → Appointment → Bool
in_room day tenant_id staff_id comercio_id a =
    a.professional_id == tenant_id
    && (a.staff_id == staff_id
        && (of_comercio comercio_id a.comercio_id
            && ((a.status == AppointmentStatus.requested
                  || (a.status == AppointmentStatus.confirmed
                      || a.status == AppointmentStatus.in_progress))
                && is_today day a.checked_in_at)))

-- `order: { checkedInAt: 'ASC', startAt: 'ASC' }`
abbrev arrived_after : Appointment → Appointment → Bool
arrived_after a b =
    let at = or_else a.checked_in_at 0 in
    let bt = or_else b.checked_in_at 0 in ltb bt at || at == bt && ltb b.start_at a.start_at

unfoldable pub room_rows : Day → ℕ → ℕ → Option ℕ → Db → List Appointment
room_rows day tenant_id staff_id comercio_id db =
    sort_by arrived_after (filter (in_room day tenant_id staff_id comercio_id) db.appointments)

module _ (now : ℕ) (duration : Appointment → ℕ) where
  -- One pass over the sorted queue; `ahead` and `cursor` are its two variables.
  unfoldable pub items : ℕ → ℕ → List Appointment → List Item
  items ahead cursor [] = []
  items ahead cursor (a ∷ as') =
      let rest =
        if is_away now a
        then items ahead cursor as'
        else items (ahead + 1) (cursor + duration a * 60000) as' in
      record {
        appointment_id = a.id;
        position = ahead;
        eta_minutes = round_div (cursor - now) 60000;
      }
      ∷ rest

  -- The end of the visit in progress, if there is one.
  abbrev pub after_visit : Option Appointment → ℕ
  after_visit none = now
  after_visit (some a) = elim a.actual_start_at [
    | none ↦ now
    | some t ↦ max now (t + duration a * 60000)
  ]

  unfoldable pub first_cursor : List Appointment → ℕ
  first_cursor appts = after_visit (find? (λ a. a.status == AppointmentStatus.in_progress) appts)

  unfoldable pub room_queue : List Appointment → List Item
  room_queue appts =
      items 0 (first_cursor appts)
        (sort_by goes_after (filter (λ a. a.status == AppointmentStatus.confirmed) appts))

  -- The minutes of the people who count, in milliseconds.
  abbrev pub work_before : List Appointment → ℕ
  work_before = sum_by (λ a. if is_away now a then 0 else duration a * 60000)

  -- When the first of the queue can begin: now, or where somebody is attended to, when that visit is
  -- over, from its real beginning on.
  pub data FirstTurn : List Appointment → ℕ → Type 0 where
    nobody :
        (appts : List Appointment)
        → All (λ a. a.status ≢ AppointmentStatus.in_progress) appts
        → FirstTurn appts now
    no_beginning :
        (xs ys : List Appointment) (v : Appointment)
        → All (λ a. a.status ≢ AppointmentStatus.in_progress) xs
        → v.status ≡ AppointmentStatus.in_progress
        → v.actual_start_at ≡ none
        → FirstTurn (xs ++ v ∷ ys) now
    visit :
        (xs ys : List Appointment) (v : Appointment) (t : ℕ)
        → All (λ a. a.status ≢ AppointmentStatus.in_progress) xs
        → v.status ≡ AppointmentStatus.in_progress
        → v.actual_start_at ≡ some t
        → FirstTurn (xs ++ v ∷ ys) (max now (t + duration v * 60000))

  -- The nearest minute, the later one of two.
  abbrev pub IsNearest : ℕ → ℕ → Type 0
  IsNearest minutes wait =
      (2 * (minutes * 60000) ≤ 2 * wait + 60000) × (2 * wait < 2 * (minutes * 60000) + 60000)

  -- A place: the people before it who are not away are counted, and the wait until they are all over
  -- is given to the nearest minute.
  abbrev pub IsPlace : ℕ → List Appointment → Appointment → Item → Type 0
  IsPlace first before a item =
      let wait = first - now + work_before before in
      (item.appointment_id ≡ a.id)
      × (item.position ≡ count (λ q. not (is_away now q)) before)
      × IsNearest item.eta_minutes wait

  abbrev pub ArePlaces : ℕ → List Appointment → List Appointment → List Item → Type 0
  ArePlaces first before [] [] = Unit
  ArePlaces first before (a ∷ as') (item ∷ shown) =
      IsPlace first before a item × ArePlaces first (before ++ a ∷ []) as' shown
  ArePlaces first before _ _ = ⊥

  rounded : (n : ℕ) → IsNearest (round_div n 60000) n
  unfolding round_div
  rounded n = (omega arith, omega arith)

  items-ArePlaces :
      (first ahead cursor : ℕ) (before xs : List Appointment)
      → now ≤ first
      → ahead ≡ count (λ q. not (is_away now q)) before
      → cursor ≡ first + work_before before
      → ArePlaces first before xs (items ahead cursor xs)
  unfolding items
  items-ArePlaces first n w before [] late h k = tt
  items-ArePlaces first n w before (a ∷ as') late h k =
      let c = count-append (λ q. not (is_away now q)) before (a ∷ []) in
      let s =
        sum_by-append (λ q. if is_away now q then 0 else duration q * 60000) before (a ∷ []) in
      let wait : w - now ≡ first - now + work_before before = omega (arith, late, k) in
      let near = subst (IsNearest (round_div (w - now) 60000)) wait (rounded (w - now)) in
      elim (Bool-cases (is_away now a)) [
        | inl e ↦ rw e (
          (refl, h, near),
          items-ArePlaces first n w (before ++ a ∷ []) as' late (ground (arith, e, h, c))
              (ground (arith, e, k, s)),
        )
        | inr e ↦ rw e (
          (refl, h, near),
          items-ArePlaces first (n + 1) (w + duration a * 60000) (before ++ a ∷ []) as' late
              (ground (arith, e, h, c)) (ground (arith, e, k, s)),
        )
      ]

  now_first : (v : Option Appointment) → now ≤ after_visit v
  now_first none = omega arith
  now_first (some v) = elim (Option-cases v.actual_start_at) [
    | inl e ↦ rw e (omega arith)
    | inr (t, e) ↦ rw e (omega arith)
  ]

  after_visit-none : (v : Appointment) → v.actual_start_at ≡ none → after_visit (some v) ≡ now
  after_visit-none v e = rw e refl

  after_visit-some :
      (v : Appointment) (t : ℕ)
      → v.actual_start_at ≡ some t
      → after_visit (some v) ≡ max now (t + duration v * 60000)
  after_visit-some v t e = ground (arith, e)

  not_in_progress :
      (a : Appointment)
      → (a.status == AppointmentStatus.in_progress) ≡ false
      → a.status ≢ AppointmentStatus.in_progress
  not_in_progress a h e = case_clash (sym (ap (λ s. s == AppointmentStatus.in_progress) e) ∙ h)

  first_cursor-FirstTurn : (appts : List Appointment) → FirstTurn appts (first_cursor appts)
  unfolding first_cursor
  first_cursor-FirstTurn appts =
      elim (find?-Found (λ a. a.status == AppointmentStatus.in_progress) appts) [
        | inl (e, h) ↦
            rw e (FirstTurn.nobody appts (All-imp _ _ appts (λ a q. not_in_progress a q) h))
        | inr (xs, v, ys, q, h, t, f) ↦
            let before = All-imp _ _ xs (λ a o. not_in_progress a o) h in
            let in_progress : v.status ≡ AppointmentStatus.in_progress = ground (arith, t) in
            rw f (
              subst (λ l. FirstTurn l (after_visit (some v))) (sym q)
                (elim (Option-cases v.actual_start_at) [
                  | inl e ↦
                      subst (FirstTurn (xs ++ v ∷ ys)) (sym (after_visit-none v e))
                        (FirstTurn.no_beginning xs ys v before in_progress e)
                  | inr (start, e) ↦
                      subst (FirstTurn (xs ++ v ∷ ys)) (sym (after_visit-some v start e))
                        (FirstTurn.visit xs ys v start before in_progress e)
                ]))
      ]

  -- What the room shows of its queue: those confirmed, each once, in the order of their turns, each with
  -- the place that this order gives.
  pub record IsRoom (appts : List Appointment) (shown : List Item) : Type 0 where
    pub queue : List Appointment
    pub confirmed :
        (p : Appointment → Bool)
        → count p queue ≡ count p (filter (λ a. a.status == AppointmentStatus.confirmed) appts)
    pub in_turn : InTurn queue
    pub first : ℕ
    pub begins : FirstTurn appts first
    pub places : ArePlaces first [] queue shown

  -- The one pass over the queue of the room shows exactly those who are confirmed, the urgent before the
  -- others and else by rank and number. Each has as many people ahead as precede them without being
  -- away, and waits, to the nearest minute, until the visit in progress is over and then all of theirs.
  pub room_queue-places : (appts : List Appointment) → IsRoom appts (room_queue appts)
  unfolding room_queue first_cursor
  room_queue-places appts =
      let rows = filter (λ a. a.status == AppointmentStatus.confirmed) appts in
      let first = first_cursor appts in
      record {
        queue = sort_by goes_after rows;
        confirmed = λ p. count-sort_by goes_after p rows;
        in_turn = sort_by-InTurn rows;
        first = first;
        begins = first_cursor-FirstTurn appts;
        places =
            items-ArePlaces first 0 first [] (sort_by goes_after rows)
              (now_first (find? (λ a. a.status == AppointmentStatus.in_progress) appts)) refl
              (omega arith);
      }
