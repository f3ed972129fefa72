-- ===== src/Availability/Free.antt =====
-- The hours that the agenda shows as free, `buildSlotsWithCounts` of
-- src/modules/availability/availability.service.ts, against the rows that the conflict test of `book`
-- (src/modules/appointments/appointments.service.ts) reads.
use back_costa_turnos.Base.{
  ℕ, ◌+◌, ◌≤◌, ◌<◌, ◌≡◌, refl, inl, inr, Bool, true, false, not, ◌&&◌, List, [], ◌∷◌, map, arith,
  ◌==◌, nat_coded, Bool-cases, filter, any, count, All,
}
use back_costa_turnos.Enums.{appointment_status_coded}
use back_costa_turnos.Booking.{meets}
use back_costa_turnos.Availability.{Luxon}
use back_costa_turnos.Availability.Slots.{
  BuildSlotsArgs, BusyInterval, step_ms, occupation, taken_by_booking,
}

module _ {A : Type 0} where
  pub any-filter : (p q : A → Bool) (xs : List A) → any p (filter q xs) ≡ any (λ x. q x && p x) xs
  any-filter p q [] = refl
  any-filter p q (x ∷ xs) = elim (Bool-cases (q x)) [
    | inl e ↦ rw (e, any-filter p q xs) refl
    | inr e ↦ rw (e, any-filter p q xs) refl
  ]

  pub count-filter :
      (p q : A → Bool) (xs : List A) → count p (filter q xs) ≡ count (λ x. q x && p x) xs
  count-filter p q [] = refl
  count-filter p q (x ∷ xs) = elim (Bool-cases (q x)) [
    | inl e ↦ rw (e, count-filter p q xs) refl
    | inr e ↦ rw (e, count-filter p q xs) (omega arith)
  ]

  -- A test that implies another one passes on no more rows.
  pub count_le :
      (p q : A → Bool) (xs : List A)
      → All (λ x. p x ≡ true → q x ≡ true) xs
      → count p xs ≤ count q xs
  count_le p q [] h = omega arith
  count_le p q (x ∷ xs) h = ground (arith, h.0, count_le p q xs h.1)

  pub any_le :
      (p q : A → Bool) (xs : List A)
      → All (λ x. p x ≡ true → q x ≡ true) xs
      → any q xs ≡ false
      → any p xs ≡ false
  any_le p q [] h n = refl
  any_le p q (x ∷ xs) h n = ground (arith, h.0, any_le p q xs h.1)

pub any-map :
    {A B : Type 0} (p : B → Bool) (f : A → B) (xs : List A)
    → any p (map f xs) ≡ any (λ x. p (f x)) xs
any-map p f [] = refl
any-map p f (x ∷ xs) = rw (any-map p f xs) refl

pub count-map :
    {A B : Type 0} (p : B → Bool) (f : A → B) (xs : List A)
    → count p (map f xs) ≡ count (λ x. p (f x)) xs
count-map p f [] = refl
count-map p f (x ∷ xs) = rw (count-map p f xs) refl

-- Of the calendar: intervals that are not empty overlap where they share an instant.
abbrev pub OverlapsMeets : Luxon → Type 0
OverlapsMeets luxon = (s e a b : ℕ) → s < e → a < b → luxon.overlaps s e a b ≡ meets s e a b

module _ (luxon : Luxon) (now : ℕ) (args : BuildSlotsArgs) (start : ℕ) where
  abbrev pub reaches : BusyInterval → Bool
  reaches b = luxon.overlaps start (start + step_ms luxon now args) b.start_at b.end_at

  abbrev pub is_target : BusyInterval → Bool
  is_target b = b.service_id == args.target_service_id

  occupation_blocked :
      (seen : ℕ) (busy : List BusyInterval)
      → (occupation luxon now args start seen busy).other_service_blocked
        ≡ any (λ b. reaches b && not (is_target b)) busy
  unfolding occupation
  occupation_blocked seen [] = refl
  occupation_blocked seen (b ∷ busy) =
      ground (arith, occupation_blocked seen busy, occupation_blocked (seen + 1) busy)

  occupation-count :
      (seen : ℕ) (busy : List BusyInterval)
      → any (λ b. reaches b && not (is_target b)) busy ≡ false
      → (occupation luxon now args start seen busy).same_service_count
        ≡ seen + count (λ b. reaches b && is_target b) busy
  unfolding occupation
  occupation-count seen [] h = ground arith
  occupation-count seen (b ∷ busy) h =
      ground (arith, h, occupation-count seen busy, occupation-count (seen + 1) busy)

  -- An hour that no booking takes: nobody else's service reaches into it, and fewer rows of its own
  -- service than the capacity.
  pub taken_by_booking-reaches :
      taken_by_booking luxon now args start ≡ false
      → (any (λ b. reaches b && not (is_target b)) args.busy ≡ false)
        × (count (λ b. reaches b && is_target b) args.busy < args.capacity)
  unfolding taken_by_booking
  taken_by_booking-reaches h =
      let none_other : any (λ b. reaches b && not (is_target b)) args.busy ≡ false =
        ground (arith, h, occupation_blocked 0 args.busy) in
      (none_other, ground (arith, h, occupation-count 0 args.busy none_other))
