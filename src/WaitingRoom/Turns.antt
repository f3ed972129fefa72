-- ===== src/WaitingRoom/Turns.antt =====
-- Who goes before whom in the queue: `byQueueOrder` of
-- src/modules/appointments/appointments.service.ts sorts by a linear order.
use back_costa_turnos.Base.Sort.{sort_by, Sorted, sort_by-Sorted}
use back_costa_turnos.Base.{
  ℕ, ◌<◌, ◌≡◌, ◌⊎◌, sym, ◌∙◌, inl, inr, Bool, true, false, ◌&&◌, ◌||◌, List, [], ◌∷◌, arith, ltb,
  if◌then◌else◌, ◌==◌, nat_coded, or_else, All, All-imp,
}
use back_costa_turnos.Store.Rows.{Appointment}
use back_costa_turnos.Booking.Capacity.{case_clash}
use back_costa_turnos.WaitingRoom.{rank, goes_after}

abbrev pub number : Appointment → ℕ
number a = or_else a.ticket_number 0

-- The urgent go first; among those alike the smaller rank, and for one rank the smaller number.
abbrev pub Precedes : Appointment → Appointment → Type 0
Precedes a b =
    ((a.is_priority ≡ true) × (b.is_priority ≡ false))
    ⊎ ((a.is_priority ≡ b.is_priority)
        × ((rank a < rank b) ⊎ ((rank a ≡ rank b) × (number a < number b))))

-- Nobody stands behind somebody who is to go later.
abbrev pub InTurn : List Appointment → Type 0
InTurn [] = Unit
InTurn (a ∷ as') = All (λ b. ¬ Precedes b a) as' × InTurn as'

-- The test on what it reads.
abbrev after : Bool → Bool → ℕ → ℕ → ℕ → ℕ → Bool
after p q r s t u =
    if p then q && (ltb s r || r == s && ltb u t) else q || (ltb s r || r == s && ltb u t)

after-asym : (p q : Bool) (r s t u : ℕ) → after p q r s t u ≡ true → after q p s r u t ≡ false
after-asym true true r s t u h = ground (arith, h)
after-asym true false r s t u h = ground (arith, h)
after-asym false true r s t u h = ground (arith, h)
after-asym false false r s t u h = ground (arith, h)

after_trans :
    (p q o : Bool) (r s v t u w : ℕ)
    → after p q r s t u ≡ false
    → after q o s v u w ≡ false
    → after p o r v t w ≡ false
after_trans true true true r s v t u w h k = ground (arith, h, k)
after_trans true true false r s v t u w h k = ground (arith, h, k)
after_trans true false true r s v t u w h k = ground (arith, h, k)
after_trans true false false r s v t u w h k = ground (arith, h, k)
after_trans false true true r s v t u w h k = ground (arith, h, k)
after_trans false true false r s v t u w h k = ground (arith, h, k)
after_trans false false true r s v t u w h k = ground (arith, h, k)
after_trans false false false r s v t u w h k = ground (arith, h, k)

goes_after-asym : (a b : Appointment) → goes_after a b ≡ true → goes_after b a ≡ false
unfolding goes_after
goes_after-asym a b = after-asym a.is_priority b.is_priority (rank a) (rank b) (number a) (number b)

goes_after_trans :
    (a b c : Appointment) → goes_after a b ≡ false → goes_after b c ≡ false → goes_after a c ≡ false
unfolding goes_after
goes_after_trans a b c =
    after_trans a.is_priority b.is_priority c.is_priority (rank a) (rank b) (rank c) (number a)
      (number b) (number c)

after-of_precedes :
    (p q : Bool) (r s t u : ℕ)
    → ((p ≡ true) × (q ≡ false)) ⊎ ((p ≡ q) × ((r < s) ⊎ ((r ≡ s) × (t < u))))
    → after q p s r u t ≡ true
after-of_precedes true q r s t u (inl h) = ground (arith, h.1)
after-of_precedes false q r s t u (inl h) = absurd (cc)
after-of_precedes true q r s t u (inr (e, inl h)) = ground (arith, e, h)
after-of_precedes false q r s t u (inr (e, inl h)) = ground (arith, e, h)
after-of_precedes true q r s t u (inr (e, inr h)) = ground (arith, e, h.0, h.1)
after-of_precedes false q r s t u (inr (e, inr h)) = ground (arith, e, h.0, h.1)

Precedes-goes_after : (a b : Appointment) → Precedes a b → goes_after b a ≡ true
unfolding goes_after
Precedes-goes_after a b =
    after-of_precedes a.is_priority b.is_priority (rank a) (rank b) (number a) (number b)

Sorted-InTurn : (xs : List Appointment) → Sorted goes_after xs → InTurn xs
Sorted-InTurn [] h = tt
Sorted-InTurn (x ∷ xs) h = (
  All-imp _ _ xs (λ y e p. case_clash (sym (Precedes-goes_after y x p) ∙ e)) h.0,
  Sorted-InTurn xs h.1,
)

pub sort_by-InTurn : (xs : List Appointment) → InTurn (sort_by goes_after xs)
sort_by-InTurn xs =
    Sorted-InTurn (sort_by goes_after xs)
      (sort_by-Sorted goes_after goes_after-asym goes_after_trans xs)
