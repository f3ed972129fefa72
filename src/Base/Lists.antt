-- ===== src/Base/Lists.antt =====
-- Lists with Boolean tests, as JavaScript's array methods take them, and predicates by recursion.
use Prim.Native.Nat.{ℕ, zero, suc, ◌+◌}
use mathlib.Core.Path.{◌≡◌, refl, ap}
use mathlib.Core.Bool.{Bool, true, false, ◌&&◌, ◌||◌}
use mathlib.Core.Option.{Option, none, some}
use mathlib.Core.List.{List, [], ◌∷◌, ◌++◌}
use native.Mathlib.Omega.{arith}
use mathlib.Core.Logic.{◌⊎◌, inl, inr, ◌↔◌}
use back_costa_turnos.Base.Tests.{if◌then◌else◌, Bool-cases}

module _ {ℓ} {A : Type ℓ} where
  abbrev pub length : List A → ℕ
  length [] = 0
  length (x ∷ xs) = suc (length xs)

  abbrev pub filter : (A → Bool) → List A → List A
  filter p [] = []
  filter p (x ∷ xs) = if p x then x ∷ filter p xs else filter p xs

  abbrev pub find? : (A → Bool) → List A → Option A
  find? p [] = none
  find? p (x ∷ xs) = if p x then some x else find? p xs

  abbrev pub any : (A → Bool) → List A → Bool
  any p [] = false
  any p (x ∷ xs) = p x || any p xs

  abbrev pub all : (A → Bool) → List A → Bool
  all p [] = true
  all p (x ∷ xs) = p x && all p xs

  -- The number of entries that pass the test.
  abbrev pub count : (A → Bool) → List A → ℕ
  count p [] = 0
  count p (x ∷ xs) = (if p x then 1 else 0) + count p xs

  abbrev pub sum_by : (A → ℕ) → List A → ℕ
  sum_by f [] = 0
  sum_by f (x ∷ xs) = f x + sum_by f xs

  abbrev pub take : ℕ → List A → List A
  take zero xs = []
  take (suc n) [] = []
  take (suc n) (x ∷ xs) = x ∷ take n xs

  abbrev pub drop : ℕ → List A → List A
  drop zero xs = xs
  drop (suc n) [] = []
  drop (suc n) (x ∷ xs) = drop n xs

  abbrev pub All {κ} : (A → Type κ) → List A → Type κ
  All P [] = Unit
  All P (x ∷ xs) = P x × All P xs

  pub length-append : (xs ys : List A) → length (xs ++ ys) ≡ length xs + length ys
  length-append [] ys = omega arith
  length-append (x ∷ xs) ys = omega (arith, length-append xs ys)

  pub sum_by-append : (f : A → ℕ) (xs ys : List A) → sum_by f (xs ++ ys) ≡ sum_by f xs + sum_by f ys
  sum_by-append f [] ys = omega arith
  sum_by-append f (x ∷ xs) ys = omega (arith, sum_by-append f xs ys)

  pub length-filter : (p : A → Bool) (xs : List A) → length (filter p xs) ≡ count p xs
  length-filter p [] = refl
  length-filter p (x ∷ xs) = ground (arith, length-filter p xs)

  pub count-append : (p : A → Bool) (xs ys : List A) → count p (xs ++ ys) ≡ count p xs + count p ys
  count-append p [] ys = omega arith
  count-append p (x ∷ xs) ys = omega (arith, count-append p xs ys)

  pub All-append {κ} : (P : A → Type κ) (xs ys : List A) → All P xs → All P ys → All P (xs ++ ys)
  All-append P [] ys h k = k
  All-append P (x ∷ xs) ys h k = (h.0, All-append P xs ys h.1 k)

-- Membership, by recursion, so that case analysis reads it.
module _ {A : Type 0} where
  abbrev pub In : A → List A → Type 0
  In a [] = ⊥
  In a (x ∷ xs) = (a ≡ x) ⊎ In a xs

  pub find?-In : (p : A → Bool) (xs : List A) (a : A) → find? p xs ≡ some a → In a xs
  find?-In p [] a e = absurd (cc)
  find?-In p (x ∷ xs) a e = elim (Bool-cases (p x)) [
    | inl q ↦ inl (ground (arith, e, q))
    | inr q ↦ inr (find?-In p xs a (ground (arith, e, q)))
  ]

  pub any-In : (p : A → Bool) (xs : List A) → any p xs ≡ true → (x : A) × In x xs × (p x ≡ true)
  any-In p [] h = ground arith
  any-In p (x ∷ xs) h = elim (Bool-cases (p x)) [
    | inl e ↦ (x, inl refl, e)
    | inr e ↦ let (y, i, q) = any-In p xs (rw e at h) in (y, inr i, q)
  ]

  pub In-any : (p : A → Bool) (x : A) (xs : List A) → In x xs → p x ≡ true → any p xs ≡ true
  In-any p x [] i h = elim i [ ]
  In-any p x (y ∷ xs) (inl e) h = rw (← e, h)
  In-any p x (y ∷ xs) (inr i) h = ground (arith, In-any p x xs i h)

  pub In-all : (p : A → Bool) (x : A) (xs : List A) → all p xs ≡ true → In x xs → p x ≡ true
  In-all p x [] h i = elim i [ ]
  In-all p x (y ∷ xs) h (inl e) = rw e (ground arith)
  In-all p x (y ∷ xs) h (inr i) = In-all p x xs (ground arith) i

  pub all-of_In : (p : A → Bool) (xs : List A) → ((x : A) → In x xs → p x ≡ true) → all p xs ≡ true
  all-of_In p [] h = refl
  all-of_In p (x ∷ xs) h = rw (h x (inl refl), all-of_In p xs (λ y i. h y (inr i)))

  pub In-filter :
      (p : A → Bool) (x : A) (xs : List A) → In x (filter p xs) ↔ (In x xs × (p x ≡ true))
  In-filter p x [] = (λ i. elim i [ ], λ h. h.0)
  In-filter p x (y ∷ xs) = elim (Bool-cases (p y)) [
    | inl e ↦ rw e (
      elim [
        | inl q ↦ (inl q, rw q e)
        | inr i ↦ (inr ((In-filter p x xs).0 i).0, ((In-filter p x xs).0 i).1)
      ],
      λ (i, h). elim i [ inl q ↦ inl q | inr j ↦ inr ((In-filter p x xs).1 (j, h)) ],
    )
    | inr e ↦ rw e (
      λ i. (inr ((In-filter p x xs).0 i).0, ((In-filter p x xs).0 i).1),
      λ (i, h). elim i [ inl q ↦ ground arith | inr j ↦ (In-filter p x xs).1 (j, h) ],
    )
  ]

  pub any_none : (p : A → Bool) (xs : List A) → any p xs ≡ false → All (λ x. p x ≡ false) xs
  any_none p [] h = tt
  any_none p (x ∷ xs) h = (ground arith, any_none p xs (ground arith))

  pub any-append : (p : A → Bool) (xs ys : List A) → any p (xs ++ ys) ≡ (any p xs || any p ys)
  any-append p [] ys = refl
  any-append p (x ∷ xs) ys = ground (arith, any-append p xs ys)

module _ {A : Type 0} (p : A → Bool) where
  -- What `find` says of a list: nothing passes, or the first that does and those before it.
  abbrev pub Found : List A → Type 0
  Found xs =
      ((find? p xs ≡ none) × All (λ x. p x ≡ false) xs)
      ⊎ ((before : List A) × (v : A) × (after : List A) × (xs ≡ before ++ v ∷ after)
          × All (λ x. p x ≡ false) before
          × (p v ≡ true)
          × (find? p xs ≡ some v))

  Found-later : (x : A) (xs : List A) → p x ≡ false → Found xs → Found (x ∷ xs)
  Found-later x xs e (inl (n, h)) = inl (rw e n, (e, h))
  Found-later x xs e (inr (before, v, after, q, h, t, f)) =
      inr (x ∷ before, v, after, ap (λ l. x ∷ l) q, (e, h), t, rw e f)

  pub find?-Found : (xs : List A) → Found xs
  find?-Found [] = inl (refl, tt)
  find?-Found (x ∷ xs) = elim (Bool-cases (p x)) [
    | inl e ↦ inr ([], x, xs, refl, tt, e, rw e refl)
    | inr e ↦ Found-later x xs e (find?-Found xs)
  ]
