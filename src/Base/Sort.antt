-- ===== src/Base/Sort.antt =====
-- The stable sort of an array by a comparison, as JavaScript's `sort` with a comparator.
use Prim.Native.Nat.{ℕ, ◌≤◌, ◌+◌}
use mathlib.Core.Path.{◌≡◌, refl, ap, ◌∙◌}
use mathlib.Core.Logic.{◌↔◌, ◌⊎◌, inl, inr}
use mathlib.Core.Bool.{Bool, true, false, ◌||◌}
use mathlib.Core.List.{List, [], ◌∷◌}
use native.Mathlib.Omega.{arith}
use back_costa_turnos.Base.Tests.{ltb, if◌then◌else◌, Bool-cases}
use back_costa_turnos.Base.Lists.{All, In, any, count}
use back_costa_turnos.Base.Members.{All-imp}

module _ {A : Type 0} where
  unfoldable pub insert_by : (A → A → Bool) → A → List A → List A
  insert_by after x [] = x ∷ []
  insert_by after x (y ∷ ys) = if after x y then y ∷ insert_by after x ys else x ∷ y ∷ ys

  unfoldable pub sort_by : (A → A → Bool) → List A → List A
  sort_by after [] = []
  sort_by after (x ∷ xs) = insert_by after x (sort_by after xs)

  In-insert_by :
      (after : A → A → Bool) (x a : A) (ys : List A)
      → In a (insert_by after x ys) ↔ ((a ≡ x) ⊎ In a ys)
  unfolding insert_by
  In-insert_by after x a [] = (λ i. i, λ i. i)
  In-insert_by after x a (y ∷ ys) =
      let ih = In-insert_by after x a ys in
      elim (Bool-cases (after x y)) [
        | inl e ↦ rw e (
          elim [
            | inl q ↦ inr (inl q)
            | inr i ↦ elim (ih.0 i) [ inl q ↦ inl q | inr j ↦ inr (inr j) ]
          ],
          elim [
            | inl q ↦ inr (ih.1 (inl q))
            | inr i ↦ elim i [ inl q ↦ inl q | inr j ↦ inr (ih.1 (inr j)) ]
          ],
        )
        | inr e ↦ rw e (λ i. i, λ i. i)
      ]

  pub In-sort_by : (after : A → A → Bool) (a : A) (xs : List A) → In a (sort_by after xs) ↔ In a xs
  unfolding sort_by
  In-sort_by after a [] = (λ i. i, λ i. i)
  In-sort_by after a (x ∷ xs) =
      let ih = In-sort_by after a xs in
      let here = In-insert_by after x a (sort_by after xs) in
      (
        λ i. elim (here.0 i) [ inl q ↦ inl q | inr j ↦ inr (ih.0 j) ],
        elim [ inl q ↦ here.1 (inl q) | inr j ↦ here.1 (inr (ih.1 j)) ],
      )

  count-insert_by :
      (after : A → A → Bool) (p : A → Bool) (x : A) (ys : List A)
      → count p (insert_by after x ys) ≡ (if p x then 1 else 0) + count p ys
  unfolding insert_by
  count-insert_by after p x [] = refl
  count-insert_by after p x (y ∷ ys) = ground (arith, count-insert_by after p x ys)

  pub count-sort_by :
      (after : A → A → Bool) (p : A → Bool) (xs : List A) → count p (sort_by after xs) ≡ count p xs
  unfolding sort_by
  count-sort_by after p [] = refl
  count-sort_by after p (x ∷ xs) =
      omega (arith, count-insert_by after p x (sort_by after xs), count-sort_by after p xs)

  insert_by-All :
      (after : A → A → Bool) (P : A → Type 0) (x : A) (ys : List A)
      → P x
      → All P ys
      → All P (insert_by after x ys)
  unfolding insert_by
  insert_by-All after P x [] h k = (h, tt)
  insert_by-All after P x (y ∷ ys) h k = elim (Bool-cases (after x y)) [
    | inl e ↦ rw e (k.0, insert_by-All after P x ys h k.1)
    | inr e ↦ rw e (h, k)
  ]

  pub sort_by-All :
      (after : A → A → Bool) (P : A → Type 0) (xs : List A) → All P xs → All P (sort_by after xs)
  unfolding sort_by
  sort_by-All after P [] h = tt
  sort_by-All after P (x ∷ xs) h =
      insert_by-All after P x (sort_by after xs) h.0 (sort_by-All after P xs h.1)

  any-insert_by :
      (after : A → A → Bool) (p : A → Bool) (x : A) (ys : List A)
      → any p (insert_by after x ys) ≡ (p x || any p ys)
  unfolding insert_by
  any-insert_by after p x [] = refl
  any-insert_by after p x (y ∷ ys) = ground (arith, any-insert_by after p x ys)

  pub any-sort_by :
      (after : A → A → Bool) (p : A → Bool) (xs : List A) → any p (sort_by after xs) ≡ any p xs
  unfolding sort_by
  any-sort_by after p [] = refl
  any-sort_by after p (x ∷ xs) =
      any-insert_by after p x (sort_by after xs) ∙ ap (λ r. p x || r) (any-sort_by after p xs)

  -- Every entry stands before those of a greater value.
  abbrev pub Ascending : (A → ℕ) → List A → Type 0
  Ascending f [] = Unit
  Ascending f (x ∷ xs) = All (λ y. f x ≤ f y) xs × Ascending f xs

  All-insert_value :
      (f : A → ℕ) (n : ℕ) (x : A) (ys : List A)
      → n ≤ f x
      → All (λ y. n ≤ f y) ys
      → All (λ y. n ≤ f y) (insert_by (λ a b. ltb (f b) (f a)) x ys)
  unfolding insert_by
  All-insert_value f n x [] h k = (h, tt)
  All-insert_value f n x (y ∷ ys) h k = elim (Bool-cases (ltb (f y) (f x))) [
    | inl e ↦ rw e (k.0, All-insert_value f n x ys h k.1)
    | inr e ↦ rw e (h, k)
  ]

  insert_by-Ascending :
      (f : A → ℕ) (x : A) (ys : List A)
      → Ascending f ys
      → Ascending f (insert_by (λ a b. ltb (f b) (f a)) x ys)
  unfolding insert_by
  insert_by-Ascending f x [] h = (tt, tt)
  insert_by-Ascending f x (y ∷ ys) h = elim (Bool-cases (ltb (f y) (f x))) [
    | inl e ↦
        rw e (All-insert_value f (f y) x ys (ground (arith, e)) h.0, insert_by-Ascending f x ys h.1)
    | inr e ↦
        let first : f x ≤ f y = ground (arith, e) in
        rw e ((first, All-imp _ _ ys (λ z q. omega (arith, first, q)) h.0), h)
  ]

  pub sort_by-Ascending :
      (f : A → ℕ) (xs : List A) → Ascending f (sort_by (λ a b. ltb (f b) (f a)) xs)
  unfolding sort_by
  sort_by-Ascending f [] = tt
  sort_by-Ascending f (x ∷ xs) =
      insert_by-Ascending f x (sort_by (λ a b. ltb (f b) (f a)) xs) (sort_by-Ascending f xs)

  -- No entry is to stand after one that is behind it.
  abbrev pub Sorted : (A → A → Bool) → List A → Type 0
  Sorted after [] = Unit
  Sorted after (x ∷ xs) = All (λ y. after x y ≡ false) xs × Sorted after xs

  module _ (after : A → A → Bool) (asym : (x y : A) → after x y ≡ true → after y x ≡ false)
      (trans : (x y z : A) → after x y ≡ false → after y z ≡ false → after x z ≡ false) where
    insert_by-Sorted : (x : A) (ys : List A) → Sorted after ys → Sorted after (insert_by after x ys)
    unfolding insert_by
    insert_by-Sorted x [] h = (tt, tt)
    insert_by-Sorted x (y ∷ ys) h = elim (Bool-cases (after x y)) [
      | inl e ↦ rw e (
        insert_by-All after (λ z. after y z ≡ false) x ys (asym x y e) h.0,
        insert_by-Sorted x ys h.1,
      )
      | inr e ↦ rw e ((e, All-imp _ _ ys (λ z q. trans x y z e q) h.0), h)
    ]

    pub sort_by-Sorted : (xs : List A) → Sorted after (sort_by after xs)
    unfolding sort_by
    sort_by-Sorted [] = tt
    sort_by-Sorted (x ∷ xs) = insert_by-Sorted x (sort_by after xs) (sort_by-Sorted xs)
