-- ===== src/Base/Members.antt =====
-- Lemmas on lists: appending, mapping, and rows that pass a test.
use Prim.Native.Nat.{suc}
use mathlib.Core.Path.{◌≡◌, refl, sym, ap, subst, ◌∙◌}
use mathlib.Core.Logic.{◌↔◌, ◌⊎◌, inl, inr}
use mathlib.Core.Bool.{Bool, true, false}
use mathlib.Core.Option.{some}
use mathlib.Core.List.{List, [], ◌∷◌, ◌++◌, map}
use native.Mathlib.Omega.{arith}
use back_costa_turnos.Base.Tests.{Bool-cases}
use back_costa_turnos.Base.Lists.{length, find?, any, All, In}

pub append_assoc : {A : Type 0} (xs ys zs : List A) → (xs ++ ys) ++ zs ≡ xs ++ (ys ++ zs)
append_assoc [] ys zs = refl
append_assoc (x ∷ xs) ys zs = ap (λ l. x ∷ l) (append_assoc xs ys zs)

pub append_nil : {A : Type 0} (xs : List A) → xs ++ [] ≡ xs
append_nil [] = refl
append_nil (x ∷ xs) = ap (λ l. x ∷ l) (append_nil xs)

pub length-map : {A B : Type 0} (f : A → B) (xs : List A) → length (map f xs) ≡ length xs
length-map f [] = refl
length-map f (x ∷ xs) = ap suc (length-map f xs)

module _ {A : Type 0} where
  pub In-append : (a : A) (xs ys : List A) → In a (xs ++ ys) ↔ (In a xs ⊎ In a ys)
  In-append a [] ys = (λ i. inr i, elim [ inl i ↦ elim i [ ] | inr i ↦ i ])
  In-append a (x ∷ xs) ys =
      let ih = In-append a xs ys in
      (
        elim [
          | inl e ↦ inl (inl e)
          | inr i ↦ elim (ih.0 i) [ inl j ↦ inl (inr j) | inr j ↦ inr j ]
        ],
        elim [
          | inl i ↦ elim i [ inl e ↦ inl e | inr j ↦ inr (ih.1 (inl j)) ]
          | inr i ↦ inr (ih.1 (inr i))
        ],
      )

pub In-map :
    {A B : Type 0} (f : A → B) (b : B) (xs : List A)
    → In b (map f xs) ↔ ((a : A) × In a xs × (b ≡ f a))
In-map f b [] = (λ i. elim i [ ], λ (a, i, e). elim i [ ])
In-map f b (x ∷ xs) =
    let ih = In-map f b xs in
    (
      elim [ inl e ↦ (x, inl refl, e) | inr i ↦ let (a, j, e) = ih.0 i in (a, inr j, e) ],
      λ (a, i, e). elim i [ inl q ↦ inl (e ∙ ap f q) | inr j ↦ inr (ih.1 (a, j, e)) ],
    )

pub map-In : {A B : Type 0} (f : A → B) (a : A) (xs : List A) → In a xs → In (f a) (map f xs)
map-In f a xs i = (In-map f (f a) xs).1 (a, i, refl)

pub All-map :
    {A B : Type 0} (P : A → Type 0) (Q : B → Type 0) (f : A → B) (xs : List A)
    → ((x : A) → P x → Q (f x))
    → All P xs
    → All Q (map f xs)
All-map P Q f [] h k = tt
All-map P Q f (x ∷ xs) h k = (h x k.0, All-map P Q f xs h k.1)

pub All-imp :
    {A : Type 0} (P Q : A → Type 0) (xs : List A) → ((x : A) → P x → Q x) → All P xs → All Q xs
All-imp P Q [] f h = tt
All-imp P Q (x ∷ xs) f h = (f x h.0, All-imp P Q xs f h.1)

pub All-In : {A : Type 0} (P : A → Type 0) (x : A) (xs : List A) → All P xs → In x xs → P x
All-In P x [] h i = elim i [ ]
All-In P x (y ∷ xs) h (inl e) = subst P (sym e) h.0
All-In P x (y ∷ xs) h (inr i) = All-In P x xs h.1 i

pub find?-All :
    {A : Type 0} (P : A → Type 0) (p : A → Bool) (xs : List A) (a : A)
    → All P xs
    → find? p xs ≡ some a
    → P a
find?-All P p [] a h e = ground arith
find?-All P p (x ∷ xs) a h e = elim (Bool-cases (p x)) [
  | inl q ↦ let same : some x ≡ some a = rw q at e in ground (arith, same, h.0)
  | inr q ↦ find?-All P p xs a h.1 (rw q at e)
]

pub find?-test :
    {A : Type 0} (p : A → Bool) (xs : List A) (a : A) → find? p xs ≡ some a → p a ≡ true
find?-test p [] a e = ground arith
find?-test p (x ∷ xs) a e = ground (arith, e, find?-test p xs a)

pub any-of_none_In :
    {A : Type 0} (p : A → Bool) (xs : List A) → ((x : A) → In x xs → p x ≡ false) → any p xs ≡ false
any-of_none_In p [] h = refl
any-of_none_In p (x ∷ xs) h = rw (h x (inl refl), any-of_none_In p xs (λ y i. h y (inr i))) refl
