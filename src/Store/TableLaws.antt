-- ===== src/Store/TableLaws.antt =====
-- Laws of the repository calls.
use back_costa_turnos.Base.{
  ℕ, ◌+◌, ◌≡◌, refl, ◌≢◌, Bool, some, List, [], ◌∷◌, arith, All, count, sum_by, if◌then◌else◌,
}
use back_costa_turnos.Store.Table.{Row, find_key, save, delete_where}

module _ {A : Type 0} ⦃r : Row A⦄ where
  pub find_key-save_self : (a : A) (xs : List A) → find_key (r.key a) (save a xs) ≡ some a
  unfolding find_key save
  find_key-save_self a [] = ground arith
  find_key-save_self a (x ∷ xs) = ground (arith, find_key-save_self a xs)

  pub find_key-save_ne :
      (a : A) (k : ℕ) (xs : List A) → r.key a ≢ k → find_key k (save a xs) ≡ find_key k xs
  unfolding find_key save
  find_key-save_ne a k [] h = ground arith
  find_key-save_ne a k (x ∷ xs) h = ground (arith, find_key-save_ne a k xs h)

  pub find_key-key : (k : ℕ) (xs : List A) (a : A) → find_key k xs ≡ some a → r.key a ≡ k
  unfolding find_key
  find_key-key k [] a e = ground arith
  find_key-key k (x ∷ xs) a e = ground (arith, find_key-key k xs a)

  -- A row that is found and saved again with one field changed adds the difference to a sum.
  pub sum_by-save :
      (f : A → ℕ) (a b : A) (xs : List A)
      → find_key (r.key b) xs ≡ some a
      → sum_by f (save b xs) + f a ≡ sum_by f xs + f b
  unfolding find_key save
  sum_by-save f a b [] e = ground arith
  sum_by-save f a b (x ∷ xs) e = ground (arith, sum_by-save f a b xs)

  pub All-save {κ} : (P : A → Type κ) (a : A) (xs : List A) → P a → All P xs → All P (save a xs)
  unfolding save
  All-save P a [] p h = (p, tt)
  All-save P a (x ∷ xs) p h = ground (arith, All-save P a xs p h.1)

  pub count-save :
      (p : A → Bool) (a b : A) (xs : List A)
      → find_key (r.key b) xs ≡ some a
      → count p (save b xs) + (if p a then 1 else 0) ≡ count p xs + (if p b then 1 else 0)
  unfolding find_key save
  count-save p a b [] e = ground arith
  count-save p a b (x ∷ xs) e = ground (arith, count-save p a b xs)

  -- A key that no row has.
  abbrev pub IsFresh : ℕ → List A → Type 0
  IsFresh k = All (λ x. r.key x ≢ k)

  pub save_fresh_sum :
      (f : A → ℕ) (a : A) (xs : List A)
      → IsFresh (r.key a) xs
      → sum_by f (save a xs) ≡ sum_by f xs + f a
  unfolding save
  save_fresh_sum f a [] h = omega arith
  save_fresh_sum f a (x ∷ xs) h = ground (arith, save_fresh_sum f a xs h.1)

  pub save_fresh_count :
      (p : A → Bool) (a : A) (xs : List A)
      → IsFresh (r.key a) xs
      → count p (save a xs) ≡ count p xs + (if p a then 1 else 0)
  unfolding save
  save_fresh_count p a [] h = ground arith
  save_fresh_count p a (x ∷ xs) h = ground (arith, save_fresh_count p a xs h.1)

pub delete_where-All {κ} :
    {A : Type 0} (P : A → Type κ) (p : A → Bool) (xs : List A)
    → All P xs
    → All P (delete_where p xs)
unfolding delete_where
delete_where-All P p [] h = tt
delete_where-All P p (x ∷ xs) h = ground (arith, delete_where-All P p xs h.1)

pub count-delete_where : {A : Type 0} (p : A → Bool) (xs : List A) → count p (delete_where p xs) ≡ 0
unfolding delete_where
count-delete_where p [] = refl
count-delete_where p (x ∷ xs) = ground (arith, count-delete_where p xs)
