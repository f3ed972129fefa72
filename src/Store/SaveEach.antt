-- ===== src/Store/SaveEach.antt =====
-- A loop that loads the rows that pass a test, changes each and saves it, is a map over the table.
use back_costa_turnos.Base.{
  ℕ, ◌≡◌, refl, ◌≢◌, inl, inr, Bool, List, [], ◌∷◌, ◌++◌, map, arith, nat_beq_refl, nat_beq,
  nat_beq→eq, sym, some, In, if◌then◌else◌, nat_coded, Bool-cases, filter,
}
use back_costa_turnos.Store.Table.{Row, find_key, save, save_each}
use back_costa_turnos.Store.TableLaws.{IsFresh, All-save}

module _ {A : Type 0} ⦃r : Row A⦄ where
  -- No two rows share their primary key.
  abbrev pub Distinct : List A → Type 0
  Distinct [] = Unit
  Distinct (x ∷ xs) = IsFresh (r.key x) xs × Distinct xs

  abbrev pub map_where : (A → Bool) → (A → A) → List A → List A
  map_where p f xs = map (λ x. if p x then f x else x) xs

  save_each-cons :
      (f : A → A) (y : A) (ps xs : List A)
      → ((x : A) → r.key (f x) ≡ r.key x)
      → IsFresh (r.key y) ps
      → save_each f ps (y ∷ xs) ≡ y ∷ save_each f ps xs
  unfolding save_each save
  save_each-cons f y [] xs k h = refl
  save_each-cons f y (p ∷ ps) xs k h =
      ground (arith, k p, save_each-cons f y ps (save (f p) xs) k h.1)

  pub IsFresh-filter : (k : ℕ) (p : A → Bool) (xs : List A) → IsFresh k xs → IsFresh k (filter p xs)
  IsFresh-filter k p [] h = tt
  IsFresh-filter k p (x ∷ xs) h = ground (arith, IsFresh-filter k p xs h.1)

  pub save_each-map_where :
      (p : A → Bool) (f : A → A) (xs : List A)
      → ((x : A) → r.key (f x) ≡ r.key x)
      → Distinct xs
      → save_each f (filter p xs) xs ≡ map_where p f xs
  unfolding save_each save
  save_each-map_where p f [] k h = refl
  save_each-map_where p f (x ∷ xs) k (fresh, h) =
      let ih = save_each-map_where p f xs k h in
      let rest = IsFresh-filter (r.key x) p xs fresh in
      elim (Bool-cases (p x)) [
        | inl e ↦ ground (
          arith,
          e,
          ih,
          k x,
          nat_beq_refl (r.key x),
          save_each-cons f (f x) (filter p xs) xs k (rw (k x) rest),
        )
        | inr e ↦ ground (arith, e, ih, save_each-cons f x (filter p xs) xs k rest)
      ]

  IsFresh-map_where :
      (k : ℕ) (p : A → Bool) (f : A → A) (xs : List A)
      → ((x : A) → r.key (f x) ≡ r.key x)
      → IsFresh k xs
      → IsFresh k (map_where p f xs)
  IsFresh-map_where k p f [] same h = tt
  IsFresh-map_where k p f (x ∷ xs) same h =
      ground (arith, same x, IsFresh-map_where k p f xs same h.1)

  pub Distinct-map_where :
      (p : A → Bool) (f : A → A) (xs : List A)
      → ((x : A) → r.key (f x) ≡ r.key x)
      → Distinct xs
      → Distinct (map_where p f xs)
  Distinct-map_where p f [] same h = tt
  Distinct-map_where p f (x ∷ xs) same (fresh, h) =
      let rest = IsFresh-map_where (r.key x) p f xs same fresh in
      elim (Bool-cases (p x)) [
        | inl e ↦ rw (e, same x) (rest, Distinct-map_where p f xs same h)
        | inr e ↦ rw e (rest, Distinct-map_where p f xs same h)
      ]

  pub IsFresh-save_each :
      (f : A → A) (k : ℕ) (ps xs : List A)
      → ((x : A) → r.key (f x) ≡ r.key x)
      → IsFresh k ps
      → IsFresh k xs
      → IsFresh k (save_each f ps xs)
  unfolding save_each
  IsFresh-save_each f k [] xs same h g = g
  IsFresh-save_each f k (p ∷ ps) xs same h g =
      IsFresh-save_each f k ps (save (f p) xs) same h.1
        (All-save (λ x. r.key x ≢ k) (f p) xs (rw (same p) h.0) g)

  -- A row with a new key is added at the end, and a query finds it there.
  pub filter-save_fresh :
      (p : A → Bool) (a : A) (xs : List A)
      → IsFresh (r.key a) xs
      → filter p (save a xs) ≡ filter p xs ++ (if p a then a ∷ [] else [])
  unfolding save
  filter-save_fresh p a [] h = ground arith
  filter-save_fresh p a (x ∷ xs) h = ground (arith, filter-save_fresh p a xs h.1)

  pub IsFresh-find_key : (k : ℕ) (xs : List A) (a : A) → IsFresh k xs → find_key k xs ≡ some a → ⊥
  unfolding find_key
  IsFresh-find_key k [] a h e = absurd (cc)
  IsFresh-find_key k (x ∷ xs) a h e = elim (Bool-cases (nat_beq (r.key x) k)) [
    | inl q ↦ h.0 (nat_beq→eq _ _ q)
    | inr q ↦ IsFresh-find_key k xs a h.1 (ground (arith, e, q))
  ]

  IsFresh-In : (k : ℕ) (a : A) (xs : List A) → IsFresh k xs → In a xs → r.key a ≢ k
  IsFresh-In k a [] h i = elim i [ ]
  IsFresh-In k a (x ∷ xs) h (inl e) = rw e (h.0)
  IsFresh-In k a (x ∷ xs) h (inr i) = IsFresh-In k a xs h.1 i

  -- Where no two rows share their key, a row is found by its own.
  pub Distinct-find_key :
      (a : A) (xs : List A) → Distinct xs → In a xs → find_key (r.key a) xs ≡ some a
  unfolding find_key
  Distinct-find_key a [] d i = elim i [ ]
  Distinct-find_key a (x ∷ xs) d (inl e) = rw e (ground (arith, nat_beq_refl (r.key x)))
  Distinct-find_key a (x ∷ xs) d (inr i) =
      let ne = IsFresh-In (r.key x) a xs d.0 i in
      elim (Bool-cases (nat_beq (r.key x) (r.key a))) [
        | inl q ↦ absurd (ne (sym (nat_beq→eq _ _ q)))
        | inr q ↦ rw q (Distinct-find_key a xs d.1 i)
      ]
