-- ===== src/Combination/Pricing.antt =====
-- The price of an additional service (`applyPricing`).
use back_costa_turnos.Base.{
  ℕ, ◌≤◌, ◌≡◌, refl, Bool, true, Option, none, some, List, [], ◌∷◌, arith, find?, any, is_some,
}
use back_costa_turnos.Enums.{free_with, discount}
use back_costa_turnos.Store.Rows.{Service}
use back_costa_turnos.Combination.{
  ServiceCombinationRule, AddonPricing, applies, discount_of, apply_pricing,
}

discount_of-le : (s : Service) (r : Option ServiceCombinationRule) → discount_of s r ≤ s.price_cents
unfolding discount_of
discount_of-le s none = omega arith
discount_of-le s (some r) = ground arith

is_some-find? : {A : Type 0} (p : A → Bool) (xs : List A) → is_some (find? p xs) ≡ any p xs
is_some-find? p [] = refl
is_some-find? p (x ∷ xs) = ground (arith, is_some-find? p xs)

-- The price of an additional service: the listed price is kept, the discount never exceeds it, a
-- free service is discounted whole, and it is free exactly when a `free_with` rule of the primary
-- service names it, also where a discount rule does too.
pub record IsPriced (s : Service) (primary : ℕ) (rules : List ServiceCombinationRule)
    (p : AddonPricing) : Type 0 where
  pub same_service : p.service ≡ s
  pub listed : p.price_at_booking_cents ≡ s.price_cents
  pub bounded : p.discount_applied_cents ≤ p.price_at_booking_cents
  pub free_whole : p.is_free ≡ true → p.discount_applied_cents ≡ p.price_at_booking_cents
  pub free_by_rule : p.is_free ≡ any (applies primary s.id free_with) rules

-- An additional service is listed at its own price, its discount never exceeds it, and it is free, at
-- the whole price, exactly where a rule of the primary service makes it so.
pub apply_pricing-IsPriced :
    (s : Service) (primary : ℕ) (rules : List ServiceCombinationRule)
    → IsPriced s primary rules (apply_pricing s primary rules)
unfolding apply_pricing
apply_pricing-IsPriced s primary rules = ground (
  arith,
  is_some-find? (applies primary s.id free_with) rules,
  discount_of-le s (find? (applies primary s.id discount) rules),
)
