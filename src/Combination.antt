-- ===== src/Combination.antt =====
-- src/modules/catalog/service-combination-rules.service.ts: which services may be added to a booking
-- and at what price. `find` keeps the order of the table.
pub mod Pricing
pub mod Allowed
pub mod Create
use Prim.Native.String.{String}
use back_costa_turnos.Base.{
  ℕ, ◌*◌, Bool, true, false, not, ◌&&◌, ◌||◌, Option, none, some, List, [], ◌∷◌, map, min, ◌==◌,
  if◌then◌else◌, length, filter, find?, any, all, is_some,
}
use back_costa_turnos.Base.{nat_coded}
use back_costa_turnos.Base.Http.{bad_request, Result, ok, ◌>>=◌, ◌>>◌, throw_if}
use back_costa_turnos.Enums.{
  CombinationRuleType, enables, excludes, discount, free_with, DiscountType, percentage,
  rule_type_coded, discount_type_coded,
}
use back_costa_turnos.Store.Rows.{Service}
use back_costa_turnos.Pricing.{round_div}

pub record ServiceCombinationRule : Type 0 where
  pub id : ℕ
  pub membership_id : ℕ
  pub source_service_id : ℕ
  pub target_service_id : ℕ
  pub rule_type : CombinationRuleType
  pub description : Option String
  pub discount_amount_cents : Option ℕ
  pub discount_type : Option DiscountType

-- `service` is the loaded relation, which may be missing.
pub record ServiceMembership : Type 0 where
  pub service_id : ℕ
  pub membership_id : ℕ
  pub service : Option Service

pub record AddonPricing : Type 0 where
  pub service : Service
  pub price_at_booking_cents : ℕ
  pub discount_applied_cents : ℕ
  pub is_free : Bool

pub record Tables : Type 0 where
  pub rules : List ServiceCombinationRule
  pub service_memberships : List ServiceMembership

-- `includes`
abbrev pub contains : List ℕ → ℕ → Bool
contains xs a = any (λ x. x == a) xs

-- `[...new Set(ids)]`: the first occurrences, in order. The list of those seen so far is passed on.
unfoldable pub unique_from : List ℕ → List ℕ → List ℕ
unique_from seen [] = []
unique_from seen (x ∷ xs) =
    let kept = unique_from (x ∷ seen) xs in
    let skipped = unique_from seen xs in if contains seen x then skipped else x ∷ kept

unfoldable pub unique : List ℕ → List ℕ
unfolding unique_from
unique xs = unique_from [] xs

-- The loaded services of the rows, those that are missing or inactive left out.
unfoldable pub active_services : List ServiceMembership → List Service
active_services [] = []
active_services (sm ∷ rows) = elim sm.service [
  | none ↦ active_services rows
  | some s ↦ if s.is_active then s ∷ active_services rows else active_services rows
]

-- The tests of the two `find` calls in `applyPricing`.
abbrev pub applies : ℕ → ℕ → CombinationRuleType → ServiceCombinationRule → Bool
applies source target kind r =
    r.source_service_id == source && (r.target_service_id == target && r.rule_type == kind)

unfoldable pub discount_of : Service → Option ServiceCombinationRule → ℕ
unfolding round_div
discount_of addon none = 0
discount_of addon (some r) = elim r.discount_amount_cents [
  | none ↦ 0
  | some amount ↦ elim r.discount_type [
    | none ↦ 0
    | some kind ↦
        min (if kind == percentage then round_div (addon.price_cents * amount) 10000 else amount)
          addon.price_cents
  ]
]

unfoldable pub apply_pricing : Service → ℕ → List ServiceCombinationRule → AddonPricing
unfolding discount_of
apply_pricing addon primary_id rules =
    if is_some (find? (applies primary_id addon.id free_with) rules)
    then record {
      service = addon;
      price_at_booking_cents = addon.price_cents;
      discount_applied_cents = addon.price_cents;
      is_free = true;
    }
    else record {
      service = addon;
      price_at_booking_cents = addon.price_cents;
      discount_applied_cents =
          discount_of addon (find? (applies primary_id addon.id discount) rules);
      is_free = false;
    }

-- `hasEnabler`, over the rules whose source is the primary service.
abbrev pub has_enabler : List ServiceCombinationRule → Service → Bool
has_enabler rules addon =
    any
      (λ r. r.target_service_id == addon.id && (r.rule_type == enables || r.rule_type == free_with))
      rules

abbrev pub rules_from : ℕ → ℕ → List ServiceCombinationRule → List ServiceCombinationRule
rules_from membership_id source =
    filter (λ r. r.membership_id == membership_id && r.source_service_id == source)

-- The `excludes` rules of the membership that touch a selected service.
abbrev pub exclude_rules : ℕ → List ℕ → List ServiceCombinationRule → List ServiceCombinationRule
exclude_rules membership_id selected = filter (λ r.
    (r.membership_id == membership_id && r.rule_type == excludes)
    && (contains selected r.source_service_id || contains selected r.target_service_id))

unfoldable pub resolve_addons : Tables → ℕ → Service → List ℕ → Result (List AddonPricing)
resolve_addons db membership_id primary [] = ok []
resolve_addons db membership_id primary (i ∷ is) = do
  let ids = unique (i ∷ is)
  let assignment =
      filter (λ sm. sm.membership_id == membership_id && contains ids sm.service_id)
        db.service_memberships
  let addons = active_services assignment
  throw_if (not (length addons == length ids)) bad_request
  throw_if (any (λ s. s.id == primary.id) addons) bad_request
  let all_rules = rules_from membership_id primary.id db.rules
  let selected = primary.id ∷ ids
  throw_if (not (all (has_enabler all_rules) addons)) bad_request
  throw_if
      (any (λ r. contains selected r.source_service_id && contains selected r.target_service_id)
        (exclude_rules membership_id selected db.rules))
      bad_request
  ok (map (λ a. apply_pricing a primary.id all_rules) addons)
