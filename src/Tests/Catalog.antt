-- ===== src/Tests/Catalog.antt =====
-- Additional services and their rules at a concrete catalog.
use back_costa_turnos.Base.{◌≡◌, refl, false, none, some, List, [], ◌∷◌, ◌++◌, nat_coded, All}
use back_costa_turnos.Base.Http.{bad_request, conflict, ok, err}
use back_costa_turnos.Enums.{appointment_status_coded, percentage, discount}
use back_costa_turnos.Store.Table.{appointment_row, payment_row}
use back_costa_turnos.Tests.{haircut, wash, catalog}
use back_costa_turnos.Combination.{ServiceCombinationRule, Tables, apply_pricing, resolve_addons}
use back_costa_turnos.Combination.Pricing.{IsPriced, apply_pricing-IsPriced}
use back_costa_turnos.Combination.Allowed.{IsAllowed, priced, resolve_addons_iff}
use back_costa_turnos.Combination.Create.{
  CreateCombinationRuleDto, IsSound, create, rule_of, same_key, find_assigned_service,
  check_discount, insert_rule, create-All-IsSound, create_conflict_across_memberships,
}

resolve_addons_iff_example :
    (IsAllowed catalog 4 haircut (8 ∷ [])
      → resolve_addons catalog 4 haircut (8 ∷ []) ≡ ok (priced catalog 4 haircut (8 ∷ [])))
    × (¬ IsAllowed catalog 4 haircut (8 ∷ [])
        → resolve_addons catalog 4 haircut (8 ∷ []) ≡ err bad_request)
resolve_addons_iff_example = resolve_addons_iff catalog 4 haircut 8 []

apply_pricing-IsPriced_example : IsPriced wash 7 catalog.rules (apply_pricing wash 7 catalog.rules)
apply_pricing-IsPriced_example = apply_pricing-IsPriced wash 7 catalog.rules

abbrev ten_percent : CreateCombinationRuleDto
ten_percent = record {
  source_service_id = 7;
  target_service_id = 8;
  rule_type = discount;
  description = none;
  discount_amount_cents = some 1000;
  discount_type = some percentage;
}

-- Two memberships that offer both services, without rules.
abbrev shared : Tables
shared = record {
  rules = [];
  service_memberships =
      record { service_id = 7; membership_id = 4; service = some haircut }
      ∷ record { service_id = 8; membership_id = 4; service = some wash }
      ∷ record { service_id = 7; membership_id = 5; service = some haircut }
      ∷ record { service_id = 8; membership_id = 5; service = some wash }
      ∷ [];
}

abbrev first_rule : List ServiceCombinationRule
first_rule =
    record {
      id = 60;
      membership_id = 4;
      source_service_id = 7;
      target_service_id = 8;
      rule_type = discount;
      description = none;
      discount_amount_cents = some 1000;
      discount_type = some percentage;
    }
    ∷ []

created : create shared 60 4 ten_percent ≡ ok first_rule
unfolding create rule_of check_discount insert_rule find_assigned_service
created = refl

create-All-IsSound_example :
    All IsSound first_rule
    × (first_rule ≡ [] ++ rule_of 60 4 ten_percent ∷ [])
    × All (λ r. same_key (rule_of 60 4 ten_percent) r ≡ false) []
create-All-IsSound_example = create-All-IsSound shared 60 4 ten_percent first_rule created tt

source_offered : find_assigned_service shared.service_memberships 5 7 ≡ some haircut
unfolding find_assigned_service
source_offered = refl

target_offered : find_assigned_service shared.service_memberships 5 8 ≡ some wash
unfolding find_assigned_service
target_offered = refl

create_conflict_across_memberships_example :
    create (record shared { rules = first_rule }) 61 5 ten_percent ≡ err conflict
create_conflict_across_memberships_example =
    create_conflict_across_memberships shared 60 4 5 ten_percent first_rule haircut wash created
      source_offered target_offered
