-- ===== src/Combination/Create.antt =====
-- Creating a combination rule (`create`), with the unique constraint of the table.
use Prim.Native.String.{String}
use back_costa_turnos.Base.{
  ℕ, suc, ◌≤◌, ◌≡◌, ◌≢◌, Bool, true, false, not, ◌&&◌, ◌||◌, Option, none, some, List, [], ◌∷◌,
  ◌++◌, arith, ltb, if◌then◌else◌, ◌==◌, nat_coded, or_else, is_some, find?, any, All, All-append,
  any_none, any-append,
}
use back_costa_turnos.Base.Http.{
  bad_request, not_found, conflict, Result, ok, err, ◌>>=◌, ◌>>◌, throw_if, or_throw,
}
use back_costa_turnos.Enums.{
  CombinationRuleType, discount, DiscountType, percentage, rule_type_coded, discount_type_coded,
}
use back_costa_turnos.Store.Rows.{Service}
use back_costa_turnos.Combination.{ServiceCombinationRule, ServiceMembership, Tables}

pub record CreateCombinationRuleDto : Type 0 where
  pub source_service_id : ℕ
  pub target_service_id : ℕ
  pub rule_type : CombinationRuleType
  pub description : Option String
  pub discount_amount_cents : Option ℕ
  pub discount_type : Option DiscountType

abbrev service_of : Option ServiceMembership → Option Service
service_of none = none
service_of (some sm) = sm.service

-- `findAssignedService`
unfoldable pub find_assigned_service : List ServiceMembership → ℕ → ℕ → Option Service
find_assigned_service rows membership_id service_id =
    service_of (find? (λ sm. sm.membership_id == membership_id && sm.service_id == service_id) rows)

abbrev pub is_percentage : Option DiscountType → Bool
is_percentage none = false
is_percentage (some t) = t == percentage

-- The checks of a rule of type `discount`.
unfoldable pub check_discount : CreateCombinationRuleDto → Result (Unit {0})
check_discount dto = elim dto.discount_amount_cents [
  | none ↦ err bad_request
  | some amount ↦ do
    throw_if (not (is_some dto.discount_type)) bad_request
    throw_if (is_percentage dto.discount_type && ltb 10000 amount) bad_request
]

-- The key of `uq_combination_rule`.
abbrev pub same_key : ServiceCombinationRule → ServiceCombinationRule → Bool
same_key r s =
    r.source_service_id == s.source_service_id
    && (r.target_service_id == s.target_service_id && r.rule_type == s.rule_type)

-- An insert into the table, which refuses a second row with the same key.
unfoldable pub insert_rule :
    ServiceCombinationRule → List ServiceCombinationRule → Result (List ServiceCombinationRule)
insert_rule r rules = if any (same_key r) rules then err conflict else ok (rules ++ r ∷ [])

unfoldable pub rule_of : ℕ → ℕ → CreateCombinationRuleDto → ServiceCombinationRule
rule_of id membership_id dto = record {
  id = id;
  membership_id = membership_id;
  source_service_id = dto.source_service_id;
  target_service_id = dto.target_service_id;
  rule_type = dto.rule_type;
  description = dto.description;
  discount_amount_cents = dto.discount_amount_cents;
  discount_type = dto.discount_type;
}

-- `id` is the key that the database gives the row.
unfoldable pub create :
    Tables → ℕ → ℕ → CreateCombinationRuleDto → Result (List ServiceCombinationRule)
unfolding rule_of
create db id membership_id dto = do
  throw_if (dto.source_service_id == dto.target_service_id) bad_request
  _ ←
      or_throw (find_assigned_service db.service_memberships membership_id dto.source_service_id)
        not_found
  _ ←
      or_throw (find_assigned_service db.service_memberships membership_id dto.target_service_id)
        not_found
  if dto.rule_type == discount then check_discount dto else ok tt
  insert_rule (rule_of id membership_id dto) db.rules

-- What a stored rule has: two different services, and for a discount an amount with a type, at most
-- 100% where it is a percentage.
pub record IsSound (r : ServiceCombinationRule) : Type 0 where
  pub two_services : r.source_service_id ≢ r.target_service_id
  pub has_amount : r.rule_type ≡ discount → is_some r.discount_amount_cents ≡ true
  pub has_type : r.rule_type ≡ discount → is_some r.discount_type ≡ true
  pub at_most_whole :
      r.rule_type ≡ discount
      → r.discount_type ≡ some percentage
      → or_else r.discount_amount_cents 0 ≤ 10000

create-IsSound_stored :
    (db : Tables) (id m : ℕ) (dto : CreateCombinationRuleDto) (rules : List ServiceCombinationRule)
    → create db id m dto ≡ ok rules
    → IsSound (rule_of id m dto)
      × (rules ≡ db.rules ++ rule_of id m dto ∷ [])
      × (any (same_key (rule_of id m dto)) db.rules ≡ false)
unfolding create check_discount insert_rule
create-IsSound_stored db id m dto rules h = ground arith

-- Where the stored rules are sound, so are they after a creation that returns: the new rule, sound
-- too, is added at the end of the table, and no stored rule has its key.
pub create-All-IsSound :
    (db : Tables) (id m : ℕ) (dto : CreateCombinationRuleDto) (rules : List ServiceCombinationRule)
    → create db id m dto ≡ ok rules
    → All IsSound db.rules
    → All IsSound rules
      × (rules ≡ db.rules ++ rule_of id m dto ∷ [])
      × All (λ r. same_key (rule_of id m dto) r ≡ false) db.rules
create-All-IsSound db id m dto rules h k =
    let (sound, added, fresh) = create-IsSound_stored db id m dto rules h in
    (rw added (All-append IsSound db.rules _ k (sound, tt)), added, any_none _ db.rules fresh)

-- The unique constraint leaves the membership out: once one membership has created a rule between two
-- services, a membership that offers both is refused the same rule.
pub create_conflict_across_memberships :
    (db : Tables) (id other m : ℕ) (dto : CreateCombinationRuleDto)
    (rules : List ServiceCombinationRule) (s t : Service)
    → create db id other dto ≡ ok rules
    → find_assigned_service db.service_memberships m dto.source_service_id ≡ some s
    → find_assigned_service db.service_memberships m dto.target_service_id ≡ some t
    → create (record db { rules = rules }) (suc id) m dto ≡ err conflict
unfolding create check_discount insert_rule rule_of
create_conflict_across_memberships db id other m dto rules s t h a b =
    let (_, added, _) = create-IsSound_stored db id other dto rules h in
    let taken : any (same_key (rule_of (suc id) m dto)) rules ≡ true =
      rw (added, any-append (same_key (rule_of (suc id) m dto)) db.rules _) (key_taken db.rules) in
    ground (arith, taken)
  where
    key_taken :
        (rs : List ServiceCombinationRule)
        → (any (same_key (rule_of (suc id) m dto)) rs
            || any (same_key (rule_of (suc id) m dto)) (rule_of id other dto ∷ []))
          ≡ true
    key_taken rs = ground arith
