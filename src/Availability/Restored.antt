-- ===== src/Availability/Restored.antt =====
-- What the calls on the rules of an agenda leave in the tables: `createScheduleRuleForMembership`,
-- `deleteScheduleRuleByMembership` and `updateScheduleRuleForMembership` of
-- src/modules/availability/availability.service.ts.
use back_costa_turnos.Base.{
  ℕ, ◌≡◌, refl, ap, Bool, true, false, ◌&&◌, some, List, [], ◌∷◌, ◌++◌, map, arith, ◌==◌, nat_coded,
  or_else, find?, any, length, All,
}
use back_costa_turnos.Base.Http.{ok, err, bad_request}
use back_costa_turnos.Store.Rows.{Membership, Staff, ScheduleRule, ScheduleRuleService}
use back_costa_turnos.Store.Table.{save, find_key, delete_where, schedule_rule_row, membership_row}
use back_costa_turnos.Store.TableLaws.{IsFresh, find_key-save_self}
use back_costa_turnos.Store.Db.{Db}
use back_costa_turnos.Combination.{unique}
use back_costa_turnos.Availability.{text_before, get_membership_by_id, staff_of}
use back_costa_turnos.Availability.Rules.{
  RuleDto, RuleChange, RuleWithServices, validate_rule_services, save_rule_services, save_rule,
  as_stored, link, rule_of, create_rule, owned_rule, changed, replace_services, update_rule,
  delete_rule, filter_assigned,
}

delete_where-none :
    {A : Type 0} (p : A → Bool) (xs : List A) → All (λ x. p x ≡ false) xs → delete_where p xs ≡ xs
unfolding delete_where
delete_where-none p [] h = refl
delete_where-none p (x ∷ xs) h = rw (h.0) (ap (λ l. x ∷ l) (delete_where-none p xs h.1))

-- The rules without the one that was added.
delete_where-save :
    (a : ScheduleRule) (membership_id : ℕ) (xs : List ScheduleRule)
    → a.membership_id ≡ membership_id
    → IsFresh a.id xs
    → (any (owned_rule membership_id a.id) (save a xs) ≡ true)
      × (delete_where (owned_rule membership_id a.id) (save a xs) ≡ xs)
unfolding delete_where save
delete_where-save a membership_id [] own h = (ground (arith, own), ground (arith, own))
delete_where-save a membership_id (x ∷ xs) own h =
    let ih = delete_where-save a membership_id xs own h.1 in
    (ground (arith, h.0, ih.0), ground (arith, h.0, ih.1))

delete_where-links :
    (id : ℕ) (xs : List ScheduleRuleService) (ids : List ℕ)
    → All (λ row. row.schedule_rule_id == id ≡ false) xs
    → delete_where (λ row. true && row.schedule_rule_id == id) (xs ++ map (link id) ids) ≡ xs
unfolding delete_where
delete_where-links id [] [] h = refl
delete_where-links id [] (i ∷ is) h = ground (arith, delete_where-links id [] is tt)
delete_where-links id (x ∷ xs) ids h = ground (arith, h.0, delete_where-links id xs ids h.1)

-- Making a rule and deleting it restores the tables: where its times are in order, the membership, its
-- professional's chair and the services are there and the key is new, both calls return and the tables
-- are as before.
pub delete_rule-create_rule :
    (id membership_id : ℕ) (dto : RuleDto) (db : Db) (m : Membership) (chair : Staff)
    (service_ids : List ℕ)
    → text_before dto.start_time dto.end_time ≡ true
    → find_key membership_id db.memberships ≡ some m
    → find? (λ s. s.professional_id == m.professional_id) db.staff ≡ some chair
    → validate_rule_services membership_id (or_else dto.service_ids []) db ≡ (ok service_ids, db)
    → IsFresh id db.schedule_rules
    → All (λ row. row.schedule_rule_id == id ≡ false) db.schedule_rule_services
    → (made : RuleWithServices) × (db' : Db) × (create_rule id membership_id dto db
        ≡ (ok made, db'))
      × (delete_rule membership_id id db' ≡ (ok tt, db))
unfolding create_rule delete_rule save_rule save_rule_services get_membership_by_id staff_of rule_of
delete_rule-create_rule id membership_id dto db m chair service_ids order has_m has_chair valid
      fresh unlinked =
    let rule = rule_of id membership_id chair.id dto in
    let (known, gone) =
      delete_where-save (as_stored rule) membership_id db.schedule_rules refl fresh in
    (
      record { rule = rule; service_ids = service_ids },
      record db {
        schedule_rules = save (as_stored rule) db.schedule_rules;
        schedule_rule_services = db.schedule_rule_services ++ map (link id) service_ids;
      },
      ground (arith, order, has_m, has_chair, valid),
      ground (
        arith,
        known,
        gone,
        delete_where-links id db.schedule_rule_services service_ids unlinked,
      ),
    )

-- A refused change is half made: where the rule is there, the times are in order and one of the services
-- is not offered, the call throws, and yet the rule has its new day, times and kind, for the services
-- that it had before.
pub update_rule-half_made :
    (membership_id id : ℕ) (dto : RuleChange) (i : ℕ) (is : List ℕ) (db : Db) (rule : ScheduleRule)
    → find? (owned_rule membership_id id) db.schedule_rules ≡ some rule
    → text_before (or_else dto.start_time rule.start_time) (or_else dto.end_time rule.end_time)
      ≡ true
    → dto.service_ids ≡ some (i ∷ is)
    → length (filter_assigned membership_id (unique (i ∷ is)) db) == length (unique (i ∷ is))
      ≡ false
    → (db' : Db) × (update_rule membership_id id dto db ≡ (err bad_request, db'))
      × (find_key rule.id db'.schedule_rules ≡ some (as_stored (changed dto rule)))
      × (db'.schedule_rule_services ≡ db.schedule_rule_services)
unfolding update_rule save_rule replace_services validate_rule_services filter_assigned changed
update_rule-half_made membership_id id dto i is db rule found order given refused =
    let db' : Db = record db {
      schedule_rules = save (as_stored (changed dto rule)) db.schedule_rules;
    } in
    (
      db',
      ground (arith, found, order, given, refused),
      (find_key-save_self (as_stored (changed dto rule)) db.schedule_rules),
      refl,
    )
