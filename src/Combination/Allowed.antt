-- ===== src/Combination/Allowed.antt =====
-- Which selections `resolveAddons` accepts.
use back_costa_turnos.Base.{
  ℕ, ◌≡◌, ◌≢◌, ◌↔◌, ◌⊎◌, inl, inr, Bool, true, not, ◌&&◌, List, [], ◌∷◌, map, arith, if◌then◌else◌,
  ◌==◌, nat_coded, Bool-cases, length, filter, any, all, In, any-In, In-any, In-all, all-of_In,
  In-filter,
}
use back_costa_turnos.Base.Http.{ok, err, bad_request}
use back_costa_turnos.Enums.{enables, excludes, free_with, rule_type_coded}
use back_costa_turnos.Store.Rows.{Service}
use back_costa_turnos.Combination.{
  ServiceCombinationRule, AddonPricing, Tables, contains, unique, active_services, apply_pricing,
  has_enabler, rules_from, exclude_rules, resolve_addons,
}

module _ (db : Tables) (membership_id : ℕ) (primary : Service) (ids : List ℕ) where
  abbrev pub assigned : List Service
  assigned = active_services (
      filter (λ sm. sm.membership_id == membership_id && contains (unique ids) sm.service_id)
        db.service_memberships)

  abbrev pub priced : List AddonPricing
  priced =
      map (λ a. apply_pricing a primary.id (rules_from membership_id primary.id db.rules)) assigned

  abbrev accepted : Bool
  accepted =
      length assigned == length (unique ids)
      && (not (any (λ s. s.id == primary.id) assigned)
          && (all (has_enabler (rules_from membership_id primary.id db.rules)) assigned
              && not (
                  any
                    (λ r.
                      contains (primary.id ∷ unique ids) r.source_service_id
                      && contains (primary.id ∷ unique ids) r.target_service_id)
                    (exclude_rules membership_id (primary.id ∷ unique ids) db.rules))))

resolve_addons_cons :
    (db : Tables) (membership_id : ℕ) (primary : Service) (i : ℕ) (is : List ℕ)
    → resolve_addons db membership_id primary (i ∷ is) ≡ (
        if accepted db membership_id primary (i ∷ is)
        then ok (priced db membership_id primary (i ∷ is))
        else err bad_request)
unfolding resolve_addons
resolve_addons_cons db membership_id primary i is = ground arith

-- `s` is offered through the rule that enables it next to the primary service.
abbrev pub EnabledBy : Tables → ℕ → ℕ → ℕ → Type 0
EnabledBy db membership_id primary s =
    (r : ServiceCombinationRule) × In r db.rules
    × (r.membership_id ≡ membership_id)
    × (r.source_service_id ≡ primary)
    × (r.target_service_id ≡ s)
    × ((r.rule_type ≡ enables) ⊎ (r.rule_type ≡ free_with))

-- A rule of the membership that excludes two of the selected services.
abbrev pub Clash : Tables → ℕ → List ℕ → ServiceCombinationRule → Type 0
Clash db membership_id selected r =
    In r db.rules
    × (r.membership_id ≡ membership_id)
    × (r.rule_type ≡ excludes)
    × In r.source_service_id selected
    × In r.target_service_id selected

-- What a selection of additional services has to meet.
pub record IsAllowed (db : Tables) (membership_id : ℕ) (primary : Service) (ids : List ℕ)
    : Type 0 where
  pub all_assigned : length (assigned db membership_id primary ids) ≡ length (unique ids)
  pub not_primary : (s : Service) → In s (assigned db membership_id primary ids) → s.id ≢ primary.id
  pub enabled :
      (s : Service)
      → In s (assigned db membership_id primary ids)
      → EnabledBy db membership_id primary.id s.id
  pub no_clash : (r : ServiceCombinationRule) → ¬ Clash db membership_id (primary.id ∷ unique ids) r

contains-In : (xs : List ℕ) (a : ℕ) → (contains xs a ≡ true) ↔ In a xs
contains-In [] a = (λ h. ground arith, λ i. elim i [ ])
contains-In (x ∷ xs) a = let (to, from) = contains-In xs a in ground (arith, to, from)

abbrev enabled_by : Tables → ℕ → Service → Service → Bool
enabled_by db membership_id primary s = has_enabler (rules_from membership_id primary.id db.rules) s

enabled_by_iff :
    (db : Tables) (m : ℕ) (primary s : Service)
    → (enabled_by db m primary s ≡ true) ↔ EnabledBy db m primary.id s.id
enabled_by_iff db m primary s = (to, from)
  where
    to : enabled_by db m primary s ≡ true → EnabledBy db m primary.id s.id
    to h =
        let (r, i, e) = any-In _ (rules_from m primary.id db.rules) h in
        let (j, f) = (In-filter _ r db.rules).0 i in
        (r, j, ground arith, ground arith, ground arith, ground arith)

    from : EnabledBy db m primary.id s.id → enabled_by db m primary s ≡ true
    from (r, i, a, b, c, d) =
        In-any _ r (rules_from m primary.id db.rules) ((In-filter _ r db.rules).1 (i, ground arith))
          (ground arith)

abbrev clashes : Tables → ℕ → List ℕ → Bool
clashes db m selected =
    any (λ r. contains selected r.source_service_id && contains selected r.target_service_id)
      (exclude_rules m selected db.rules)

clashes_of_Clash :
    (db : Tables) (m : ℕ) (selected : List ℕ) (r : ServiceCombinationRule)
    → Clash db m selected r
    → clashes db m selected ≡ true
clashes_of_Clash db m selected r (i, a, b, c, d) =
    let src = (contains-In selected r.source_service_id).1 c in
    let tgt = (contains-In selected r.target_service_id).1 d in
    In-any _ r (exclude_rules m selected db.rules) ((In-filter _ r db.rules).1 (i, ground arith))
      (ground arith)

Clash-of_clashes :
    (db : Tables) (m : ℕ) (selected : List ℕ)
    → clashes db m selected ≡ true
    → (r : ServiceCombinationRule) × Clash db m selected r
Clash-of_clashes db m selected h =
    let (r, i, e) = any-In _ (exclude_rules m selected db.rules) h in
    let (j, f) = (In-filter _ r db.rules).0 i in
    (
      r,
      (
        j,
        ground arith,
        ground arith,
        (contains-In selected r.source_service_id).0 (ground arith),
        (contains-In selected r.target_service_id).0 (ground arith),
      ),
    )

module _ (db : Tables) (m : ℕ) (primary : Service) (ids : List ℕ) where
  accepted_of : IsAllowed db m primary ids → accepted db m primary ids ≡ true
  accepted_of a =
      let enablers =
        all-of_In (enabled_by db m primary) (assigned db m primary ids)
          (λ s i. (enabled_by_iff db m primary s).1 (a.enabled s i)) in
      elim (Bool-cases (any (λ s. s.id == primary.id) (assigned db m primary ids))) [
        | inl e ↦
            let (s, i, q) = any-In _ (assigned db m primary ids) e in
            absurd (a.not_primary s i (ground arith))
        | inr e ↦ elim (Bool-cases (clashes db m (primary.id ∷ unique ids))) [
          | inl f ↦
              let (r, c) = Clash-of_clashes db m (primary.id ∷ unique ids) f in
              absurd (a.no_clash r c)
          | inr f ↦ let lengths = a.all_assigned in ground (arith, enablers, e, f, lengths)
        ]
      ]

  IsAllowed-of : accepted db m primary ids ≡ true → IsAllowed db m primary ids
  IsAllowed-of h =
      let e : all (enabled_by db m primary) (assigned db m primary ids) ≡ true = ground arith in
      record {
        all_assigned = ground arith;
        not_primary = λ s i q.
            let found =
              In-any (λ t. t.id == primary.id) s (assigned db m primary ids) i (ground arith) in
            ground arith;
        enabled = λ s i.
            (enabled_by_iff db m primary s).0
              (In-all (enabled_by db m primary) s (assigned db m primary ids) e i);
        no_clash =
            λ r q. let found = clashes_of_Clash db m (primary.id ∷ unique ids) r q in ground arith;
      }

-- A selection of additional services is accepted, at the prices of `applyPricing`, exactly when as
-- many of its services as it has distinct ones are assigned and active, none of them is the primary
-- service, a rule of the membership enables each of them next to it, and no rule of the membership
-- excludes two of the selected services; every other selection is a bad request.
pub resolve_addons_iff :
    (db : Tables) (m : ℕ) (primary : Service) (i : ℕ) (is : List ℕ)
    → (IsAllowed db m primary (i ∷ is)
        → resolve_addons db m primary (i ∷ is) ≡ ok (priced db m primary (i ∷ is)))
      × (¬ IsAllowed db m primary (i ∷ is) → resolve_addons db m primary (i ∷ is) ≡ err bad_request)
resolve_addons_iff db m primary i is = (
  λ a. rw (resolve_addons_cons db m primary i is, accepted_of db m primary (i ∷ is) a),
  λ n. elim (Bool-cases (accepted db m primary (i ∷ is))) [
    | inl e ↦ absurd (n (IsAllowed-of db m primary (i ∷ is) e))
    | inr e ↦ rw (resolve_addons_cons db m primary i is, e)
  ],
)
