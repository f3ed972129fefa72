-- ===== src/Subscriptions/Access.antt =====
-- Who may write after a daily run: `hasWriteAccess` and `runStateTransitions` of
-- src/modules/subscriptions/subscriptions.service.ts, with the guard of
-- src/common/guards/subscription.guard.ts.
use back_costa_turnos.Base.{
  map-In, All-map, find?-All, ℕ, ◌+◌, ◌*◌, ◌<◌, ◌≡◌, ◌∙◌, Bool, true, false, not, ◌||◌, some, List,
  [], ◌∷◌, ◌++◌, map, arith, if◌then◌else◌, ◌==◌, nat_coded, All, In, is_some,
}
use back_costa_turnos.Base.Http.{Result, ok, err, forbidden}
use back_costa_turnos.Enums.{
  SubscriptionStatus, subscription_status_coded, past_due, grace, blocked,
}
use back_costa_turnos.Store.TableLaws.{IsFresh}
use back_costa_turnos.Store.SaveEach.{Distinct}
use back_costa_turnos.Subscriptions.{
  Subscription, Books, subscription_row, by_tenant, has_write_access, is_expired, overdue, stopped,
  run_state_transitions, day_ms,
}
use back_costa_turnos.Subscriptions.Renewal.{
  HttpMethod, is_safe, can_activate, tenant_access, access_of,
}
use back_costa_turnos.Subscriptions.Daily.{after_run, run_state_transitions-after_run, run_notices}

-- A subscription in its grace has an end of the grace.
abbrev pub has_grace_end : Subscription → Bool
has_grace_end s = not (s.status == past_due || s.status == grace) || is_some s.grace_ends_at

-- Whether the tenant may write is what the status says; nothing writes the status `cancelled`.
abbrev pub Agrees : ℕ → ℕ → Subscription → Type 0
Agrees grace_days now s =
    s.status == SubscriptionStatus.cancelled ≡ false
    → has_write_access grace_days s now ≡ not (s.status == blocked)

after_run-has_grace_end :
    (grace_days now : ℕ) (s : Subscription)
    → has_grace_end s ≡ true
    → has_grace_end (after_run grace_days now s) ≡ true
unfolding after_run overdue stopped
after_run-has_grace_end grace_days now s h = ground (arith, h)

after_run-Agrees :
    (grace_days now : ℕ) (s : Subscription)
    → has_grace_end s ≡ true
    → Agrees grace_days now (after_run grace_days now s)
unfolding after_run overdue stopped has_write_access
after_run-Agrees grace_days now s h c = ground (arith, h, c)

after_run-id : (grace_days now : ℕ) (s : Subscription) → (after_run grace_days now s).id ≡ s.id
unfolding after_run overdue stopped
after_run-id grace_days now s = ground arith

IsFresh-after_run :
    (grace_days now k : ℕ) (xs : List Subscription)
    → IsFresh k xs
    → IsFresh k (map (after_run grace_days now) xs)
IsFresh-after_run grace_days now k xs h =
    All-map _ _ (after_run grace_days now) xs (λ x p. rw (after_run-id grace_days now x) p) h

Distinct-after_run :
    (grace_days now : ℕ) (xs : List Subscription)
    → Distinct xs
    → Distinct (map (after_run grace_days now) xs)
Distinct-after_run grace_days now [] h = tt
Distinct-after_run grace_days now (x ∷ xs) (fresh, h) = (
  rw (after_run-id grace_days now x) (IsFresh-after_run grace_days now x.id xs fresh),
  Distinct-after_run grace_days now xs h,
)

-- The books as the service keeps them: keys are distinct, and a grace has an end.
abbrev pub IsKept : Books → Type 0
IsKept db = Distinct db.subscriptions × All (λ s. has_grace_end s ≡ true) db.subscriptions

-- The answer of the guard to a write of the tenant of that subscription.
abbrev pub answer : Subscription → Result Bool
answer s = if s.status == blocked then err forbidden else ok true

can_activate-answer :
    (grace_days now : ℕ) (method : HttpMethod) (tenant_id : ℕ) (db : Books) (s : Subscription)
    → is_safe method ≡ false
    → by_tenant tenant_id db.subscriptions ≡ some s
    → has_write_access grace_days s now ≡ not (s.status == blocked)
    → can_activate grace_days now method false (some tenant_id) db ≡ answer s
unfolding can_activate tenant_access access_of
can_activate-answer grace_days now method tenant_id db s m found h = rw (m, found, h) (ground arith)

-- The daily run returns and keeps the books well-formed, and afterwards the guard lets a write of a
-- tenant pass exactly if the status of the tenant's subscription is not `blocked`, where the user is
-- no administrator and the status is not `cancelled`.
pub run_state_transitions-can_activate :
    (grace_days now : ℕ) (db : Books)
    → IsKept db
    → (db' : Books) × (run_state_transitions grace_days now db ≡ (ok tt, db'))
      × IsKept db'
      × ((method : HttpMethod) (tenant_id : ℕ) (s : Subscription)
          → is_safe method ≡ false
          → by_tenant tenant_id db'.subscriptions ≡ some s
          → s.status == SubscriptionStatus.cancelled ≡ false
          → can_activate grace_days now method false (some tenant_id) db' ≡ answer s)
run_state_transitions-can_activate grace_days now db (h, k) =
    let db' : Books = record db {
      subscriptions = map (after_run grace_days now) db.subscriptions;
      notices = db.notices ++ run_notices grace_days now db.subscriptions;
    } in
    let agree =
      All-map _ _ (after_run grace_days now) db.subscriptions (after_run-Agrees grace_days now) k in
    (
      db',
      run_state_transitions-after_run grace_days now db h,
      (
        Distinct-after_run grace_days now db.subscriptions h,
        All-map _ _ (after_run grace_days now) db.subscriptions
            (after_run-has_grace_end grace_days now) k,
      ),
      λ method tenant_id s m found c.
          can_activate-answer grace_days now method tenant_id db' s m found
            (find?-All (Agrees grace_days now) _ db'.subscriptions s agree found c),
    )

overdue-stopped :
    (grace_days now later : ℕ) (s : Subscription)
    → is_expired now s ≡ true
    → now + grace_days * day_ms < later
    → (after_run grace_days later (after_run grace_days now s)).status ≡ blocked
unfolding after_run overdue stopped
overdue-stopped grace_days now later s e h = ground (arith, e, h)

-- A subscription that is not paid ends blocked: where a daily run finds it active or on trial past its
-- period, and another run comes after the grace with nothing paid in between, then both runs return
-- and the row of that key is `blocked`.
pub run_state_transitions-blocked :
    (grace_days now later : ℕ) (db : Books) (s : Subscription)
    → Distinct db.subscriptions
    → In s db.subscriptions
    → is_expired now s ≡ true
    → now + grace_days * day_ms < later
    → (db' db'' : Books) × (run_state_transitions grace_days now db ≡ (ok tt, db'))
      × (run_state_transitions grace_days later db' ≡ (ok tt, db''))
      × ((s' : Subscription) × In s' db''.subscriptions × (s'.id ≡ s.id) × (s'.status ≡ blocked))
run_state_transitions-blocked grace_days now later db s h i e late =
    let db' : Books = record db {
      subscriptions = map (after_run grace_days now) db.subscriptions;
      notices = db.notices ++ run_notices grace_days now db.subscriptions;
    } in
    (
      db',
      record db' {
        subscriptions = map (after_run grace_days later) db'.subscriptions;
        notices = db'.notices ++ run_notices grace_days later db'.subscriptions;
      },
      run_state_transitions-after_run grace_days now db h,
      run_state_transitions-after_run grace_days later db'
          (Distinct-after_run grace_days now db.subscriptions h),
      (
        after_run grace_days later (after_run grace_days now s),
        map-In (after_run grace_days later) _ _
            (map-In (after_run grace_days now) s db.subscriptions i),
        after_run-id grace_days later (after_run grace_days now s) ∙ after_run-id grace_days now s,
        overdue-stopped grace_days now later s e late,
      ),
    )
