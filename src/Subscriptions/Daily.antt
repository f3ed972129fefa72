-- ===== src/Subscriptions/Daily.antt =====
-- The daily run over the subscriptions, `runStateTransitions` of
-- src/modules/subscriptions/subscriptions.service.ts, against a table of what becomes of one row.
use back_costa_turnos.Base.{
  append_assoc, append_nil, ℕ, ◌≡◌, refl, sym, ap, ◌∙◌, inl, inr, Bool, false, none, some, List, [],
  ◌∷◌, ◌++◌, map, arith, if◌then◌else◌, ◌==◌, nat_coded, Bool-cases, filter,
}
use back_costa_turnos.Base.Http.{ok}
use back_costa_turnos.Enums.{SubscriptionStatus, subscription_status_coded}
use back_costa_turnos.Store.Table.{save, save_each}
use back_costa_turnos.Store.SaveEach.{Distinct, map_where, save_each-map_where, Distinct-map_where}
use back_costa_turnos.Store.Call.{pure, ◌>>=◌, ◌>>◌, for_each, for_each-of_ok, fold_through}
use back_costa_turnos.Subscriptions.{
  Subscription, StatusNotice, Books, subscription_row, save_subscription, notify_status, notice_of,
  is_expired, is_to_block, is_upcoming, overdue, stopped, renewal_warning, run_state_transitions,
  expire_overdue, stop_unpaid, warn_upcoming,
}

-- What a run makes of one subscription.
unfoldable pub after_run : ℕ → ℕ → Subscription → Subscription
after_run grace_days now s =
    if is_expired now s
    then overdue grace_days now s
    else if is_to_block now s
    then stopped s
    else s

abbrev told : (Subscription → Subscription) → List Subscription → List StatusNotice
told f xs = map (λ s. notice_of (f s) none) xs

abbrev tell : (Subscription → Subscription) → Subscription → Books → Books
tell f sub db = record db {
  subscriptions = save (f sub) db.subscriptions;
  notices = db.notices ++ (notice_of (f sub) none ∷ []);
}

fold-tell :
    (f : Subscription → Subscription) (xs : List Subscription) (db : Books)
    → fold_through (tell f) xs db ≡ record db {
      subscriptions = save_each f xs db.subscriptions;
      notices = db.notices ++ told f xs;
    }
unfolding save_each
fold-tell f [] db = ap (λ l. record db { notices = l }) (sym (append_nil db.notices))
fold-tell f (x ∷ xs) db =
    fold-tell f xs (tell f x db)
    ∙ ap (λ l. record db { subscriptions = save_each f (x ∷ xs) db.subscriptions; notices = l })
        (append_assoc db.notices (notice_of (f x) none ∷ []) (told f xs))

loop_lem :
    (p : Subscription → Bool) (f : Subscription → Subscription) (db : Books)
    → ((s : Subscription) → (f s).id ≡ s.id)
    → Distinct db.subscriptions
    → for_each
        (λ sub. do save_subscription (f sub); notify_status (f sub) none)
        (filter p db.subscriptions)
        db
      ≡ (
        ok tt,
        record db {
          subscriptions = map_where p f db.subscriptions;
          notices = db.notices ++ told f (filter p db.subscriptions);
        },
      )
loop_lem p f db same h =
    for_each-of_ok _ (tell f) (λ x d. refl) (filter p db.subscriptions) db
    ∙ ap (λ d. (ok tt, d)) (fold-tell f (filter p db.subscriptions) db)
    ∙ ap
        (λ l. (
          ok tt,
          record db {
            subscriptions = l;
            notices = db.notices ++ told f (filter p db.subscriptions);
          },
        ))
        (save_each-map_where p f db.subscriptions same h)

abbrev warn : ℕ → Subscription → Books → Books
warn now s db =
    if is_upcoming now s
    then record db { notices = db.notices ++ (notice_of s (some renewal_warning) ∷ []) }
    else db

-- The notices about the subscriptions that are about to end.
abbrev pub warned : ℕ → List Subscription → List StatusNotice
warned now xs =
    map (λ s. notice_of s (some renewal_warning))
      (filter (is_upcoming now) (filter (λ s. s.status == SubscriptionStatus.active) xs))

fold-warn :
    (now : ℕ) (xs : List Subscription) (db : Books)
    → fold_through (warn now) xs db ≡ record db {
      notices =
          db.notices ++ map (λ s. notice_of s (some renewal_warning)) (filter (is_upcoming now) xs);
    }
fold-warn now [] db = ap (λ l. record db { notices = l }) (sym (append_nil db.notices))
fold-warn now (x ∷ xs) db = elim (Bool-cases (is_upcoming now x)) [
  | inl e ↦ rw e (
      fold-warn now xs
        (record db { notices = db.notices ++ (notice_of x (some renewal_warning) ∷ []) })
      ∙ ap (λ l. record db { notices = l })
          (append_assoc db.notices (notice_of x (some renewal_warning) ∷ [])
            (map (λ s. notice_of s (some renewal_warning)) (filter (is_upcoming now) xs))))
  | inr e ↦ rw e (fold-warn now xs db)
]

warn_lem :
    (now : ℕ) (x : Subscription) (db : Books)
    → (if is_upcoming now x then notify_status x (some renewal_warning) else pure tt) db
      ≡ (ok tt, warn now x db)
warn_lem now x db = elim (Bool-cases (is_upcoming now x)) [ inl e ↦ rw e refl | inr e ↦ rw e refl ]

overdue-not_to_block :
    (grace_days now : ℕ) (s : Subscription) → is_to_block now (overdue grace_days now s) ≡ false
unfolding overdue
overdue-not_to_block grace_days now s = ground arith

two_loops :
    (grace_days now : ℕ) (xs : List Subscription)
    → map_where (is_to_block now) stopped (map_where (is_expired now) (overdue grace_days now) xs)
      ≡ map (after_run grace_days now) xs
unfolding after_run
two_loops grace_days now [] = refl
two_loops grace_days now (x ∷ xs) = elim (Bool-cases (is_expired now x)) [
  | inl e ↦ rw (e, overdue-not_to_block grace_days now x, two_loops grace_days now xs) refl
  | inr e ↦ rw (e, two_loops grace_days now xs) refl
]

overdue-id : (grace_days now : ℕ) (s : Subscription) → (overdue grace_days now s).id ≡ s.id
unfolding overdue
overdue-id grace_days now s = refl

stopped-id : (s : Subscription) → (stopped s).id ≡ s.id
unfolding stopped
stopped-id s = refl

-- The notices of a run: who became overdue, who was stopped, and whose period ends soon.
abbrev pub run_notices : ℕ → ℕ → List Subscription → List StatusNotice
run_notices grace_days now xs =
    told (overdue grace_days now) (filter (is_expired now) xs)
    ++ (told stopped
          (filter (is_to_block now) (map_where (is_expired now) (overdue grace_days now) xs))
        ++ warned now (map (after_run grace_days now) xs))

expire_overdue_lem :
    (grace_days now : ℕ) (db : Books)
    → Distinct db.subscriptions
    → expire_overdue grace_days now db ≡ (
      ok tt,
      record db {
        subscriptions = map_where (is_expired now) (overdue grace_days now) db.subscriptions;
        notices =
            db.notices ++ told (overdue grace_days now) (filter (is_expired now) db.subscriptions);
      },
    )
unfolding expire_overdue
expire_overdue_lem grace_days now db h =
    loop_lem (is_expired now) (overdue grace_days now) db (overdue-id grace_days now) h

stop_unpaid_lem :
    (now : ℕ) (db : Books)
    → Distinct db.subscriptions
    → stop_unpaid now db ≡ (
      ok tt,
      record db {
        subscriptions = map_where (is_to_block now) stopped db.subscriptions;
        notices = db.notices ++ told stopped (filter (is_to_block now) db.subscriptions);
      },
    )
unfolding stop_unpaid
stop_unpaid_lem now db h = loop_lem (is_to_block now) stopped db stopped-id h

warn_upcoming_lem :
    (now : ℕ) (db : Books)
    → warn_upcoming now db
      ≡ (ok tt, record db { notices = db.notices ++ warned now db.subscriptions })
unfolding warn_upcoming
warn_upcoming_lem now db =
    let active = filter (λ s. s.status == SubscriptionStatus.active) db.subscriptions in
    for_each-of_ok _ (warn now) (warn_lem now) active db
    ∙ ap (λ d. (ok tt, d)) (fold-warn now active db)

-- The daily run always returns. It changes the table of the subscriptions row by row as `after_run`
-- says, where no two rows share a key, and tells who became overdue or was stopped and whose period
-- ends soon; payments, professionals and accounts stay as they are.
pub run_state_transitions-after_run :
    (grace_days now : ℕ) (db : Books)
    → Distinct db.subscriptions
    → run_state_transitions grace_days now db ≡ (
      ok tt,
      record db {
        subscriptions = map (after_run grace_days now) db.subscriptions;
        notices = db.notices ++ run_notices grace_days now db.subscriptions;
      },
    )
unfolding run_state_transitions
run_state_transitions-after_run grace_days now db h =
    let xs = map_where (is_expired now) (overdue grace_days now) db.subscriptions in
    let told_overdue = told (overdue grace_days now) (filter (is_expired now) db.subscriptions) in
    let told_stopped = told stopped (filter (is_to_block now) xs) in
    let keep =
      Distinct-map_where (is_expired now) (overdue grace_days now) db.subscriptions
        (overdue-id grace_days now) h in
    simp (
      expire_overdue_lem grace_days now db h,
      stop_unpaid_lem now (record db { subscriptions = xs; notices = db.notices ++ told_overdue })
          keep,
      warn_upcoming_lem,
      two_loops,
      append_assoc,
      ◌>>=◌,
    )
