-- ===== src/Requests/Lifecycle/Sweep.antt =====
-- What the sweeps over the store do to each query: `doExpireQueries` and `doPurgeExpired` of
-- packages/sdk/src/requests/application/query-lifecycle-methods.ts.
use anchr.Prelude.{
  ℕ, ◌+◌, ◌≤◌, ◌<◌, ◌⊎◌, inl, inr, ◌≢◌, true, ltb, Bool-cases, String, Bool, false, Option, none,
  some, List, [], ◌∷◌, ◌++◌, Eq-string, ◌≡◌, refl, sym, ◌∙◌, ap, arith, if◌then◌else◌, includes,
  Distinct, keep,
}
use mathlib.Core.List.{append-nil, append_assoc}
use anchr.Requests.Types.{
  Query, QueryStatus, pending, awaiting_offers, provider_selected, processing, verifying, approved,
  rejected, expired, cancelled,
}
use anchr.Requests.Transitions.{status_eq, is_expirable, expirable_statuses}
use anchr.Requests.Store.{QueryStore, get, set, remove, values}
use anchr.Requests.Store.Laws.{get-set, get-remove, find_id, ids, Keyed, values_by_id}
use anchr.Requests.Lifecycle.{
  is_due, as_expired, expire_loop, do_expire_queries, purge_loop, do_purge_expired,
}

not_found : (id : String) (qs : List Query) → includes (ids qs) id ≡ false → find_id id qs ≡ none
unfolding includes
not_found id [] h = refl
not_found id (q ∷ qs) h = ground (arith, not_found id qs)

-- What the loop leaves under an id: the query of the list with that id decides.
abbrev pub swept : ℕ → Option Query → Option Query → Option Query
swept now none old = old
swept now (some q) old = if is_due now q then some (as_expired q) else old

get-expire_loop :
    (now : ℕ) (qs : List Query) (store : QueryStore) (count : ℕ) (id : String)
    → Distinct (ids qs)
    → get (expire_loop now qs store count).0 id ≡ swept now (find_id id qs) (get store id)
unfolding expire_loop
get-expire_loop now [] store count id h = refl
get-expire_loop now (q ∷ qs) store count id h =
    let due = is_due now q in
    let store' = if due then set store q.id (as_expired q) else store in
    ground (
      arith,
      get-expire_loop now qs store' (if due then count + 1 else count) id h.1,
      get-set store q.id (as_expired q) id,
      not_found q.id qs h.0,
      (Eq-string.beq_iff q.id id).0,
    )

-- The status of a query that is settled.
abbrev pub Settled : QueryStatus → Type 0
Settled s = (s ≡ approved) ⊎ ((s ≡ rejected) ⊎ (s ≡ expired))

status-cases :
    (s : QueryStatus)
    → ((is_expirable s ≡ false) × Settled s)
      ⊎ ((is_expirable s ≡ true) × (s ≢ approved) × (s ≢ rejected) × (s ≢ expired))
unfolding is_expirable includes expirable_statuses
status-cases pending = inr (refl, ground arith, ground arith, ground arith)
status-cases awaiting_offers = inr (refl, ground arith, ground arith, ground arith)
status-cases provider_selected = inr (refl, ground arith, ground arith, ground arith)
status-cases processing = inr (refl, ground arith, ground arith, ground arith)
status-cases verifying = inr (refl, ground arith, ground arith, ground arith)
status-cases approved = inl (refl, inl refl)
status-cases rejected = inl (refl, inr (inl refl))
status-cases expired = inl (refl, inr (inr refl))

-- A query that the sweep leaves: it is settled, or its deadline is not over.
abbrev pub Kept : ℕ → Query → Type 0
Kept now q = Settled q.status ⊎ (now ≤ q.expires_at)

-- A query that the sweep expires: it is not settled, and its deadline is over.
abbrev pub Overdue : ℕ → Query → Type 0
Overdue now q =
    (q.status ≢ approved) × (q.status ≢ rejected) × (q.status ≢ expired) × (q.expires_at < now)

due-cases :
    (now : ℕ) (q : Query)
    → ((is_due now q ≡ false) × Kept now q) ⊎ ((is_due now q ≡ true) × Overdue now q)
unfolding is_due
due-cases now q = elim (status-cases q.status) [
  | inl (final, settled) ↦ inl (ground (arith, final), inl settled)
  | inr (live, a, r, x) ↦ elim (Bool-cases (ltb q.expires_at now)) [
    | inl over ↦ inr (ground (arith, live, over), (a, r, x, ground (arith, over)))
    | inr early ↦ inl (ground (arith, live, early), inr (ground (arith, early)))
  ]
]

-- What the sweep makes of what stood under an id.
abbrev pub Swept : ℕ → Option Query → Option Query → Type 0
Swept now before after =
    ((before ≡ none) × (after ≡ none))
    ⊎ (((q : Query) × (before ≡ some q) × (after ≡ some q) × Kept now q)
        ⊎ ((q : Query) × (before ≡ some q)
            × (after ≡ some (record q { status = expired; payment_status = cancelled }))
            × Overdue now q))

swept-Swept : (now : ℕ) (o : Option Query) → Swept now o (swept now o o)
swept-Swept now none = inl (refl, refl)
swept-Swept now (some q) = elim (due-cases now q) [
  | inl (left, kept) ↦ inr (inl (q, refl, rw left refl, kept))
  | inr (due, over) ↦ inr (inr (q, refl, rw due refl, over))
]

-- In a store that has each query once and under its own id, the expiry sweep expires a query, with its
-- payment cancelled, if it is not approved, rejected or expired already and its deadline is over; every
-- other query is as it was, and none is added.
pub get-do_expire_queries :
    (store : QueryStore) (now : ℕ) (id : String)
    → Keyed store
    → Swept now (get store id) (get (do_expire_queries store now).0 id)
unfolding do_expire_queries
get-do_expire_queries store now id h =
    let (distinct, found) = values_by_id store h in
    let same : get (expire_loop now (values store) store 0).0 id
        ≡ swept now (get store id) (get store id) =
      get-expire_loop now (values store) store 0 id distinct
      ∙ ap (λ o. swept now o (get store id)) (found id) in
    rw same (swept-Swept now (get store id))

abbrev pub is_expired : Query → Bool
is_expired q = status_eq q.status expired

abbrev pub purged : Option Query → Option Query → Option Query
purged none old = old
purged (some q) old = if is_expired q then none else old

get-purge_loop :
    (qs : List Query) (store : QueryStore) (out : List Query) (id : String)
    → Distinct (ids qs)
    → get (purge_loop qs store out).0 id ≡ purged (find_id id qs) (get store id)
unfolding purge_loop
get-purge_loop [] store out id h = refl
get-purge_loop (q ∷ qs) store out id h =
    let gone = is_expired q in
    let store' = if gone then remove store q.id else store in
    ground (
      arith,
      get-purge_loop qs store' (if gone then out ++ q ∷ [] else out) id h.1,
      get-remove store q.id id,
      not_found q.id qs h.0,
      (Eq-string.beq_iff q.id id).0,
    )

list-purge_loop :
    (qs : List Query) (store : QueryStore) (out : List Query)
    → (purge_loop qs store out).1 ≡ out ++ keep is_expired qs
unfolding purge_loop keep
list-purge_loop [] store out = sym (append-nil out)
list-purge_loop (q ∷ qs) store out =
    let gone = is_expired q in
    let store' = if gone then remove store q.id else store in
    ground (
      arith,
      list-purge_loop qs store' (if gone then out ++ q ∷ [] else out),
      append_assoc out (q ∷ []) (keep is_expired qs),
    )

-- Purging removes exactly the expired queries, and returns them in the order of the store.
do_purge_expired_lem :
    (store : QueryStore)
    → Keyed store
    → ((id : String) → get (do_purge_expired store).0 id ≡ purged (get store id) (get store id))
      × ((do_purge_expired store).1 ≡ keep is_expired (values store))
unfolding do_purge_expired
do_purge_expired_lem store h =
    let (distinct, found) = values_by_id store h in
    (
      λ id.
          get-purge_loop (values store) store [] id distinct
          ∙ ap (λ o. purged o (get store id)) (found id),
      list-purge_loop (values store) store [],
    )
