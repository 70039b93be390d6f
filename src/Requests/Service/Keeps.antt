-- ===== src/Requests/Service/Keeps.antt =====
-- Each operation of the service keeps the store good: every query is stored once under its own id,
-- and is consistent. packages/sdk/src/requests/application/query-lifecycle-methods.ts and
-- escrow-flow-methods.ts.
use anchr.Prelude.{
  ℕ, String, List, [], ◌∷◌, ◌++◌, Option, some, ◌≡◌, refl, sym, ◌∙◌, ◌+◌, arith, All, Bool-cases,
  inl, inr, Eq-string,
}
use anchr.Prelude.Dict.{Values, insert-Values, delete-Values, lookup-Values}
use anchr.Requests.Types.{
  Query, QueryResult, SubmissionMeta, BlossomKeyMap, pending, verifying, expired,
}
use anchr.Requests.Transitions.{status_eq}
use anchr.Requests.Store.{QueryStore, get, set, remove, values}
use anchr.Requests.Store.Laws.{Keyed, set-Keyed, remove-Keyed, id-get}
use anchr.Requests.Aggregate.{TransitionResult, ok, err}
use anchr.Requests.Aggregate.Operations.{Operation, apply}
use anchr.Requests.Aggregate.Consistent.{Consistent, OnOk, apply-Consistent}
use anchr.Requests.Aggregate.Payout.{SameTerms, apply-SameTerms}
use anchr.Requests.Finalize.{finalize}
use anchr.Requests.Lifecycle.{
  as_expired, is_due, submitted, expire_loop, purge_loop, do_expire_queries, do_purge_expired,
}
use anchr.Requests.Lifecycle.Refines.{committed}
use anchr.Requests.EscrowFlow.{commit}
use anchr.Oracles.Quorum.{QuorumVerificationResult}

pub record Good (store : QueryStore) : Type 0 where
  pub keyed : Keyed store
  pub consistent : Values Consistent store

pub set-Good :
    (store : QueryStore) (id : String) (q : Query)
    → id ≡ q.id
    → Consistent q
    → Good store
    → Good (set store id q)
unfolding set
set-Good store id q e c g = record {
  keyed = set-Keyed store id q e g.keyed;
  consistent = insert-Values Consistent id q store c g.consistent;
}

pub remove-Good : (store : QueryStore) (id : String) → Good store → Good (remove store id)
unfolding remove
remove-Good store id g = record {
  keyed = remove-Keyed store id g.keyed;
  consistent = delete-Values Consistent id store g.consistent;
}

pub get-Good :
    (store : QueryStore) (id : String) (q : Query)
    → Good store
    → get store id ≡ some q
    → Consistent q × (id ≡ q.id)
unfolding get
get-Good store id q g e =
    (lookup-Values Consistent id store g.consistent e, id-get store id q g.keyed e)

-- A result of an operation on a stored query, committed under its id.
pub commit-Good :
    (store : QueryStore) (id : String) (q : Query) (r : TransitionResult) (message : String)
    → id ≡ q.id
    → OnOk Consistent r
    → OnOk (SameTerms q) r
    → Good store
    → Good (commit store id r message).0
commit-Good store id q (ok q') message e c same g = set-Good store id q' (e ∙ sym same.same_id) c g
commit-Good store id q (err m) message e c same g = g

-- An operation of the aggregate on a stored query, committed under its id.
pub apply-Good :
    (store : QueryStore) (id : String) (q : Query) (op : Operation) (message : String)
    → get store id ≡ some q
    → Good store
    → Good (commit store id (apply q op) message).0
apply-Good store id q op message e g =
    let (c, own) = get-Good store id q g e in
    commit-Good store id q (apply q op) message own (apply-Consistent q op c) (apply-SameTerms q op)
      g

committed-commit :
    (store : QueryStore) (id : String) (r : TransitionResult) (message : String)
    → committed store id r ≡ (commit store id r message).0
committed-commit store id (ok q) message = refl
committed-commit store id (err e) message = refl

-- The same, where the outcome is another one.
pub apply-committed-Good :
    (store : QueryStore) (id : String) (q : Query) (op : Operation)
    → get store id ≡ some q
    → Good store
    → Good (committed store id (apply q op))
apply-committed-Good store id q op e g =
    rw (committed-commit store id (apply q op) "") (apply-Good store id q op "" e g)

pub as_expired-Consistent : (q : Query) → Consistent q → Consistent (as_expired q)
as_expired-Consistent q c = ground arith

expire_loop-Good :
    (now : ℕ) (qs : List Query) (store : QueryStore) (count : ℕ)
    → All Consistent qs
    → Good store
    → Good (expire_loop now qs store count).0
unfolding expire_loop
expire_loop-Good now [] store count cs g = g
expire_loop-Good now (q ∷ qs) store count cs g = elim (Bool-cases (is_due now q)) [
  | inl due ↦
      rw (due, expire_loop)
        (expire_loop-Good now qs (set store q.id (as_expired q)) (count + 1) cs.1
          (set-Good store q.id (as_expired q) refl (as_expired-Consistent q cs.0) g))
  | inr early ↦ rw (early, expire_loop) (expire_loop-Good now qs store count cs.1 g)
]

values-Consistent : (store : QueryStore) → Values Consistent store → All Consistent (values store)
unfolding values
values-Consistent [] h = tt
values-Consistent ((k, q) ∷ store) h = (h.0, values-Consistent store h.1)

pub do_expire_queries-Good :
    (store : QueryStore) (now : ℕ) → Good store → Good (do_expire_queries store now).0
unfolding do_expire_queries
do_expire_queries-Good store now g =
    expire_loop-Good now (values store) store 0 (values-Consistent store g.consistent) g

purge_loop-Good :
    (qs : List Query) (store : QueryStore) (out : List Query)
    → Good store
    → Good (purge_loop qs store out).0
unfolding purge_loop
purge_loop-Good [] store out g = g
purge_loop-Good (q ∷ qs) store out g = elim (Bool-cases (status_eq q.status expired)) [
  | inl gone ↦
      rw (gone, purge_loop)
        (purge_loop-Good qs (remove store q.id) (out ++ q ∷ []) (remove-Good store q.id g))
  | inr stays ↦ rw (stays, purge_loop) (purge_loop-Good qs store out g)
]

pub do_purge_expired-Good : (store : QueryStore) → Good store → Good (do_purge_expired store).0
unfolding do_purge_expired
do_purge_expired-Good store g = purge_loop-Good (values store) store [] g

-- The record that settles a pending query is consistent.
pub submitted-Consistent :
    (q : Query) (v : QuorumVerificationResult) (result : QueryResult) (meta : SubmissionMeta)
    (keys : Option BlossomKeyMap) (now : ℕ)
    → Consistent q
    → q.status ≡ pending
    → Consistent (submitted (finalize q v) result meta keys now)
unfolding submitted finalize
submitted-Consistent q v result meta keys now c waiting = ground arith

-- So is the record that settles a query under verification.
pub finalize-Consistent :
    (q : Query) (v : QuorumVerificationResult)
    → Consistent q
    → q.status ≡ verifying
    → Consistent (finalize q v).updated
unfolding finalize
finalize-Consistent q v c s = ground arith
