-- ===== src/Requests/Lifecycle.antt =====
-- The service's operations on queries without an escrow, and on the store as a whole:
-- packages/sdk/src/requests/application/query-lifecycle-methods.ts and query-service.ts.
-- An operation takes the store and returns the new one with its outcome. An operation that awaits
-- is two functions, before and after the wait; other operations may run in between.
pub mod Sweep
pub mod Refines
use anchr.Prelude.{
  ℕ, ◌+◌, String, Bool, true, false, not, ◌&&◌, List, [], ◌∷◌, ◌++◌, Option, none, some, ltb, leb,
  if◌then◌else◌, keep, head?, template, join, Eq-string,
}
use mathlib.Core.Option.{get_or}
use anchr.Protocol.Schema.{UrlParser}
use anchr.Requests.Types.{
  Query, QueryInput, QueryResult, SubmissionMeta, BlossomKeyMap, DomainServices, pending, rejected,
  expired, cancelled,
}
use anchr.Requests.Transitions.{status_text, status_eq, is_open_status, is_expirable}
use anchr.Requests.Aggregate.{TransitionResult, ok, err, status_message}
use anchr.Requests.Aggregate.Create.{create_query_aggregate}
use anchr.Requests.Store.{QueryStore, get, set, remove, values}
use anchr.Requests.Finalize.{
  ServiceDeps, CreateQueryOptions, Finalized, normalize, resolve_ttl_ms, verify_and_finalize,
}

pub record SubmitQueryOutcome : Type 0 where
  pub ok : Bool
  pub query : Option Query
  pub message : String

pub record CancelQueryOutcome : Type 0 where
  pub ok : Bool
  pub message : String

-- The service returns the query or throws the text of the error. The `onCreated` hook is given the
-- query and returns nothing, so it is left out.
pub data Created : Type 0 where
  returns : Query → Created
  throws : String → Created

unfoldable pub keep_created : QueryStore → TransitionResult → QueryStore × Created
keep_created store (ok query) = (set store query.id query, returns query)
keep_created store (err error) = (store, throws error)

unfoldable pub do_create_query :
    UrlParser → QueryStore → QueryInput → CreateQueryOptions → DomainServices → QueryStore × Created
unfolding keep_created
do_create_query parse store input options services = keep_created store (
    create_query_aggregate parse input
      (record {
        ttl_ms = resolve_ttl_ms options;
        customer_meta = options.customer_meta;
        payment_lock = options.payment_lock;
        oracle_ids = options.oracle_ids;
        escrow = options.escrow;
        nostr_event_id = options.nostr_event_id;
        quorum = options.quorum;
      })
      services)

-- What a submission is after its first part: it has an outcome, or waits for the verification of
-- the query as it was read, with the normalised result.
pub data Submission : Type 0 where
  settled : SubmitQueryOutcome → Submission
  waits : Query → QueryResult → Submission

-- A query that is marked as expired.
abbrev pub as_expired : Query → Query
as_expired query = record query { status = expired; payment_status = cancelled }

-- `doSubmitQueryResult` up to the `await`.
unfoldable pub start_submit :
    ServiceDeps → QueryStore → String → QueryResult → ℕ → QueryStore × Submission
start_submit deps store id result now = elim (get store id) [
  | none ↦ (store, settled (record { ok = false; query = none; message = "Query not found" }))
  | some query ↦
      if not (status_eq query.status pending)
      then (
        store,
        settled (record {
          ok = false;
          query = some query;
          message = status_message query.status ", not pending";
        }),
      )
      else if ltb query.expires_at now
      then (
        set store id (as_expired query),
        settled (record { ok = false; query = some query; message = "Query has expired" }),
      )
      else (store, waits query (normalize deps result))
]

-- The record that a verified submission stores.
unfoldable pub submitted :
    Finalized → QueryResult → SubmissionMeta → Option BlossomKeyMap → ℕ → Query
submitted final normalized meta blossom_keys now = record (final.updated) {
  submitted_at = some now;
  result = some normalized;
  submission_meta = some meta;
  blossom_keys = blossom_keys;
}

-- `!passed && attestations.length === 0`: no oracle gave a verdict.
unfoldable pub without_verdict : Finalized → Bool
without_verdict final =
    not final.passed && (elim (final.attestations) [ [] ↦ true | a ∷ as' ↦ false ])

-- `doSubmitQueryResult` after the `await`, on the store as it is then.
unfoldable pub finish_submit :
    QueryStore
    → String
    → Query
    → QueryResult
    → Finalized
    → SubmissionMeta
    → Option BlossomKeyMap
    → ℕ
    → QueryStore × SubmitQueryOutcome
finish_submit store id query normalized final meta blossom_keys now =
    if without_verdict final
    then (
      store,
      record {
        ok = false;
        query = some query;
        message = get_or (head? final.verification.failures) "No oracle available";
      },
    )
    else (
      set store id (submitted final normalized meta blossom_keys now),
      record {
        ok = final.passed;
        query = some (submitted final normalized meta blossom_keys now);
        message =
            if final.passed
            then "Verification passed. Result accepted."
            else template ("Verification failed: " ∷ join ", " final.verification.failures ∷ []);
      },
    )

-- `doSubmitQueryResult` where nothing else runs during the verification.
unfoldable pub do_submit_query_result :
    ServiceDeps
    → QueryStore
    → String
    → QueryResult
    → SubmissionMeta
    → Option String
    → Option BlossomKeyMap
    → ℕ
    → ℕ
    → QueryStore × SubmitQueryOutcome
unfolding start_submit finish_submit
do_submit_query_result deps store id result meta oracle_id blossom_keys now later =
    let (store', submission) = start_submit deps store id result now in
    elim submission [
      | settled outcome ↦ (store', outcome)
      | waits query normalized ↦
          finish_submit store' id query normalized
            (verify_and_finalize query normalized deps blossom_keys oracle_id) meta blossom_keys
            later
    ]

unfoldable pub do_cancel_query : QueryStore → String → QueryStore × CancelQueryOutcome
do_cancel_query store id = elim (get store id) [
  | none ↦ (store, record { ok = false; message = "Query not found" })
  | some query ↦
      if not (is_open_status query.status)
      then (
        store,
        record {
          ok = false;
          message = template ("Query is already " ∷ status_text query.status ∷ []);
        },
      )
      else (
        set store id (record query { status = rejected; payment_status = cancelled }),
        record { ok = true; message = "Query cancelled" },
      )
]

-- `isExpirable(query.status) && query.expires_at < now`.
unfoldable pub is_due : ℕ → Query → Bool
is_due now query = is_expirable query.status && ltb query.expires_at now

-- The loop of `doExpireQueries` over the values that are left, with its count.
unfoldable pub expire_loop : ℕ → List Query → QueryStore → ℕ → QueryStore × ℕ
expire_loop now [] store count = (store, count)
expire_loop now (query ∷ rest) store count =
    let due = is_due now query in
    expire_loop now rest (if due then set store query.id (as_expired query) else store)
      (if due then count + 1 else count)

unfoldable pub do_expire_queries : QueryStore → ℕ → QueryStore × ℕ
unfolding expire_loop values
do_expire_queries store now = expire_loop now (values store) store 0

-- The loop of `doPurgeExpired`.
unfoldable pub purge_loop : List Query → QueryStore → List Query → QueryStore × List Query
purge_loop [] store purged = (store, purged)
purge_loop (query ∷ rest) store purged =
    let gone = status_eq query.status expired in
    purge_loop rest (if gone then remove store query.id else store)
      (if gone then purged ++ query ∷ [] else purged)

unfoldable pub do_purge_expired : QueryStore → QueryStore × List Query
unfolding purge_loop values
do_purge_expired store = purge_loop (values store) store []

-- `listOpenQueries`.
unfoldable pub list_open_queries : QueryStore → ℕ → List Query
unfolding keep values
list_open_queries store now =
    keep (λ q. is_open_status q.status && ltb now q.expires_at) (values store)
