-- ===== src/Requests/Lifecycle/Refines.antt =====
-- The service's lifecycle operations implement those of the aggregate:
-- packages/sdk/src/requests/application/query-lifecycle-methods.ts against
-- packages/sdk/src/requests/domain/query-aggregate.ts.
use anchr.Prelude.{
  ℕ, ◌≤◌, String, true, false, Option, none, some, List, ◌∷◌, Eq-string, ◌≡◌, arith,
}
use anchr.Requests.Types.{
  Query, QueryResult, SubmissionMeta, BlossomKeyMap, OracleAttestationRecord, pending,
}
use anchr.Requests.Aggregate.{TransitionResult, ok, err, cancel_query, submit_result}
use anchr.Oracles.Quorum.{OracleResolver, MultiOracleResolver, verify_with_quorum}
use anchr.Requests.Store.{QueryStore, get, set}
use anchr.Requests.Finalize.{ServiceDeps, normalize, verify_and_finalize}
use anchr.Requests.Lifecycle.{
  CancelQueryOutcome, submitted, without_verdict, do_submit_query_result, do_cancel_query,
}

-- What an operation of the store does with the aggregate's answer on the stored query.
abbrev pub committed : QueryStore → String → TransitionResult → QueryStore
committed store id (ok q) = set store id q
committed store id (err e) = store

abbrev pub cancel_outcome : TransitionResult → CancelQueryOutcome
cancel_outcome (ok q) = record { ok = true; message = "Query cancelled" }
cancel_outcome (err e) = record { ok = false; message = e }

-- Cancelling a stored query stores what the aggregate's `cancelQuery` returns, and passes its error on.
pub cancel_refines :
    (store : QueryStore) (id : String) (q : Query)
    → get store id ≡ some q
    → do_cancel_query store id
      ≡ (committed store id (cancel_query q), cancel_outcome (cancel_query q))
unfolding do_cancel_query cancel_query
cancel_refines store id q e = ground arith

-- The verdict and its detail agree.
verdict_agrees :
    (query : Query) (result : QueryResult) (single : OracleResolver)
    (multiple : Option MultiOracleResolver) (keys : Option BlossomKeyMap) (asked : Option String)
    → let v = verify_with_quorum query result single multiple keys asked in
      v.verification.passed ≡ v.passed
unfolding verify_with_quorum
verdict_agrees query result single multiple keys asked = ground arith

-- A submission for a pending query without escrow, before the deadline, that gets a verdict stores what
-- the aggregate's `submitResult` returns for that verdict, if the wait for it ends before the deadline
-- too.
pub submit_refines :
    (deps : ServiceDeps) (store : QueryStore) (id : String) (q : Query) (result : QueryResult)
    (meta : SubmissionMeta) (asked : Option String) (keys : Option BlossomKeyMap) (now later : ℕ)
    (a : OracleAttestationRecord) (rest : List OracleAttestationRecord)
    → get store id ≡ some q
    → q.escrow ≡ none
    → q.status ≡ pending
    → now ≤ q.expires_at
    → later ≤ q.expires_at
    → let final = verify_and_finalize q (normalize deps result) deps keys asked in
      final.attestations ≡ a ∷ rest
      → (do_submit_query_result deps store id result meta asked keys now later).0
        ≡ committed store id (
            submit_result q
              (normalize deps result)
              final.verification
              meta
              asked
              (some final.attestations)
              keys
              later)
unfolding do_submit_query_result submit_result verify_and_finalize submitted without_verdict
submit_refines deps store id q result meta asked keys now later a rest found free waiting t t'
      verdicts =
    ground (
      arith,
      verdict_agrees q (normalize deps result) deps.oracle_resolver deps.multi_oracle_resolver keys
          asked,
    )
