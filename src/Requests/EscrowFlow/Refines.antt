-- ===== src/Requests/EscrowFlow/Refines.antt =====
-- The escrow flow implements the aggregate: packages/sdk/src/requests/application/escrow-flow-methods.ts
-- and verification-orchestration.ts against packages/sdk/src/requests/domain/query-aggregate.ts.
use anchr.Prelude.{ℕ, String, true, Option, none, some, ◌≡◌, arith, is_some, Eq-string, truthy}
use anchr.Requests.Types.{Query, QueryResult, EscrowInfo, BlossomKeyMap, verifying, processing}
use anchr.Requests.Transitions.{is_valid_transition}
use anchr.Requests.Aggregate.{ok, record_result, complete_verification}
use anchr.Oracles.Quorum.{QuorumVerificationResult}
use anchr.Requests.Store.{QueryStore, get, set}
use anchr.Requests.Finalize.{ServiceDeps, finalize}
use anchr.Requests.EscrowFlow.Submit.{waits, start_escrow_submit}

-- Settling a query under verification is the aggregate's `completeVerification` on that verdict.
pub finalize_refines :
    (q : Query) (v : QuorumVerificationResult)
    → is_some q.escrow ≡ true
    → q.status ≡ verifying
    → complete_verification q v.passed (some v.verification) none (some v.attestations)
      ≡ ok (finalize q v).updated
unfolding complete_verification finalize is_valid_transition
finalize_refines q v has s = ground arith

pub record_result-accepts :
    (q q' : Query) (r : QueryResult) (provider : String) (keys : Option BlossomKeyMap) (now : ℕ)
    → record_result q r provider keys now ≡ ok q'
    → (q.status ≡ processing)
      × (q'.status ≡ verifying)
      × (is_some q.escrow ≡ true)
      × ((e : EscrowInfo) (p : String)
          → q.escrow ≡ some e
          → e.provider_pubkey ≡ some p
          → truthy p ≡ true
          → p ≡ provider)
unfolding record_result is_valid_transition
record_result-accepts q q' r provider keys now h = (
  ground arith,
  ground arith,
  ground arith,
  λ e p has selected nonempty. ground (arith, (Eq-string.beq_iff p provider).0),
)

start_escrow_submit-records :
    (deps : ServiceDeps) (store : QueryStore) (id : String) (result : QueryResult)
    (provider : String) (keys : Option BlossomKeyMap) (now : ℕ) (q q' : Query) (r : QueryResult)
    → (start_escrow_submit deps store id result provider keys now).1 ≡ waits q q' r
    → (get store id ≡ some q)
      × (record_result q r provider keys now ≡ ok q')
      × ((start_escrow_submit deps store id result provider keys now).0 ≡ set store id q')
unfolding start_escrow_submit
start_escrow_submit-records deps store id result provider keys now q q' r h = ground arith

-- A submission goes on to the verification only on a query that is being processed, and only for the
-- selected provider if one was recorded. The query is then stored as `recordResult` returns it.
start_escrow_submit_waits :
    (deps : ServiceDeps) (store : QueryStore) (id : String) (result : QueryResult)
    (provider : String) (keys : Option BlossomKeyMap) (now : ℕ) (q q' : Query) (r : QueryResult)
    → (start_escrow_submit deps store id result provider keys now).1 ≡ waits q q' r
    → (get store id ≡ some q)
      × (q.status ≡ processing)
      × (q'.status ≡ verifying)
      × ((start_escrow_submit deps store id result provider keys now).0 ≡ set store id q')
      × ((e : EscrowInfo) (p : String)
          → q.escrow ≡ some e
          → e.provider_pubkey ≡ some p
          → truthy p ≡ true
          → p ≡ provider)
start_escrow_submit_waits deps store id result provider keys now q q' r h =
    let (read, recorded, stored) =
      start_escrow_submit-records deps store id result provider keys now q q' r h in
    let (was, is, has, selected) = record_result-accepts q q' r provider keys now recorded in
    (read, was, is, stored, selected)
