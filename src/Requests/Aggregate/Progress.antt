-- ===== src/Requests/Aggregate/Progress.antt =====
-- The paths that lead to a settled query: packages/sdk/src/requests/domain/query-aggregate.ts.
use anchr.Prelude.{
  ℕ, String, Bool, [], ◌∷◌, Option, none, some, ◌≡◌, arith, if◌then◌else◌, Eq-string,
}
use anchr.Prelude.Dict.{==_refl}
use anchr.Requests.Types.{
  Query, QueryResult, EscrowInfo, BlossomKeyMap, awaiting_offers, approved, rejected, released,
  cancelled,
}
use anchr.Requests.Transitions.{is_valid_transition}
use anchr.Requests.Aggregate.{
  no_updates, select_provider, begin_work, record_result, complete_verification,
}
use anchr.Requests.Aggregate.Operations.{selects, begins, records, completes, apply, run}

-- Selecting a provider, starting, recording that provider's result and completing the verification
-- takes a query that awaits offers to its verdict, whatever its deadline: a passing verdict
-- approves it and releases the payment, a failing one rejects it and cancels the payment.
pub escrow_path :
    (q : Query) (escrow : EscrowInfo) (provider : String) (result : QueryResult)
    (keys : Option BlossomKeyMap) (now : ℕ) (passed : Bool)
    → q.escrow ≡ some escrow
    → q.status ≡ awaiting_offers
    → let q' = run q (
        selects provider no_updates
        ∷ begins
        ∷ records result provider keys now
        ∷ completes passed none none none
        ∷ []) in
      (q'.status ≡ (if passed then approved else rejected))
      × (q'.payment_status ≡ (if passed then released else cancelled))
      × (q'.result ≡ some result)
      × (q'.submitted_at ≡ some now)
unfolding run apply is_valid_transition select_provider begin_work record_result
    complete_verification
escrow_path q escrow provider result keys now passed has waits = ground (arith, ==_refl provider)
