-- ===== src/Requests/Aggregate/Consistent.antt =====
-- What holds of a query between two operations: packages/sdk/src/requests/domain/query-aggregate.ts.
use anchr.Prelude.{Bool, true, false, List, [], ◌∷◌, none, ◌≡◌, arith, is_some}
use anchr.Protocol.Schema.{UrlParser}
use anchr.Requests.Types.{
  Query, QueryInput, QueryStatus, PaymentStatus, DomainServices, pending, awaiting_offers,
  provider_selected, processing, verifying, approved, rejected, expired, locked, escrow_locked,
  escrow_swapped, released, cancelled,
}
use anchr.Requests.Transitions.{is_valid_transition, is_open_status, is_expirable}
use anchr.Requests.Aggregate.{
  TransitionResult, ok, err, submit_result, expire_query, cancel_query, add_offer, select_provider,
  begin_work, record_result, complete_verification,
}
use anchr.Requests.Aggregate.Create.{CreateQueryAggregateOptions, create_query_aggregate}
use anchr.Requests.Aggregate.Operations.{
  Operation, submits, expires, cancels, offers, selects, begins, records, completes, apply, after,
  run,
}

-- The payment states that go with a status.
abbrev pub payment_fits : QueryStatus → PaymentStatus → Bool
payment_fits pending locked = true
payment_fits awaiting_offers escrow_locked = true
payment_fits provider_selected escrow_locked = true
payment_fits provider_selected escrow_swapped = true
payment_fits processing escrow_locked = true
payment_fits processing escrow_swapped = true
payment_fits verifying escrow_locked = true
payment_fits verifying escrow_swapped = true
payment_fits approved released = true
payment_fits rejected cancelled = true
payment_fits expired cancelled = true
payment_fits _ _ = false

-- The statuses of the life cycle with an escrow, and of that without.
abbrev pub in_lane : Bool → QueryStatus → Bool
in_lane true pending = false
in_lane true _ = true
in_lane false awaiting_offers = false
in_lane false provider_selected = false
in_lane false processing = false
in_lane false verifying = false
in_lane false _ = true

-- Statuses that a query reaches only with a result.
abbrev pub needs_result : QueryStatus → Bool
needs_result verifying = true
needs_result approved = true
needs_result _ = false

pub record Consistent (q : Query) : Type 0 where
  pub lane : in_lane (is_some q.escrow) q.status ≡ true
  pub payment : payment_fits q.status q.payment_status ≡ true
  pub offered : is_some q.escrow ≡ true → is_some q.offers ≡ true
  pub evidenced : needs_result q.status ≡ true → is_some q.result ≡ true
  pub attested : is_some q.quorum ≡ false → q.attestations ≡ none

-- A predicate on the query of a result, if it has one.
abbrev pub OnOk : (Query → Type 0) → TransitionResult → Type 0
OnOk P (ok q) = P q
OnOk P (err e) = Unit

-- A created query is consistent.
pub create-Consistent :
    (parse : UrlParser) (input : QueryInput) (options : CreateQueryAggregateOptions)
    (services : DomainServices)
    → OnOk Consistent (create_query_aggregate parse input options services)
unfolding create_query_aggregate
create-Consistent parse input options services = ground arith

-- An accepted operation keeps a query consistent.
pub apply-Consistent : (q : Query) (op : Operation) → Consistent q → OnOk Consistent (apply q op)
unfolding apply is_open_status is_expirable is_valid_transition submit_result expire_query
    cancel_query add_offer select_provider begin_work record_result complete_verification
apply-Consistent q (submits r v m o a k t) h = ground arith
apply-Consistent q (expires t) h = ground arith
apply-Consistent q cancels h = ground arith
apply-Consistent q (offers o) h = ground arith
apply-Consistent q (selects p u) h = ground arith
apply-Consistent q begins h = ground arith
apply-Consistent q (records r p k t) h = ground arith
apply-Consistent q (completes p v o a) h = ground arith

after-Consistent :
    (q : Query) (r : TransitionResult) → Consistent q → OnOk Consistent r → Consistent (after q r)
after-Consistent q (ok q') h k = k
after-Consistent q (err e) h k = h

-- Whatever operations are tried on a consistent query, in any order, it stays consistent.
pub run-Consistent : (q : Query) (ops : List Operation) → Consistent q → Consistent (run q ops)
unfolding run
run-Consistent q [] h = h
run-Consistent q (op ∷ ops) h =
    run-Consistent (after q (apply q op)) ops
      (after-Consistent q (apply q op) h (apply-Consistent q op h))
