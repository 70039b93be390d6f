-- ===== src/Requests/Aggregate/Graph.antt =====
-- The life cycle as a graph of statuses, and the operations as moves on it:
-- packages/sdk/src/requests/domain/query-aggregate.ts and query-transitions.ts.
use anchr.Prelude.{ℕ, true, List, [], ◌∷◌, ◌≡◌, refl, arith, is_some, ◌+◌, ◌≤◌}
use anchr.Requests.Types.{
  Query, QueryStatus, pending, awaiting_offers, provider_selected, processing, verifying, approved,
  rejected, expired,
}
use anchr.Requests.Transitions.{is_valid_transition, is_terminal, is_open_status, is_expirable}
use anchr.Requests.Aggregate.{
  TransitionResult, ok, err, submit_result, expire_query, cancel_query, add_offer, select_provider,
  begin_work, record_result, complete_verification,
}
use anchr.Requests.Aggregate.Operations.{
  Operation, submits, expires, cancels, offers, selects, begins, records, completes, apply, after,
  run,
}
use anchr.Requests.Aggregate.Consistent.{Consistent, OnOk}

-- The result is an error.
abbrev pub Refused : TransitionResult → Type 0
Refused (ok q) = ⊥
Refused (err e) = Unit

-- A query that is approved, rejected or expired refuses every operation.
pub terminal-apply :
    (q : Query) (op : Operation) → is_terminal q.status ≡ true → Refused (apply q op)
unfolding apply is_terminal is_open_status is_expirable is_valid_transition submit_result
    expire_query cancel_query add_offer select_provider begin_work record_result
    complete_verification
terminal-apply q (submits r v m o a k t) h = ground arith
terminal-apply q (expires t) h = ground arith
terminal-apply q cancels h = ground arith
terminal-apply q (offers o) h = ground arith
terminal-apply q (selects p u) h = ground arith
terminal-apply q begins h = ground arith
terminal-apply q (records r p k t) h = ground arith
terminal-apply q (completes p v o a) h = ground arith

-- Cancelling moves an open status to `rejected`; an offer leaves the status alone; any other
-- operation follows the transition table of the query's life cycle.
abbrev pub Follows : Query → Operation → Query → Type 0
Follows q cancels q' = (is_open_status q.status ≡ true) × (q'.status ≡ rejected)
Follows q (offers o) q' = (q.status ≡ awaiting_offers) × (q'.status ≡ awaiting_offers)
Follows q _ q' = is_valid_transition q.status q'.status (is_some q.escrow) ≡ true

-- Every accepted operation on a consistent query is a move of the transition tables, an offer, or a
-- cancellation of an open query.
pub apply-Follows : (q : Query) (op : Operation) → Consistent q → OnOk (Follows q op) (apply q op)
unfolding apply is_open_status is_expirable is_valid_transition submit_result expire_query
    cancel_query add_offer select_provider begin_work record_result complete_verification
apply-Follows q (submits r v m o a k t) h = ground arith
apply-Follows q (expires t) h = ground arith
apply-Follows q cancels h = ground arith
apply-Follows q (offers o) h = ground arith
apply-Follows q (selects p u) h = ground arith
apply-Follows q begins h = ground arith
apply-Follows q (records r p k t) h = ground arith
apply-Follows q (completes p v o a) h = ground arith

Refused-after : (q : Query) (r : TransitionResult) → Refused r → after q r ≡ q
Refused-after q (ok q') h = absurd h
Refused-after q (err e) h = refl

-- A query that is approved, rejected or expired is never changed again.
pub terminal-run : (q : Query) (ops : List Operation) → is_terminal q.status ≡ true → run q ops ≡ q
unfolding run
terminal-run q [] h = refl
terminal-run q (op ∷ ops) h =
    rw (Refused-after q (apply q op) (terminal-apply q op h)) (terminal-run q ops h)

-- How far a query has come. Each accepted operation but an offer raises it.
abbrev pub rank : QueryStatus → ℕ
rank pending = 0
rank awaiting_offers = 0
rank provider_selected = 1
rank processing = 2
rank verifying = 3
rank approved = 4
rank rejected = 4
rank expired = 4

abbrev moved : Operation → TransitionResult → ℕ
moved (offers o) r = 0
moved op (ok q) = 1
moved op (err e) = 0

rank-apply :
    (q : Query) (op : Operation)
    → rank q.status + moved op (apply q op) ≤ rank (after q (apply q op)).status
unfolding apply is_open_status is_expirable is_valid_transition submit_result expire_query
    cancel_query add_offer select_provider begin_work record_result complete_verification
rank-apply q (submits r v m o a k t) = ground arith
rank-apply q (expires t) = ground arith
rank-apply q cancels = ground arith
rank-apply q (offers o) = ground arith
rank-apply q (selects p u) = ground arith
rank-apply q begins = ground arith
rank-apply q (records r p k t) = ground arith
rank-apply q (completes p v o a) = ground arith

-- The number of accepted operations, offers not counted.
unfoldable pub moves : Query → List Operation → ℕ
moves q [] = 0
moves q (op ∷ ops) = moved op (apply q op) + moves (after q (apply q op)) ops

rank-le : (s : QueryStatus) → rank s ≤ 4
rank-le s = ground arith

moves-rank :
    (q : Query) (ops : List Operation) → rank q.status + moves q ops ≤ rank (run q ops).status
unfolding moves run
moves-rank q [] = omega arith
moves-rank q (op ∷ ops) = omega (arith, rank-apply q op, moves-rank (after q (apply q op)) ops)

-- In any history at most four operations other than offers are accepted.
pub moves-le-four : (q : Query) (ops : List Operation) → moves q ops ≤ 4
moves-le-four q ops = omega (arith, moves-rank q ops, rank-le (run q ops).status)
