-- ===== src/Requests/Aggregate/Payout.antt =====
-- When the payment of a query is released, and what no operation can change:
-- packages/sdk/src/requests/domain/query-aggregate.ts.
use anchr.Prelude.{
  ◌≤◌, String, true, List, [], ◌∷◌, Option, none, some, ◌≡◌, ◌⊎◌, inl, inr, arith, is_some, ◌≢◌,
}
use anchr.Requests.Types.{
  Query, EscrowInfo, EscrowLock, Number, PaymentStatus, pending, verifying, approved, released,
}
use anchr.Requests.Transitions.{is_valid_transition, is_open_status, is_expirable}
use anchr.Requests.Aggregate.{
  TransitionResult, ok, err, submit_result, expire_query, cancel_query, add_offer, select_provider,
  begin_work, record_result, complete_verification,
}
use anchr.Requests.Aggregate.Operations.{
  Operation, submits, expires, cancels, offers, selects, begins, records, completes, apply, after,
  run,
}
use anchr.Requests.Aggregate.Consistent.{OnOk}

PaymentStatus-discrete : Discrete PaymentStatus
PaymentStatus-discrete = hlevel

-- What an operation that releases the payment has shown: a passing verdict on a pending query
-- before its deadline, or on a query under verification.
abbrev pub Earned : Query → Operation → Type 0
Earned q (submits r v m o a k now) =
    (v.passed ≡ true) × (q.status ≡ pending) × (now ≤ q.expires_at) × (q.escrow ≡ none)
Earned q (completes passed v o a) =
    (passed ≡ true) × (q.status ≡ verifying) × (is_some q.escrow ≡ true)
Earned q op = ⊥

-- The payment becomes `released` only by a passing verdict, and with the status `approved`.
pub released-Earned :
    (q : Query) (op : Operation)
    → q.payment_status ≢ released
    → OnOk (λ q'. q'.payment_status ≡ released → Earned q op × (q'.status ≡ approved)) (apply q op)
unfolding apply is_open_status is_expirable is_valid_transition submit_result expire_query
    cancel_query add_offer select_provider begin_work record_result complete_verification
released-Earned q (submits r v m o a k t) h = ground arith
released-Earned q (expires t) h = ground arith
released-Earned q cancels h = ground arith
released-Earned q (offers o) h = ground arith
released-Earned q (selects p u) h = ground arith
released-Earned q begins h = ground arith
released-Earned q (records r p k t) h = ground arith
released-Earned q (completes p v o a) h = ground arith

-- The parts of an escrow that are fixed when the query is made.
abbrev pub terms : Option EscrowInfo → Option (EscrowLock × List String × String × Number)
terms none = none
terms (some e) = some (e.lock, e.oracle_pubkeys, e.customer_pubkey, e.locktime)

-- The parts of a query that no operation changes.
pub record SameTerms (q q' : Query) : Type 0 where
  pub same_id : q'.id ≡ q.id
  pub same_deadline : q'.expires_at ≡ q.expires_at
  pub same_requirements : q'.verification_requirements ≡ q.verification_requirements
  pub same_payment_lock : q'.payment_lock ≡ q.payment_lock
  pub same_oracles : q'.oracle_ids ≡ q.oracle_ids
  pub same_quorum : q'.quorum ≡ q.quorum
  pub same_escrow : terms q'.escrow ≡ terms q.escrow

pub apply-SameTerms : (q : Query) (op : Operation) → OnOk (SameTerms q) (apply q op)
unfolding apply submit_result expire_query cancel_query add_offer select_provider begin_work
    record_result complete_verification
apply-SameTerms q (submits r v m o a k t) = ground arith
apply-SameTerms q (expires t) = ground arith
apply-SameTerms q cancels = ground arith
apply-SameTerms q (offers o) = ground arith
apply-SameTerms q (selects p u) = ground arith
apply-SameTerms q begins = ground arith
apply-SameTerms q (records r p k t) = ground arith
apply-SameTerms q (completes p v o a) = ground arith

after-SameTerms :
    (q : Query) (r : TransitionResult) → OnOk (SameTerms q) r → SameTerms q (after q r)
after-SameTerms q (ok q') h = h
after-SameTerms q (err e) h = ground arith

SameTerms-trans : (a b c : Query) → SameTerms a b → SameTerms b c → SameTerms a c
SameTerms-trans a b c h k = ground arith

-- No history changes the deadline, the requirements, the payment lock, the oracles, the quorum, or
-- the escrow's type, hash lock, keys and lock time.
run-SameTerms : (q : Query) (ops : List Operation) → SameTerms q (run q ops)
unfolding run
run-SameTerms q [] = ground arith
run-SameTerms q (op ∷ ops) =
    let q' = after q (apply q op) in
    SameTerms-trans q q' (run q' ops) (after-SameTerms q (apply q op) (apply-SameTerms q op))
      (run-SameTerms q' ops)

-- Some operation of the history was accepted and earned the payment.
abbrev pub EarnedIn : Query → List Operation → Type 0
EarnedIn q [] = ⊥
EarnedIn q (op ∷ ops) = Earned q op ⊎ EarnedIn (after q (apply q op)) ops

released-after :
    (q : Query) (op : Operation) (r : TransitionResult)
    → q.payment_status ≢ released
    → OnOk (λ q'. q'.payment_status ≡ released → Earned q op × (q'.status ≡ approved)) r
    → Earned q op ⊎ ((after q r).payment_status ≢ released)
released-after q op (err e) h k = inr h
released-after q op (ok q') h k = elim (PaymentStatus-discrete q'.payment_status released) [
  | yes paid ↦ inl (k paid).0
  | no unpaid ↦ inr unpaid
]

-- A history that ends with the payment released contains an operation that earned it.
pub run-EarnedIn :
    (q : Query) (ops : List Operation)
    → q.payment_status ≢ released
    → (run q ops).payment_status ≡ released
    → EarnedIn q ops
unfolding run
run-EarnedIn q [] h paid = absurd (h paid)
run-EarnedIn q (op ∷ ops) h paid =
    elim (released-after q op (apply q op) h (released-Earned q op h)) [
      | inl earned ↦ inl earned
      | inr unpaid ↦ inr (run-EarnedIn (after q (apply q op)) ops unpaid paid)
    ]
