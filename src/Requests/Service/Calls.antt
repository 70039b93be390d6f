-- ===== src/Requests/Service/Calls.antt =====
-- What each call of the service, and each call that goes on, does to a good store:
-- packages/sdk/src/requests/application/query-service.ts.
use anchr.Prelude.{
  ℕ, String, Bool, true, Option, none, some, if◌then◌else◌, ◌≡◌, refl, sym, ◌∙◌, All, Option-cases,
  Bool-cases, inl, inr, ltb, Eq-string, is_some,
}
use anchr.Requests.Types.{
  Query, QueryResult, SubmissionMeta, BlossomKeyMap, OfferInfo, pending, verifying,
}
use anchr.Requests.Transitions.{status_eq, status_eq_iff}
use anchr.Requests.Store.{QueryStore, get}
use anchr.Requests.Aggregate.{TransitionResult, ok, err, record_result}
use anchr.Requests.Aggregate.Operations.{Operation, apply}
use mathlib.Core.Path.{subst}
use anchr.Requests.Aggregate.Consistent.{Consistent, OnOk, apply-Consistent}
use anchr.Requests.Aggregate.Payout.{SameTerms, apply-SameTerms}
use anchr.Oracles.Quorum.{QuorumVerificationResult}
use anchr.Requests.Finalize.{ServiceDeps, finalize, normalize}
use anchr.Requests.Lifecycle.{
  keep_created, start_submit, finish_submit, submitted, without_verdict, do_cancel_query,
  as_expired,
}
use anchr.Requests.Lifecycle.Refines.{cancel_refines}
use anchr.Requests.EscrowFlow.{
  Selection, refuses, commits, do_record_offer, decide_selection, selection_waits, commit_selection,
  do_begin_work, do_record_result, do_complete_verification, selection_updates, amount_check,
  escrow_reference, expected_sats,
}
use anchr.Requests.EscrowFlow.Submit.{start_escrow_submit, store_verdict}
use anchr.Requests.EscrowFlow.Settlement.{decide_selection-selects}
use anchr.Requests.EscrowFlow.Refines.{record_result-accepts}
use anchr.Requests.Service.{
  Task, submission, selection, escrow_submission, submit_task, escrow_task, start_selection,
}
use anchr.Requests.Service.Keeps.{
  Good, set-Good, get-Good, apply-Good, apply-committed-Good, as_expired-Consistent,
  submitted-Consistent, finalize-Consistent,
}

-- What a waiting call holds is consistent.
abbrev pub TaskGood : Task → Type 0
TaskGood (submission id q r meta asked keys) = Consistent q × (q.status ≡ pending) × (id ≡ q.id)
TaskGood (selection id (refuses message)) = Unit
TaskGood (selection id (commits q)) = Consistent q × (id ≡ q.id)
TaskGood (escrow_submission id q v r asked keys) =
    Consistent v × (v.status ≡ verifying) × (id ≡ v.id)

pub keep_created-Good :
    (store : QueryStore) (r : TransitionResult)
    → OnOk Consistent r
    → Good store
    → Good (keep_created store r).0
unfolding keep_created
keep_created-Good store (ok q) c g = set-Good store q.id q refl c g
keep_created-Good store (err e) c g = g

-- The state after the first part of a submission.
pub start_submit-Good :
    (deps : ServiceDeps) (store : QueryStore) (id : String) (result : QueryResult)
    (meta : SubmissionMeta) (asked : Option String) (keys : Option BlossomKeyMap) (now : ℕ)
    → Good store
    → let (store', answer) = start_submit deps store id result now in
      Good store' × All TaskGood (submit_task id meta asked keys answer)
unfolding start_submit
start_submit-Good deps store id result meta asked keys now g = elim (Option-cases (get store id)) [
  | inl missing ↦ rw (missing, start_submit) (g, tt)
  | inr (q, found) ↦
      let (c, own) = get-Good store id q g found in
      elim (Bool-cases (status_eq q.status pending)) [
        | inr other ↦ rw (found, other, start_submit) (g, tt)
        | inl waiting ↦ elim (Bool-cases (ltb q.expires_at now)) [
          | inl late ↦
              rw (found, waiting, late, start_submit)
                (set-Good store id (as_expired q) own (as_expired-Consistent q c) g, tt)
          | inr early ↦
              rw (found, waiting, early, start_submit)
                (g, ((c, (status_eq_iff q.status pending).0 waiting, own), tt))
        ]
      ]
]

pub finish_submit-Good :
    (store : QueryStore) (id : String) (q : Query) (r : QueryResult) (v : QuorumVerificationResult)
    (meta : SubmissionMeta) (keys : Option BlossomKeyMap) (later : ℕ)
    → TaskGood (submission id q r meta none keys)
    → Good store
    → Good (finish_submit store id q r (finalize q v) meta keys later).0
unfolding finish_submit submitted finalize
finish_submit-Good store id q r v meta keys later (c, waiting, own) g =
    elim (Bool-cases (without_verdict (finalize q v))) [
      | inl silent ↦ rw (silent, finish_submit) g
      | inr heard ↦
          rw (heard, finish_submit)
            (set-Good store id (submitted (finalize q v) r meta keys later) own
              (submitted-Consistent q v r meta keys later c waiting) g)
    ]

pub do_cancel_query-Good :
    (store : QueryStore) (id : String) → Good store → Good (do_cancel_query store id).0
unfolding do_cancel_query apply
do_cancel_query-Good store id g = elim (Option-cases (get store id)) [
  | inl missing ↦ rw (missing, do_cancel_query) g
  | inr (q, found) ↦
      rw (cancel_refines store id q found)
        (apply-committed-Good store id q Operation.cancels found g)
]

module _ (store : QueryStore) (id : String) (g : Good store) where
  pub do_record_offer-Good : (offer : OfferInfo) → Good (do_record_offer store id offer).0
  unfolding do_record_offer apply
  do_record_offer-Good offer = elim (Option-cases (get store id)) [
    | inl missing ↦ rw (missing, do_record_offer) g
    | inr (q, found) ↦
        rw (found, do_record_offer)
          (apply-Good store id q (Operation.offers offer) "Offer recorded" found g)
  ]

  pub do_begin_work-Good : Good (do_begin_work store id).0
  unfolding do_begin_work apply
  do_begin_work-Good = elim (Option-cases (get store id)) [
    | inl missing ↦ rw (missing, do_begin_work) g
    | inr (q, found) ↦
        rw (found, do_begin_work) (apply-Good store id q Operation.begins "Work begun" found g)
  ]

  pub do_record_result-Good :
      (deps : ServiceDeps) (result : QueryResult) (provider : String) (keys : Option BlossomKeyMap)
      (now : ℕ)
      → Good (do_record_result deps store id result provider keys now).0
  unfolding do_record_result apply
  do_record_result-Good deps result provider keys now = elim (Option-cases (get store id)) [
    | inl missing ↦ rw (missing, do_record_result) g
    | inr (q, found) ↦
        rw (found, do_record_result)
          (apply-Good store id q (Operation.records (normalize deps result) provider keys now)
            "Result recorded, verification in progress" found g)
  ]

  pub do_complete_verification-Good :
      (passed : Bool) (asked : Option String)
      → Good (do_complete_verification store id passed asked).0
  unfolding do_complete_verification apply
  do_complete_verification-Good passed asked = elim (Option-cases (get store id)) [
    | inl missing ↦ rw (missing, do_complete_verification) g
    | inr (q, found) ↦
        rw (found, do_complete_verification)
          (apply-Good store id q (Operation.completes passed none asked none)
            (if passed then "Verification passed" else "Verification failed") found g)
  ]

selected-Good :
    (deps : ServiceDeps) (store : QueryStore) (id : String) (q : Query) (provider : String)
    (token : Option String) (answer : Selection)
    → Consistent q
    → id ≡ q.id
    → decide_selection deps q provider token ≡ answer
    → TaskGood (selection id answer)
unfolding apply
selected-Good deps store id q provider token (refuses message) c own e = tt
selected-Good deps store id q provider token (commits q') c own e =
    let updates =
      selection_updates token
        (amount_check deps.escrow_provider (escrow_reference q token) (expected_sats q)) in
    let chosen = decide_selection-selects deps q provider token q' e in
    let op = Operation.selects provider updates in
    let same = subst (OnOk (SameTerms q)) chosen (apply-SameTerms q op) in
    (subst (OnOk Consistent) chosen (apply-Consistent q op c), own ∙ sym same.same_id)

pub commit_selection-Good :
    (store : QueryStore) (id : String) (answer : Selection)
    → TaskGood (selection id answer)
    → Good store
    → Good (commit_selection store id answer).0
unfolding commit_selection
commit_selection-Good store id (refuses message) t g = g
commit_selection-Good store id (commits q) (c, own) g = set-Good store id q own c g

pub start_selection-Good :
    (deps : ServiceDeps) (store : QueryStore) (id provider : String) (token : Option String)
    → Good store
    → let (store', waiting) = start_selection deps store id provider token (get store id) in
      Good store' × All TaskGood waiting
start_selection-Good deps store id provider token g = elim (Option-cases (get store id)) [
  | inl missing ↦ rw missing (g, tt)
  | inr (q, found) ↦
      let (c, own) = get-Good store id q g found in
      let answer = decide_selection deps q provider token in
      let fits = selected-Good deps store id q provider token answer c own refl in
      elim (Bool-cases (selection_waits deps q provider token)) [
        | inl waits ↦ rw (found, waits) (g, (fits, tt))
        | inr free ↦ rw (found, free) (commit_selection-Good store id answer fits g, tt)
      ]
]

recorded-Good :
    (deps : ServiceDeps) (store : QueryStore) (id : String) (q : Query) (result : QueryResult)
    (provider : String) (asked : Option String) (keys : Option BlossomKeyMap) (now : ℕ)
    (r : TransitionResult)
    → get store id ≡ some q
    → is_some q.escrow ≡ true
    → record_result q (normalize deps result) provider keys now ≡ r
    → Good store
    → let (store', answer) = start_escrow_submit deps store id result provider keys now in
      Good store' × All TaskGood (escrow_task id asked keys answer)
unfolding start_escrow_submit apply
recorded-Good deps store id q result provider asked keys now (err m) found has e g =
    rw (found, has, e, start_escrow_submit) (g, tt)
recorded-Good deps store id q result provider asked keys now (ok v) found has e g =
    let (c, own) = get-Good store id q g found in
    let op = Operation.records (normalize deps result) provider keys now in
    let fits = subst (OnOk Consistent) e (apply-Consistent q op c) in
    let same = subst (OnOk (SameTerms q)) e (apply-SameTerms q op) in
    rw (found, has, e, start_escrow_submit)
      (
        set-Good store id v (own ∙ sym same.same_id) fits g,
        (
          (
            fits,
            (record_result-accepts q v (normalize deps result) provider keys now e).1,
            own ∙ sym same.same_id,
          ),
          tt,
        ),
      )

pub start_escrow_submit-Good :
    (deps : ServiceDeps) (store : QueryStore) (id : String) (result : QueryResult)
    (provider : String) (asked : Option String) (keys : Option BlossomKeyMap) (now : ℕ)
    → Good store
    → let (store', answer) = start_escrow_submit deps store id result provider keys now in
      Good store' × All TaskGood (escrow_task id asked keys answer)
unfolding start_escrow_submit
start_escrow_submit-Good deps store id result provider asked keys now g =
    elim (Option-cases (get store id)) [
      | inl missing ↦ rw (missing, start_escrow_submit) (g, tt)
      | inr (q, found) ↦ elim (Bool-cases (is_some q.escrow)) [
        | inl has ↦
            recorded-Good deps store id q result provider asked keys now
              (record_result q (normalize deps result) provider keys now) found has refl g
        | inr free ↦ rw (found, free, start_escrow_submit) (g, tt)
      ]
    ]

pub store_verdict-Good :
    (store : QueryStore) (id : String) (q : Query) (v : QuorumVerificationResult)
    → Consistent q
    → q.status ≡ verifying
    → id ≡ q.id
    → Good store
    → Good (store_verdict store id (finalize q v))
unfolding store_verdict finalize
store_verdict-Good store id q v c s own g =
    set-Good store id (finalize q v).updated own (finalize-Consistent q v c s) g
