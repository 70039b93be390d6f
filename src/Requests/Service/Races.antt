-- ===== src/Requests/Service/Races.antt =====
-- What an interleaving can undo: a call that goes on writes what it read before its `await`.
-- packages/sdk/src/requests/application/query-lifecycle-methods.ts and escrow-flow-methods.ts.
use anchr.Prelude.{
  ℕ, ◌≤◌, String, true, refl, ap, ◌++◌, [], ◌∷◌, Option, none, some, ◌≡◌, arith, Eq-string,
}
use anchr.Prelude.Dict.{==_refl}
use anchr.Protocol.Schema.{UrlParser}
use anchr.Requests.Types.{
  Query, QueryResult, SubmissionMeta, BlossomKeyMap, OfferInfo, pending, approved, released,
}
use anchr.Requests.Transitions.{is_open_status}
use anchr.Requests.Store.{QueryStore, get, set}
use anchr.Requests.Store.Laws.{get-set}
use anchr.Requests.Finalize.{ServiceDeps, Finalized, normalize, verify_and_finalize}
use anchr.Requests.Lifecycle.{
  start_submit, finish_submit, submitted, without_verdict, do_cancel_query, Submission,
}
use anchr.Requests.EscrowFlow.{
  commits, commit, decide_selection, selection_waits, commit_selection, do_record_offer,
}
use anchr.Requests.EscrowFlow.Settlement.{
  decide_selection-selects, decide_selection_binds, select_provider-Binds,
}
use anchr.Requests.Validation.{validate_offer_info}
use mathlib.Core.Option.{get_or}
use anchr.Requests.Aggregate.{ok, add_offer, EscrowSelectionUpdates, select_provider}
use anchr.Payments.Preimage.{PreimageStore}
use anchr.Requests.Service.{
  System, submits, cancels, offers, selects, resumes, pick, drop_at, resume, step, run,
}

start_submit_pending :
    (deps : ServiceDeps) (store : QueryStore) (id : String) (q : Query) (result : QueryResult)
    (now : ℕ)
    → get store id ≡ some q
    → q.status ≡ pending
    → now ≤ q.expires_at
    → start_submit deps store id result now ≡ (store, Submission.waits q (normalize deps result))
unfolding start_submit
start_submit_pending deps store id q result now found waiting early = ground arith

finish_submit_passed :
    (store : QueryStore) (id : String) (q : Query) (r : QueryResult) (final : Finalized)
    (meta : SubmissionMeta) (keys : Option BlossomKeyMap) (later : ℕ)
    → final.passed ≡ true
    → (finish_submit store id q r final meta keys later).0
      ≡ set store id (submitted final r meta keys later)
unfolding finish_submit without_verdict
finish_submit_passed store id q r final meta keys later p = ground arith

submitted_passed :
    (deps : ServiceDeps) (q : Query) (r r' : QueryResult) (meta : SubmissionMeta)
    (asked : Option String) (keys : Option BlossomKeyMap) (later : ℕ)
    → let final = verify_and_finalize q r deps keys asked in
      final.passed ≡ true
      → ((submitted final r' meta keys later).status ≡ approved)
        × ((submitted final r' meta keys later).payment_status ≡ released)
unfolding submitted verify_and_finalize
submitted_passed deps q r r' meta asked keys later p = ground arith

get-set_self : (store : QueryStore) (id : String) (q : Query) → get (set store id q) id ≡ some q
get-set_self store id q = ground (arith, get-set store id q id, ==_refl id)

select_provider-offers :
    (q q' : Query) (provider : String) (updates : EscrowSelectionUpdates)
    → select_provider q provider updates ≡ ok q'
    → q'.offers ≡ q.offers
unfolding select_provider
select_provider-offers q q' provider updates e = ground arith

-- A valid offer for a query that a provider can be selected for is stored.
do_record_offer-stores :
    (deps : ServiceDeps) (store : QueryStore) (id : String) (q : Query) (provider : String)
    (token : Option String) (offer : OfferInfo) (q' : Query)
    → get store id ≡ some q
    → decide_selection deps q provider token ≡ commits q'
    → validate_offer_info offer ≡ none
    → do_record_offer store id offer ≡ (
      set store id (record q { offers = some (get_or q.offers [] ++ offer ∷ []) }),
      record { ok = true; message = "Offer recorded" },
    )
unfolding do_record_offer add_offer
do_record_offer-stores deps store id q provider token offer q' found chosen valid =
    let waiting = (decide_selection_binds deps q provider token q' chosen).0 in
    let bound =
      select_provider-Binds q provider token _ q'
        (decide_selection-selects deps q provider token q' chosen) in
    let taken : add_offer q offer
        ≡ ok (record q { offers = some (get_or q.offers [] ++ offer ∷ []) }) =
      ground (arith, bound.2, waiting, valid) in
    rw (found, do_record_offer) (ap (λ r. commit store id r "Offer recorded") taken)

-- A service with no waiting call.
abbrev pub idle : QueryStore → Option PreimageStore → System
idle store preimages = record { store = store; preimages = preimages; tasks = [] }

module _ (parse : UrlParser) (deps : ServiceDeps) (store : QueryStore)
    (preimages : Option PreimageStore) (id : String) (q : Query) where
  -- A pending query that is cancelled while a submission waits for its verification is approved
  -- after all, with the payment released, when the verification passes: the cancellation had been
  -- confirmed, and the write of the submission replaces it.
  pub cancel_overwritten :
      (result : QueryResult) (meta : SubmissionMeta) (asked : Option String)
      (keys : Option BlossomKeyMap) (now later : ℕ)
      → get store id ≡ some q
      → q.status ≡ pending
      → now ≤ q.expires_at
      → (verify_and_finalize q (normalize deps result) deps keys asked).passed ≡ true
      → ((do_cancel_query store id).1.ok ≡ true)
        × ((q' : Query) × (get
                (run parse deps
                  (idle store preimages)
                  (submits id result meta asked keys now ∷ cancels id ∷ resumes 0 later ∷ [])).store
                id
              ≡ some q')
            × (q'.status ≡ approved)
            × (q'.payment_status ≡ released))
  unfolding run step pick drop_at resume do_cancel_query is_open_status
  cancel_overwritten result meta asked keys now later found waiting early passed =
      let r = normalize deps result in
      let final = verify_and_finalize q r deps keys asked in
      let (yes_status, yes_payment) = submitted_passed deps q r r meta asked keys later passed in
      (
        ground arith,
        (
          submitted final r meta keys later,
          rw (start_submit_pending deps store id q result now found waiting early) (
              rw
                (finish_submit_passed (do_cancel_query store id).0 id q r final meta keys later
                  passed)
                (get-set_self (do_cancel_query store id).0 id (submitted final r meta keys later))),
          yes_status,
          yes_payment,
        ),
      )

  -- A valid offer that comes while a selection waits for the checks of the escrow token is confirmed
  -- and stored with the others; when the selection goes on it is lost: the stored query has the offers
  -- that were there before.
  pub offer_lost :
      (provider : String) (token : Option String) (offer : OfferInfo) (q' : Query) (later : ℕ)
      → get store id ≡ some q
      → selection_waits deps q provider token ≡ true
      → decide_selection deps q provider token ≡ commits q'
      → validate_offer_info offer ≡ none
      → let before = selects id provider token ∷ offers id offer ∷ [] in
        ((do_record_offer store id offer).1.ok ≡ true)
        × (get (run parse deps (idle store preimages) before).store id
            ≡ some (record q { offers = some (get_or q.offers [] ++ offer ∷ []) }))
        × (get
              (run parse deps
                (idle store preimages)
                (selects id provider token ∷ offers id offer ∷ resumes 0 later ∷ [])).store
              id
            ≡ some q')
        × (q'.offers ≡ q.offers)
  unfolding run step pick drop_at resume commit_selection
  offer_lost provider token offer q' later found waits chosen valid =
      let recorded =
        do_record_offer-stores deps store id q provider token offer q' found chosen valid in
      (
        rw recorded refl,
        rw (found, waits, recorded) (get-set_self store id _),
        rw (found, waits, chosen) (get-set_self (do_record_offer store id offer).0 id q'),
        select_provider-offers q q' provider _
            (decide_selection-selects deps q provider token q' chosen),
      )
