-- ===== src/Tests/Service.antt =====
-- The service at concrete stores.
use anchr.Prelude.{
  String, true, none, some, List, [], ◌∷◌, ◌≡◌, refl, arith, Eq-string, ◌==◌, if◌then◌else◌,
  includes,
}
use anchr.Requests.Types.{Query, provider_selected, approved, released}
use anchr.Requests.Transitions.{is_valid_transition}
use anchr.Requests.Aggregate.{
  ok, submit_result, complete_verification, record_result, select_provider,
}
use anchr.Requests.Store.{QueryStore, get}
use anchr.Requests.Store.Laws.{Keyed}
use anchr.Requests.Finalize.{finalize, verify_and_finalize, normalize}
use anchr.Requests.Lifecycle.{do_submit_query_result, do_cancel_query, do_expire_queries}
use anchr.Requests.Lifecycle.Refines.{committed, submit_refines}
use anchr.Requests.Lifecycle.Sweep.{get-do_expire_queries, Swept}
use anchr.Requests.EscrowFlow.{
  commits, decide_selection, escrow_reference, amount_check, lock_check,
}
use anchr.Requests.EscrowFlow.Submit.{EscrowSubmission, start_escrow_submit, deliver}
use anchr.Requests.EscrowFlow.Refines.{finalize_refines}
use anchr.Requests.Validation.{validate_offer_info, is_blank}
use anchr.Requests.EscrowFlow.{selection_waits, do_record_offer}
use anchr.Requests.EscrowFlow.Settlement.{deliver_once, Checked, Binds, decide_selection-Checked}
use anchr.Requests.Service.{System, Event, submits, cancels, offers, selects, resumes, run}
use anchr.Requests.Service.Sound.{Sound, run-Sound}
use anchr.Requests.Service.Races.{idle, cancel_overwritten, offer_lost}
use anchr.Oracles.Quorum.{verify_with_quorum, QuorumVerificationResult}
use anchr.Oracles.Registry.{resolve, resolve_multiple}
use anchr.Payments.Preimage.{PreimageStore, get_preimage}
use anchr.Tests.Data.{
  no_urls, simple_query, escrow_query, working_query, verifying_query, photo, passing, by_hand,
  offer_of_p1, two_oracles, wired, one_preimage, bound_escrow,
}

abbrev two_queries : QueryStore
two_queries = ("q1", simple_query) ∷ ("q2", escrow_query) ∷ []

two_queries-Keyed : Keyed two_queries
unfolding includes
two_queries-Keyed = record { own_ids = (refl, (refl, tt)); once = (refl, (refl, tt)) }

abbrev fresh : System
fresh = record { store = two_queries; preimages = some one_preimage; tasks = [] }

fresh-Sound : Sound fresh
fresh-Sound = record {
  good = record { keyed = two_queries-Keyed; consistent = (ground arith, (ground arith, tt)) };
  waiting = tt;
}

abbrev race : List Event
race = submits "q1" photo by_hand none none 200 ∷ cancels "q1" ∷ resumes 0 300 ∷ []

run-Sound_example : Sound (run no_urls wired fresh race)
run-Sound_example = run-Sound no_urls wired fresh race fresh-Sound

found_q1 : get two_queries "q1" ≡ some simple_query
unfolding get
found_q1 = refl

found_q2 : get two_queries "q2" ≡ some escrow_query
unfolding get
found_q2 = refl

abbrev final_of_q1 : QuorumVerificationResult
final_of_q1 =
    verify_with_quorum simple_query photo (resolve two_oracles)
      (some (resolve_multiple two_oracles)) none none

q1_passes : (verify_and_finalize simple_query (normalize wired photo) wired none none).passed ≡ true
unfolding verify_and_finalize normalize verify_with_quorum resolve
q1_passes = refl

cancel_overwritten_example :
    ((do_cancel_query two_queries "q1").1.ok ≡ true)
    × ((q' : Query) × (get (run no_urls wired (idle two_queries none) race).store "q1" ≡ some q')
        × (q'.status ≡ approved)
        × (q'.payment_status ≡ released))
cancel_overwritten_example =
    cancel_overwritten no_urls wired two_queries none "q1" simple_query photo by_hand none none 200
      300 found_q1 refl (omega arith) q1_passes

submit_refines_example :
    (do_submit_query_result wired two_queries "q1" photo by_hand none none 200 300).0
    ≡ committed two_queries "q1" (
        submit_result simple_query photo passing by_hand none
          (some (
            record {
              oracle_id = "o1";
              passed = true;
              checks = [];
              failures = [];
              attested_at = 300;
              schema_verdict = none;
            }
            ∷ []))
          none
          300)
unfolding verify_and_finalize normalize verify_with_quorum resolve
submit_refines_example =
    submit_refines wired two_queries "q1" simple_query photo by_hand none none 200 300 _ [] found_q1
      refl refl (omega arith) (omega arith) refl

get-do_expire_queries_example :
    Swept 1500 (get two_queries "q2") (get (do_expire_queries two_queries 1500).0 "q2")
get-do_expire_queries_example = get-do_expire_queries two_queries 1500 "q2" two_queries-Keyed

finalize_refines_example :
    complete_verification verifying_query final_of_q1.passed
      (some final_of_q1.verification)
      none
      (some final_of_q1.attestations)
    ≡ ok (finalize verifying_query final_of_q1).updated
finalize_refines_example = finalize_refines verifying_query final_of_q1 refl refl

abbrev one_working : QueryStore
one_working = ("q2", working_query) ∷ []

abbrev recorded_query : Query
recorded_query = record verifying_query { submission_meta = some by_hand }

accepted_photo :
    (start_escrow_submit wired one_working "q2" photo "p1" none 200).1
    ≡ EscrowSubmission.waits working_query recorded_query photo
unfolding start_escrow_submit get normalize record_result is_valid_transition
accepted_photo = refl

revealed :
    (deliver wired
      (some one_preimage)
      working_query
      verifying_query
      photo
      (finalize verifying_query final_of_q1)
      none).1.preimage
    ≡ some "s1"
unfolding deliver finalize verify_with_quorum resolve get_preimage
revealed = refl

deliver_once_example :
    (entries' : PreimageStore) × ((deliver wired
        (some one_preimage)
        working_query
        verifying_query
        photo
        (finalize verifying_query final_of_q1)
        none).0
      ≡ some entries')
    × (get_preimage one_preimage "h1" ≡ some "s1")
    × ((j : String)
        → get_preimage entries' j ≡ (if "h1" == j then none else get_preimage one_preimage j))
deliver_once_example =
    deliver_once wired one_preimage working_query verifying_query photo
      (finalize verifying_query final_of_q1) none "s1" "h1" revealed refl

abbrev selected_query : Query
selected_query = record escrow_query {
  status = provider_selected;
  escrow = some (record bound_escrow { verified_escrow_sats = some 21 });
}

p1_chosen : decide_selection wired escrow_query "p1" none ≡ commits selected_query
unfolding decide_selection select_provider is_valid_transition amount_check lock_check
    escrow_reference
p1_chosen = refl

decide_selection-Checked_example :
    Checked wired escrow_query "p1" "token" × Binds escrow_query "p1" none selected_query
unfolding escrow_reference
decide_selection-Checked_example =
    decide_selection-Checked wired escrow_query "p1" "token" none selected_query p1_chosen refl refl

offer_lost_example :
    ((do_record_offer two_queries "q2" offer_of_p1).1.ok ≡ true)
    × (get
          (run no_urls wired
            (idle two_queries none)
            (selects "q2" "p1" none ∷ offers "q2" offer_of_p1 ∷ [])).store
          "q2"
        ≡ some (record escrow_query { offers = some (offer_of_p1 ∷ []) }))
    × (get
          (run no_urls wired
            (idle two_queries none)
            (selects "q2" "p1" none ∷ offers "q2" offer_of_p1 ∷ resumes 0 300 ∷ [])).store
          "q2"
        ≡ some selected_query)
    × (selected_query.offers ≡ escrow_query.offers)
unfolding selection_waits escrow_reference amount_check lock_check select_provider
    is_valid_transition validate_offer_info is_blank
offer_lost_example =
    offer_lost no_urls wired two_queries none "q2" escrow_query "p1" none offer_of_p1 selected_query
      300 found_q2 refl p1_chosen refl
