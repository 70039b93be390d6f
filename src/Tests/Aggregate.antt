-- ===== src/Tests/Aggregate.antt =====
-- The aggregate at concrete queries.
use anchr.Prelude.{◌≤◌, true, none, some, List, [], ◌∷◌, ◌≡◌, refl, arith}
use anchr.Requests.Types.{Query, approved, released}
use anchr.Requests.Transitions.{is_valid_transition, is_terminal}
use anchr.Requests.Validation.{is_blank, validate_offer_info}
use anchr.Requests.Aggregate.{
  no_updates, add_offer, complete_verification, record_result, begin_work, select_provider,
}
use anchr.Requests.Aggregate.Operations.{
  Operation, expires, cancels, offers, selects, begins, records, completes, apply, run,
}
use anchr.Requests.Aggregate.Consistent.{Consistent, OnOk, run-Consistent}
use anchr.Requests.Aggregate.Graph.{Follows, apply-Follows, terminal-run, moves, moves-le-four}
use anchr.Requests.Aggregate.Payout.{EarnedIn, run-EarnedIn}
use anchr.Requests.Aggregate.Progress.{escrow_path}
use anchr.Tests.Data.{simple_query, escrow_query, htlc_escrow, photo, passing, offer_of_p1}

-- Offers, a selection, the work, the result and a passing verdict.
abbrev sale : List Operation
sale =
    offers offer_of_p1
    ∷ selects "p1" no_updates
    ∷ begins
    ∷ records photo "p1" none 200
    ∷ completes true (some passing) none none
    ∷ []

escrow_query-Consistent : Consistent escrow_query
escrow_query-Consistent = ground arith

run-Consistent_example : Consistent (run escrow_query sale)
run-Consistent_example = run-Consistent escrow_query sale escrow_query-Consistent

sale_is_paid : (run escrow_query sale).payment_status ≡ released
unfolding run apply complete_verification record_result begin_work select_provider add_offer
    validate_offer_info is_blank is_valid_transition
sale_is_paid = refl

run-EarnedIn_example : EarnedIn escrow_query sale
run-EarnedIn_example = run-EarnedIn escrow_query sale (λ e. cc) sale_is_paid

apply-Follows_example : OnOk (Follows escrow_query cancels) (apply escrow_query cancels)
apply-Follows_example = apply-Follows escrow_query cancels escrow_query-Consistent

abbrev settled_query : Query
settled_query = record simple_query { status = approved; payment_status = released }

terminal-run_example : run settled_query (cancels ∷ expires 5000 ∷ []) ≡ settled_query
unfolding is_terminal
terminal-run_example = terminal-run settled_query (cancels ∷ expires 5000 ∷ []) refl

moves-le-four_example : moves escrow_query sale ≤ 4
moves-le-four_example = moves-le-four escrow_query sale

escrow_path_example :
    (run escrow_query (
      selects "p1" no_updates
      ∷ begins
      ∷ records photo "p1" none 200
      ∷ completes true none none none
      ∷ [])).status
    ≡ approved
escrow_path_example = (escrow_path escrow_query htlc_escrow "p1" photo none 200 true refl refl).0
