-- ===== src/Requests/EscrowFlow.antt =====
-- The service's operations on queries with an escrow:
-- packages/sdk/src/requests/application/escrow-flow-methods.ts and query-escrow-validation.ts.
-- An operation that awaits is split where other operations may run: it reads the query before, and
-- writes what it computed from that reading after.
pub mod Submit
pub mod Refines
pub mod Settlement
pub mod Locked
use anchr.Prelude.{
  ℕ, String, Bool, true, false, not, ◌&&◌, ◌||◌, List, [], ◌∷◌, Option, none, some, nat_eq,
  if◌then◌else◌, is_some, truthy, or_else, template, join, Eq-string,
}
use mathlib.Core.Option.{get_or}
use anchr.Requests.Types.{
  Query, QueryResult, EscrowInfo, EscrowLock, htlc, p2pk_frost, PaymentLockInfo, OfferInfo,
  BlossomKeyMap,
}
use anchr.Requests.Aggregate.{
  TransitionResult, ok, err, EscrowSelectionUpdates, no_updates, add_offer, select_provider,
  begin_work, record_result, complete_verification,
}
use anchr.Requests.Store.{QueryStore, get, set}
use anchr.Requests.Finalize.{
  ServiceDeps, EscrowProvider, AmountCheck, LockCheck, FrostSignaturePort, Finalized, normalize,
  verify_and_finalize, try_reveal_preimage,
}
use anchr.Payments.Preimage.{PreimageStore}

pub record HtlcOutcome : Type 0 where
  pub ok : Bool
  pub message : String

-- `if (!transition.ok) return …; store.set(…); return …`.
abbrev pub commit : QueryStore → String → TransitionResult → String → QueryStore × HtlcOutcome
commit store id (ok q) message = (set store id q, record { ok = true; message = message })
commit store id (err error) message = (store, record { ok = false; message = error })

abbrev pub not_found : HtlcOutcome
not_found = record { ok = false; message = "Query not found" }

unfoldable pub do_record_offer : QueryStore → String → OfferInfo → QueryStore × HtlcOutcome
do_record_offer store id offer = elim (get store id) [
  | none ↦ (store, not_found)
  | some query ↦ commit store id (add_offer query offer) "Offer recorded"
]

-- `escrow?.escrow_ref ?? escrow?.escrow_token ?? escrowToken`.
unfoldable pub escrow_reference : Query → Option String → Option String
escrow_reference query token = elim (query.escrow) [
  | none ↦ token
  | some e ↦ or_else e.escrow_ref (or_else e.escrow_token token)
]

abbrev pub truthy_text : Option String → Bool
truthy_text none = false
truthy_text (some s) = truthy s

-- `payment_lock?.amount_sats`; zero is falsy.
abbrev pub expected_sats : Query → Option ℕ
expected_sats query = elim (query.payment_lock) [ none ↦ none | some l ↦ some (l.amount_sats) ]

abbrev pub truthy_amount : Option ℕ → Bool
truthy_amount none = false
truthy_amount (some n) = not (nat_eq n 0)

abbrev pub hash_of : EscrowLock → Option String
hash_of (htlc hash) = some hash
hash_of (p2pk_frost group) = none

-- The hash lock of an HTLC escrow.
abbrev pub payment_hash : Query → Option String
payment_hash query = elim (query.escrow) [ none ↦ none | some e ↦ hash_of e.lock ]

-- The answer of a selection: refused with a message, or the query to commit.
pub data Selection : Type 0 where
  refuses : String → Selection
  commits : Query → Selection

abbrev pub to_selection : TransitionResult → Selection
to_selection (ok q) = commits q
to_selection (err e) = refuses e

-- The text of `check.error` in a template: an absent one prints as `undefined`.
abbrev pub shown : Option String → String
shown none = "undefined"
shown (some s) = s

-- The amount check, if one is due. It yields the key `verified_escrow_sats` of the updates.
unfoldable pub amount_check : Option EscrowProvider → Option String → Option ℕ → Option AmountCheck
amount_check (some provider) (some ref) (some sats) =
    if truthy ref && not (nat_eq sats 0) then some (provider.verify ref sats) else none
amount_check _ _ _ = none

-- The lock check, if one is due.
unfoldable pub lock_check :
    Option EscrowProvider → Option String → Option String → String → Option LockCheck
lock_check (some provider) (some ref) (some hash) pubkey =
    if truthy ref && truthy hash then some (provider.verify_lock ref hash pubkey) else none
lock_check _ _ _ pubkey = none

abbrev pub amount_failure : Option AmountCheck → Option String
amount_failure none = none
amount_failure (some check) =
    if check.valid
    then none
    else some (template ("Escrow token verification failed: " ∷ shown check.error ∷ []))

-- `lockCheck.message!`: the port gives a message with a failed check, or the text is empty here.
abbrev pub lock_failure : Option LockCheck → Option String
lock_failure none = none
lock_failure (some check) = if check.ok then none else some (get_or check.message "")

abbrev pub selection_updates : Option String → Option AmountCheck → EscrowSelectionUpdates
selection_updates token amount = record {
  escrow_token = elim token [ none ↦ none | some t ↦ some (some t) ];
  verified_escrow_sats = elim amount [ none ↦ none | some check ↦ some (check.amount_sats) ];
  escrow_ref = none;
  provider_pubkey = none;
}

-- `escrowRef && (expectedSats || paymentHash) && !deps.escrowProvider`.
unfoldable pub unverifiable : ServiceDeps → Query → Option String → Bool
unverifiable deps query token =
    truthy_text (escrow_reference query token)
    && (truthy_amount (expected_sats query) || truthy_text (payment_hash query))
    && not (is_some deps.escrow_provider)

abbrev pub is_ok : TransitionResult → Bool
is_ok (ok q) = true
is_ok (err error) = false

-- Whether `doSelectProvider` comes to an `await`: a check of the token is due. Without one it runs
-- from its reading to its write.
unfoldable pub selection_waits : ServiceDeps → Query → String → Option String → Bool
selection_waits deps query provider token =
    let ref = escrow_reference query token in
    is_ok (select_provider query provider no_updates)
    && (is_some (amount_check deps.escrow_provider ref (expected_sats query))
        || is_some (lock_check deps.escrow_provider ref (payment_hash query) provider))

-- `doSelectProvider` on the query that it read, up to its write.
unfoldable pub decide_selection : ServiceDeps → Query → String → Option String → Selection
unfolding unverifiable
decide_selection deps query provider token =
    let ref = escrow_reference query token in
    let amount = amount_check deps.escrow_provider ref (expected_sats query) in
    let lock = lock_check deps.escrow_provider ref (payment_hash query) provider in
    elim (select_provider query provider no_updates) [
      | err error ↦ refuses error
      | ok dry_run ↦
          if unverifiable deps query token
          then refuses
              "Escrow provider port not configured — cannot verify escrow token before selection"
          else elim (amount_failure amount) [
            | some message ↦ refuses message
            | none ↦ elim (lock_failure lock) [
              | some message ↦ refuses message
              | none ↦
                  to_selection (select_provider query provider (selection_updates token amount))
            ]
          ]
    ]

-- The write of `doSelectProvider`, on the store as it is after the checks.
unfoldable pub commit_selection : QueryStore → String → Selection → QueryStore × HtlcOutcome
commit_selection store id (refuses message) = (store, record { ok = false; message = message })
commit_selection store id (commits q) =
    (set store id q, record { ok = true; message = "Provider selected" })

unfoldable pub do_select_provider :
    ServiceDeps → QueryStore → String → String → Option String → QueryStore × HtlcOutcome
unfolding commit_selection
do_select_provider deps store id provider token = elim (get store id) [
  | none ↦ (store, not_found)
  | some query ↦ commit_selection store id (decide_selection deps query provider token)
]

unfoldable pub do_begin_work : QueryStore → String → QueryStore × HtlcOutcome
do_begin_work store id = elim (get store id) [
  | none ↦ (store, not_found)
  | some query ↦ commit store id (begin_work query) "Work begun"
]

unfoldable pub do_record_result :
    ServiceDeps
    → QueryStore
    → String
    → QueryResult
    → String
    → Option BlossomKeyMap
    → ℕ
    → QueryStore × HtlcOutcome
do_record_result deps store id result provider blossom_keys now = elim (get store id) [
  | none ↦ (store, not_found)
  | some query ↦
      commit store id (record_result query (normalize deps result) provider blossom_keys now)
        "Result recorded, verification in progress"
]

unfoldable pub do_complete_verification :
    QueryStore → String → Bool → Option String → QueryStore × HtlcOutcome
do_complete_verification store id passed oracle_id = elim (get store id) [
  | none ↦ (store, not_found)
  | some query ↦
      commit store id (complete_verification query passed none oracle_id none)
        (if passed then "Verification passed" else "Verification failed")
]
