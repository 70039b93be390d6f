-- ===== src/Requests/Aggregate.antt =====
-- The query aggregate, packages/sdk/src/requests/domain/query-aggregate.ts: every operation takes
-- the query and returns the new one, or the text of the error.
pub mod Create
pub mod Operations
pub mod Graph
pub mod Consistent
pub mod Payout
pub mod Progress
use anchr.Prelude.{
  ℕ, ◌+◌, ◌/◌, String, Bool, true, false, not, ◌&&◌, List, [], ◌∷◌, ◌++◌, Option, none, some,
  nat_eq, ltb, leb, if◌then◌else◌, ◌==◌, Eq-string, truthy, is_some, or_else, head?, includes,
  template,
}
use mathlib.Core.Option.{get_or, map as option_map}
use anchr.Protocol.Schema.{UrlParser}
use anchr.Requests.Types.{
  Query, QueryStatus, QueryInput, QueryResult, PaymentStatus, CustomerMeta, PaymentLockInfo,
  EscrowInfo, OfferInfo, QuorumConfig, SubmissionMeta, ExecutorType, adapter, VerificationDetail,
  OracleAttestationRecord, BlossomKeyMap, DomainServices, Number, finite, infinite, nan, pending,
  awaiting_offers, provider_selected, processing, verifying, approved, rejected, expired,
  escrow_locked, escrow_swapped, locked, released, cancelled,
}
use anchr.Requests.Transitions.{
  status_text, status_eq, is_valid_transition, is_expirable, is_open_status,
}
use anchr.Requests.Validation.{
  validate_query_input, validate_offer_info, validate_escrow_locktime, min_escrow_locktime_secs,
}

pub data TransitionResult : Type 0 where
  ok : Query → TransitionResult
  err : String → TransitionResult

-- `Query is ${status}, …`.
abbrev pub status_message : QueryStatus → String → String
status_message status rest = template ("Query is " ∷ status_text status ∷ rest ∷ [])

-- `attestations?.[0]?.oracle_id`.
abbrev pub first_oracle : Option (List OracleAttestationRecord) → Option String
first_oracle none = none
first_oracle (some records) = option_map (λ a. a.oracle_id) (head? records)

-- `query.quorum ? attestations : undefined`.
abbrev pub kept_attestations :
    Query → Option (List OracleAttestationRecord) → Option (List OracleAttestationRecord)
kept_attestations query attestations = if is_some query.quorum then attestations else none

-- The simple path: pending → approved or rejected, or expired when the deadline has passed.
unfoldable pub submit_result :
    Query
    → QueryResult
    → VerificationDetail
    → SubmissionMeta
    → Option String
    → Option (List OracleAttestationRecord)
    → Option BlossomKeyMap
    → ℕ
    → TransitionResult
submit_result query result verification meta oracle_id attestations blossom_keys now =
    if is_some query.escrow
    then err "Use the escrow-mode functions for queries with an escrow"
    else if not (status_eq query.status pending)
    then err (status_message query.status ", not pending")
    else if ltb query.expires_at now
    then ok (record query { status = expired; payment_status = cancelled })
    else ok (record query {
      status = if verification.passed then approved else rejected;
      submitted_at = some now;
      result = some result;
      verification = some verification;
      submission_meta = some meta;
      payment_status = if verification.passed then released else cancelled;
      assigned_oracle_id = or_else (first_oracle attestations) oracle_id;
      blossom_keys = blossom_keys;
      attestations = kept_attestations query attestations;
    })

unfoldable pub expire_query : Query → ℕ → TransitionResult
expire_query query now =
    if not (is_expirable query.status)
    then err (status_message query.status ", cannot expire")
    else if leb now query.expires_at
    then err "Query has not expired yet"
    else ok (record query { status = expired; payment_status = cancelled })

unfoldable pub cancel_query : Query → TransitionResult
cancel_query query =
    if not (is_open_status query.status)
    then err (template ("Query is already " ∷ status_text query.status ∷ []))
    else ok (record query { status = rejected; payment_status = cancelled })

unfoldable pub add_offer : Query → OfferInfo → TransitionResult
add_offer query offer =
    if not (is_some query.escrow)
    then err "Not an escrow query"
    else if not (status_eq query.status awaiting_offers)
    then err (status_message query.status ", not awaiting_offers")
    else elim (validate_offer_info offer) [
      | some error ↦ err error
      | none ↦ ok (record query { offers = some (get_or query.offers [] ++ offer ∷ []) })
    ]

-- A `Partial`: the outer option says whether the key is there, the inner one is its value.
pub record EscrowSelectionUpdates : Type 0 where
  pub escrow_token : Option (Option String)
  pub verified_escrow_sats : Option (Option ℕ)
  pub escrow_ref : Option (Option String)
  pub provider_pubkey : Option (Option String)

abbrev pub no_updates : EscrowSelectionUpdates
no_updates = record {
  escrow_token = none;
  verified_escrow_sats = none;
  escrow_ref = none;
  provider_pubkey = none;
}

-- `{ ...escrow, provider_pubkey: p, ...updates }`.
unfoldable pub updated_escrow : EscrowInfo → String → EscrowSelectionUpdates → EscrowInfo
updated_escrow escrow provider updates = record escrow {
  provider_pubkey = get_or updates.provider_pubkey (some provider);
  escrow_token = get_or updates.escrow_token escrow.escrow_token;
  verified_escrow_sats = get_or updates.verified_escrow_sats escrow.verified_escrow_sats;
  escrow_ref = get_or updates.escrow_ref escrow.escrow_ref;
}

-- `updates.escrow_token` is there and truthy.
abbrev pub has_token : EscrowSelectionUpdates → Bool
has_token updates = elim (updates.escrow_token) [
  | none ↦ false
  | some o ↦ elim o [ none ↦ false | some t ↦ truthy t ]
]

unfoldable pub select_provider : Query → String → EscrowSelectionUpdates → TransitionResult
unfolding updated_escrow
select_provider query provider updates = elim (query.escrow) [
  | none ↦ err "Not an escrow query"
  | some escrow ↦
      if not (is_valid_transition query.status provider_selected true)
      then err (status_message query.status ", not awaiting_offers")
      else ok (record query {
        status = provider_selected;
        escrow = some (updated_escrow escrow provider updates);
        payment_status = if has_token updates then escrow_swapped else query.payment_status;
      })
]

unfoldable pub begin_work : Query → TransitionResult
begin_work query =
    if not (is_some query.escrow)
    then err "Not an escrow query"
    else if not (is_valid_transition query.status processing true)
    then err (status_message query.status ", not provider_selected")
    else ok (record query { status = processing })

-- `selected && selected !== provider`.
unfoldable pub is_other_provider : Option String → String → Bool
is_other_provider none provider = false
is_other_provider (some selected) provider = truthy selected && not (selected == provider)

abbrev pub escrow_submission_meta : SubmissionMeta
escrow_submission_meta = record { executor_type = ExecutorType.human; channel = adapter }

unfoldable pub record_result :
    Query → QueryResult → String → Option BlossomKeyMap → ℕ → TransitionResult
unfolding is_other_provider
record_result query result provider blossom_keys now = elim (query.escrow) [
  | none ↦ err "Not an escrow query"
  | some escrow ↦
      if not (is_valid_transition query.status verifying true)
      then err (status_message query.status ", not processing")
      else if is_other_provider escrow.provider_pubkey provider
      then err "Provider pubkey does not match selected provider"
      else ok (record query {
        status = verifying;
        result = some result;
        submitted_at = some now;
        submission_meta = some escrow_submission_meta;
        blossom_keys = blossom_keys;
      })
]

unfoldable pub complete_verification :
    Query
    → Bool
    → Option VerificationDetail
    → Option String
    → Option (List OracleAttestationRecord)
    → TransitionResult
complete_verification query passed verification oracle_id attestations =
    if not (is_some query.escrow)
    then err "Not an escrow query"
    else if not (is_valid_transition query.status (if passed then approved else rejected) true)
    then err (status_message query.status ", not verifying")
    else ok (record query {
      status = if passed then approved else rejected;
      payment_status = if passed then released else cancelled;
      verification = or_else verification query.verification;
      assigned_oracle_id = or_else oracle_id (first_oracle attestations);
      attestations = kept_attestations query attestations;
    })
