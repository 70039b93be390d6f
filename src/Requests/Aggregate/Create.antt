-- ===== src/Requests/Aggregate/Create.antt =====
-- The creation of a query: `createQueryAggregate` of packages/sdk/src/requests/domain/query-aggregate.ts.
use anchr.Prelude.{
  ℕ, ◌+◌, ◌/◌, String, Bool, true, false, not, List, [], Option, none, some, nat_eq, if◌then◌else◌,
  Eq-string, is_some, includes,
}
use mathlib.Core.Option.{get_or}
use anchr.Protocol.Schema.{UrlParser}
use anchr.Requests.Types.{
  Query, QueryInput, CustomerMeta, PaymentLockInfo, EscrowInfo, QuorumConfig, DomainServices,
  Number, finite, infinite, nan, pending, awaiting_offers, escrow_locked, locked,
}
use anchr.Requests.Validation.{
  validate_query_input, validate_escrow_locktime, min_escrow_locktime_secs,
}
use anchr.Requests.Aggregate.{TransitionResult, ok, err}

abbrev pub default_query_schema : String
default_query_schema = "https://anchr-spec.org/spec/proof/photo/v1"

pub record CreateQueryAggregateOptions : Type 0 where
  pub ttl_ms : ℕ
  pub customer_meta : Option CustomerMeta
  pub payment_lock : Option PaymentLockInfo
  pub oracle_ids : Option (List String)
  pub escrow : Option EscrowInfo
  pub nostr_event_id : Option String
  pub quorum : Option QuorumConfig

-- Zero and NaN are falsy.
abbrev pub truthy_number : Number → Bool
truthy_number (finite n) = not (nat_eq n 0)
truthy_number infinite = true
truthy_number nan = false

-- The check of `options.escrow?.locktime`.
unfoldable pub locktime_error : Option EscrowInfo → ℕ → Option String
locktime_error none now = none
locktime_error (some escrow) now =
    if truthy_number escrow.locktime
    then validate_escrow_locktime escrow.locktime (now / 1000) min_escrow_locktime_secs
    else none

-- The record that `createQueryAggregate` builds once its input is accepted.
unfoldable pub new_query : QueryInput → CreateQueryAggregateOptions → DomainServices → Query
unfolding includes
new_query input options services = record {
  id = services.query_id;
  schema = some (get_or input.schema default_query_schema);
  status = if is_escrow then awaiting_offers else pending;
  description = input.description;
  location_hint = input.location_hint;
  challenge_nonce = if includes requirements "nonce" then some services.challenge_nonce else none;
  verification_requirements = requirements;
  created_at = services.now;
  expires_at = services.now + options.ttl_ms;
  customer_meta = options.customer_meta;
  payment_lock = options.payment_lock;
  oracle_ids = options.oracle_ids;
  assigned_oracle_id = none;
  submitted_at = none;
  result = none;
  verification = none;
  submission_meta = none;
  payment_status = if is_escrow then escrow_locked else locked;
  escrow = options.escrow;
  offers = if is_escrow then some [] else none;
  nostr_event_id = options.nostr_event_id;
  blossom_keys = none;
  schema_requirement = input.schema_requirement;
  quorum = options.quorum;
  attestations = none;
}
  where
    requirements : List String
    requirements = get_or input.verification_requirements []

    is_escrow : Bool
    is_escrow = is_some options.escrow

unfoldable pub create_query_aggregate :
    UrlParser → QueryInput → CreateQueryAggregateOptions → DomainServices → TransitionResult
unfolding new_query locktime_error
create_query_aggregate parse input options services = elim (validate_query_input parse input) [
  | some error ↦ err error
  | none ↦ elim (locktime_error options.escrow services.now) [
    | some error ↦ err error
    | none ↦ ok (new_query input options services)
  ]
]
