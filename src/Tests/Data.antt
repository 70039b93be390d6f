-- ===== src/Tests/Data.antt =====
-- The requests, oracles and collaborators that the tests use.
use anchr.Prelude.{String, Bool, true, false, none, some, [], ◌∷◌}
use anchr.Protocol.Schema.{UrlParser}
use anchr.Requests.Types.{
  Query, QueryResult, EscrowInfo, htlc, VerificationDetail, SubmissionMeta, OfferInfo,
  OracleAttestation, ExecutorType, adapter, finite, pending, awaiting_offers, processing, verifying,
  locked, escrow_locked,
}
use anchr.Requests.Finalize.{ServiceDeps, EscrowProvider}
use anchr.Oracles.Registry.{Oracle, OracleRegistry, resolve, resolve_multiple}
use anchr.Payments.Preimage.{PreimageStore}

abbrev pub no_urls : UrlParser
no_urls value = none

-- A query without an escrow, open until the time 1000.
abbrev pub simple_query : Query
simple_query = record {
  id = "q1";
  schema = none;
  status = pending;
  description = "a photo of the station";
  location_hint = none;
  challenge_nonce = none;
  verification_requirements = [];
  created_at = 100;
  expires_at = 1000;
  customer_meta = none;
  payment_lock = some (record { amount_sats = 21; escrow_token = none });
  oracle_ids = some ("o1" ∷ []);
  assigned_oracle_id = none;
  submitted_at = none;
  result = none;
  verification = none;
  submission_meta = none;
  payment_status = locked;
  escrow = none;
  offers = none;
  nostr_event_id = none;
  blossom_keys = none;
  schema_requirement = none;
  quorum = none;
  attestations = none;
}

abbrev pub htlc_escrow : EscrowInfo
htlc_escrow = record {
  lock = htlc "h1";
  oracle_pubkeys = "o1" ∷ [];
  customer_pubkey = "c1";
  provider_pubkey = none;
  locktime = finite 5000;
  escrow_token = some "token";
  verified_escrow_sats = none;
  escrow_ref = none;
}

-- A query with an HTLC escrow that awaits offers.
abbrev pub escrow_query : Query
escrow_query = record simple_query {
  id = "q2";
  status = awaiting_offers;
  payment_status = escrow_locked;
  escrow = some htlc_escrow;
  offers = some [];
}

abbrev pub bound_escrow : EscrowInfo
bound_escrow = record htlc_escrow { provider_pubkey = some "p1" }

-- The same query while the provider p1 works on it, and under verification.
abbrev pub working_query : Query
working_query = record escrow_query { status = processing; escrow = some bound_escrow }

abbrev pub photo : QueryResult
photo = record { attachments = []; notes = some "done"; schema_evidence = none }

abbrev pub verifying_query : Query
verifying_query = record working_query {
  status = verifying;
  result = some photo;
  submitted_at = some 200;
}

abbrev pub passing : VerificationDetail
passing = record {
  passed = true;
  checks = [];
  failures = [];
  warnings = none;
  schema_verdict = none;
}

abbrev pub by_hand : SubmissionMeta
by_hand = record { executor_type = ExecutorType.human; channel = adapter }

abbrev pub offer_of_p1 : OfferInfo
offer_of_p1 = record {
  provider_pubkey = "p1";
  amount_sats = some 20;
  offer_event_id = "e1";
  received_at = 150;
}

abbrev pub verdict_by : String → Bool → Query → OracleAttestation
verdict_by id passed q = record {
  oracle_id = id;
  query_id = q.id;
  passed = passed;
  checks = [];
  failures = [];
  attested_at = 300;
  schema_verdict = none;
}

-- An oracle that always gives the same verdict.
abbrev pub oracle_that : String → Bool → Oracle
oracle_that id passed = record {
  info = record {
    id = id;
    name = id;
    endpoint = none;
    fee_ppm = 0;
    supported_schemas = none;
    supported_payment_lock_types = none;
    min_amount_sats = none;
    max_amount_sats = none;
    description = none;
  };
  verify = λ q r k. verdict_by id passed q;
}

abbrev pub o1 : Oracle
o1 = oracle_that "o1" true

abbrev pub o2 : Oracle
o2 = oracle_that "o2" false

abbrev pub two_oracles : OracleRegistry
two_oracles = ("o1", o1) ∷ ("o2", o2) ∷ []

abbrev pub accepting_port : EscrowProvider
accepting_port = record {
  verify = λ ref sats. record { valid = true; amount_sats = some sats; error = none };
  verify_lock = λ ref hash key. record { ok = true; message = none };
}

abbrev pub wired : ServiceDeps
wired = record {
  oracle_resolver = resolve two_oracles;
  multi_oracle_resolver = some (resolve_multiple two_oracles);
  escrow_provider = some accepting_port;
  frost_signature = none;
  normalize_result = none;
}

abbrev pub one_preimage : PreimageStore
one_preimage = ("h1", record { hash = "h1"; preimage = "s1"; created_at = 1 }) ∷ []
