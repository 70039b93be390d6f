-- ===== src/Requests/Finalize.antt =====
-- The service's collaborators and the step that turns a verification into a settled query:
-- packages/sdk/src/requests/application/query-service-deps.ts, verification-orchestration.ts,
-- query-escrow-validation.ts, query-service-types.ts and ports.ts.
use anchr.Prelude.{ℕ, ◌*◌, String, Bool, not, List, Option, none, some, if◌then◌else◌, truthy}
use anchr.Requests.Types.{
  Query, QueryResult, CustomerMeta, PaymentLockInfo, EscrowInfo, QuorumConfig, BlossomKeyMap,
  VerificationDetail, OracleAttestationRecord, approved, rejected, released, cancelled,
}
use anchr.Requests.Aggregate.{first_oracle, kept_attestations}
use anchr.Oracles.Quorum.{
  OracleResolver, MultiOracleResolver, QuorumVerificationResult, verify_with_quorum,
}
use anchr.Payments.Preimage.{PreimageStore, get_preimage, remove}

-- What `EscrowProvider.verify` resolves to.
pub record AmountCheck : Type 0 where
  pub valid : Bool
  pub amount_sats : Option ℕ
  pub error : Option String

-- What `EscrowProvider.verifyLock` resolves to.
pub record LockCheck : Type 0 where
  pub ok : Bool
  pub message : Option String

-- The operations of the escrow provider that the service calls.
pub record EscrowProvider : Type 0 where
  pub verify : String → ℕ → AmountCheck
  pub verify_lock : String → String → String → LockCheck

-- `requestSignature`; `none` where it resolves to null or is rejected.
abbrev pub FrostSignaturePort : Type 0
FrostSignaturePort = Query → QueryResult → Option BlossomKeyMap → Option (List String)

-- The collaborators that keep no state of the service. The stores are passed on their own.
pub record ServiceDeps : Type 0 where
  pub oracle_resolver : OracleResolver
  pub multi_oracle_resolver : Option MultiOracleResolver
  pub escrow_provider : Option EscrowProvider
  pub frost_signature : Option FrostSignaturePort
  pub normalize_result : Option (QueryResult → QueryResult)

-- `(deps.normalizeResult ?? identityNormalize)(result)`.
unfoldable pub normalize : ServiceDeps → QueryResult → QueryResult
normalize deps result = elim (deps.normalize_result) [ none ↦ result | some f ↦ f result ]

pub record CreateQueryOptions : Type 0 where
  pub ttl_ms : Option ℕ
  pub ttl_seconds : Option ℕ
  pub customer_meta : Option CustomerMeta
  pub payment_lock : Option PaymentLockInfo
  pub oracle_ids : Option (List String)
  pub escrow : Option EscrowInfo
  pub nostr_event_id : Option String
  pub quorum : Option QuorumConfig

abbrev pub default_ttl_ms : ℕ
default_ttl_ms = 600000

-- `resolveTtlMs`. Options that are left out read as options with every key left out.
unfoldable pub resolve_ttl_ms : CreateQueryOptions → ℕ
resolve_ttl_ms options = elim (options.ttl_ms) [
  | some ms ↦ ms
  | none ↦ elim (options.ttl_seconds) [ some s ↦ s * 1000 | none ↦ default_ttl_ms ]
]

pub record Finalized : Type 0 where
  pub passed : Bool
  pub attestations : List OracleAttestationRecord
  pub verification : VerificationDetail
  pub updated : Query

-- The record of a query that is settled by a verification.
unfoldable pub finalize : Query → QuorumVerificationResult → Finalized
finalize query v = record {
  passed = v.passed;
  attestations = v.attestations;
  verification = v.verification;
  updated = record query {
    status = if v.passed then approved else rejected;
    payment_status = if v.passed then released else cancelled;
    verification = some v.verification;
    assigned_oracle_id = first_oracle (some v.attestations);
    attestations = kept_attestations query (some v.attestations);
  };
}

unfoldable pub verify_and_finalize :
    Query → QueryResult → ServiceDeps → Option BlossomKeyMap → Option String → Finalized
unfolding finalize
verify_and_finalize query normalized deps blossom_keys oracle_id = finalize query (
    verify_with_quorum query normalized deps.oracle_resolver deps.multi_oracle_resolver blossom_keys
      oracle_id)

-- The preimage is revealed once: what is returned is deleted from the store.
unfoldable pub try_reveal_preimage :
    Option PreimageStore → Option String → Bool → Option PreimageStore × Option String
unfolding get_preimage remove
try_reveal_preimage none hash passed = (none, none)
try_reveal_preimage (some entries) none passed = (some entries, none)
try_reveal_preimage (some entries) (some hash) passed =
    if not passed
    then (some entries, none)
    else if not (truthy hash)
    then (some entries, none)
    else elim (get_preimage entries hash) [
      | none ↦ (some entries, none)
      | some preimage ↦
          if truthy preimage
          then (some (remove entries hash), some preimage)
          else (some entries, none)
    ]
