-- ===== src/Oracles/Quorum.antt =====
-- Verification by one oracle or by a quorum, packages/sdk/src/requests/application/query-verification.ts.
-- The resolvers are the callbacks that the service injects.
pub mod Threshold
use anchr.Prelude.{
  ℕ, ◌+◌, String, Bool, true, false, ◌&&◌, List, [], ◌∷◌, ◌++◌, map, Option, none, some, ltb, leb,
  length, if◌then◌else◌, keep, find, is_some, truthy, template, decimal,
}
use anchr.Requests.Types.{
  Query, QueryResult, BlossomKeyMap, OracleAttestation, OracleAttestationRecord, VerificationDetail,
  QuorumConfig,
}
use anchr.Oracles.Registry.{Oracle, restricts}

pub record QuorumVerificationResult : Type 0 where
  pub passed : Bool
  pub attestations : List OracleAttestationRecord
  pub verification : VerificationDetail

abbrev pub OracleResolver : Type 0
OracleResolver = Option String → Option (List String) → Option Oracle

abbrev pub MultiOracleResolver : Type 0
MultiOracleResolver = Option (List String) → ℕ → List Oracle

unfoldable pub to_attestation_record : OracleAttestation → OracleAttestationRecord
to_attestation_record a = record {
  oracle_id = a.oracle_id;
  passed = a.passed;
  checks = a.checks;
  failures = a.failures;
  attested_at = a.attested_at;
  schema_verdict = a.schema_verdict;
}

-- A failed verdict with no attestation.
abbrev pub unverified : String → QuorumVerificationResult
unverified failure = record {
  passed = false;
  attestations = [];
  verification = record {
    passed = false;
    checks = [];
    failures = failure ∷ [];
    warnings = none;
    schema_verdict = none;
  };
}

-- `id ? `Oracle "${id}" …` : …` for the id that is asked for.
unfoldable pub unavailable : Option String → String
unavailable none = "No oracle available for this query"
unavailable (some id) =
    if truthy id
    then template ("Oracle \"" ∷ id ∷ "\" is not available or not accepted for this query" ∷ [])
    else "No oracle available for this query"

-- The result of a single attestation.
unfoldable pub single_verdict : OracleAttestation → QuorumVerificationResult
unfolding to_attestation_record
single_verdict att = record {
  passed = att.passed;
  attestations = to_attestation_record att ∷ [];
  verification = record {
    passed = att.passed;
    checks = att.checks;
    failures = att.failures;
    warnings = none;
    schema_verdict = att.schema_verdict;
  };
}

unfoldable pub verify_single_oracle :
    Query
    → QueryResult
    → OracleResolver
    → Option String
    → Option BlossomKeyMap
    → QuorumVerificationResult
unfolding single_verdict unavailable
verify_single_oracle query result resolve_oracle effective blossom_keys =
    elim (resolve_oracle effective query.oracle_ids) [
      | none ↦ unverified (unavailable effective)
      | some oracle ↦ single_verdict (oracle.verify query result blossom_keys)
    ]

-- `xs.flatMap(f)`.
abbrev pub flat_map {ℓ κ} : {A : Type ℓ} {B : Type κ} → (A → List B) → List A → List B
flat_map f [] = []
flat_map f (x ∷ xs) = f x ++ flat_map f xs

abbrev pub verdict_of : Option OracleAttestationRecord → Option String
verdict_of none = none
verdict_of (some a) = a.schema_verdict

-- `records.filter((a) => a.passed).length`.
unfoldable pub pass_count : List OracleAttestationRecord → ℕ
unfolding keep
pass_count records = length (keep (λ a. a.passed) records)

-- The result of the attestations that were collected.
unfoldable pub tally : ℕ → List OracleAttestationRecord → QuorumVerificationResult
unfolding pass_count find
tally min_approvals records =
    let passed = leb min_approvals (pass_count records) in
    record {
      passed = passed;
      attestations = records;
      verification = record {
        passed = passed;
        checks = flat_map (λ a. a.checks) records;
        failures = flat_map (λ a. a.failures) records;
        warnings = none;
        schema_verdict = verdict_of (find (λ a. a.passed) records);
      };
    }

unfoldable pub verify_quorum :
    Query
    → QueryResult
    → ℕ
    → Option MultiOracleResolver
    → Option BlossomKeyMap
    → QuorumVerificationResult
unfolding tally
verify_quorum query result min_approvals none blossom_keys =
    unverified "No oracle registry with resolveMultiple support"
verify_quorum query result min_approvals (some resolve_multiple) blossom_keys =
    let oracles = resolve_multiple query.oracle_ids (min_approvals + 2) in
    if ltb (length oracles) min_approvals
    then unverified (
        template (
          "Need "
          ∷ decimal min_approvals
          ∷ " oracles but only "
          ∷ decimal (length oracles)
          ∷ " available"
          ∷ []))
    else tally min_approvals
        (map (λ o. to_attestation_record (o.verify query result blossom_keys)) oracles)

-- `query.oracle_ids?.length ? oracleId : undefined`: without a list of acceptable oracles the id
-- that the provider supplies is ignored.
unfoldable pub effective_oracle_id : Query → Option String → Option String
effective_oracle_id query oracle_id = if restricts query.oracle_ids then oracle_id else none

unfoldable pub verify_with_quorum :
    Query
    → QueryResult
    → OracleResolver
    → Option MultiOracleResolver
    → Option BlossomKeyMap
    → Option String
    → QuorumVerificationResult
unfolding effective_oracle_id verify_single_oracle verify_quorum
verify_with_quorum query result resolve_oracle resolve_multiple blossom_keys oracle_id =
    elim (query.quorum) [
      | none ↦
          verify_single_oracle query result resolve_oracle (effective_oracle_id query oracle_id)
            blossom_keys
      | some quorum ↦ verify_quorum query result quorum.min_approvals resolve_multiple blossom_keys
    ]
