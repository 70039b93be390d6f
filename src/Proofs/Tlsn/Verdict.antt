-- ===== src/Proofs/Tlsn/Verdict.antt =====
-- The verdict of `validateTlsn`, packages/sdk/src/proofs/tlsn-validation.ts, on a proof whose signature
-- the verifier binary has confirmed.
use anchr.Prelude.{
  ℕ, ◌+◌, ◌*◌, ◌-◌, ◌/◌, String, Bool, true, false, not, ◌&&◌, List, [], ◌∷◌, ◌++◌, Option, none,
  some, leb, ltb, nat_eq, if◌then◌else◌, ◌==◌, Eq-string, truthy, template, decimal, or_else,
}
use anchr.Prelude.Json.{Numeral}
use anchr.Proofs.Tlsn.Types.{TlsnCondition, TlsnRequirement, TlsnVerifiedData, ConditionType}
use anchr.Proofs.Tlsn.Conditions.{Language, Evaluated, evaluate_condition}
use mathlib.Core.Option.{get_or}

-- The platform: hashing, URLs, numbers that are no natural numbers, and where the binary may lie.
pub record Platform : Type 0 where
  pub language : Language
  pub sha256 : String → String
  pub hostname : String → Option String
  -- `ageMs < seconds * 1000` for another number of seconds, which is given by its text.
  pub younger_than : ℕ → String → Bool
  pub local_paths : List String
  pub is_file : String → Bool
  pub which : String → Option String

pub record ConditionResult : Type 0 where
  pub condition : TlsnCondition
  pub passed : Bool
  pub actual_value : Option String

pub record TlsnValidationResult : Type 0 where
  pub available : Bool
  pub signature_valid : Bool
  pub server_identity_valid : Bool
  pub condition_results : List ConditionResult
  pub attestation_fresh : Bool
  pub verified_data : Option TlsnVerifiedData
  pub checks : List String
  pub failures : List String

pub record VerifierBinaryResult : Type 0 where
  pub signature_valid : Bool
  pub verified_server_name : Option String
  pub verified_body : Option String
  pub verified_headers : Option String
  pub verified_time : Option ℕ
  pub error : Option String

abbrev pub default_max_age_seconds : ℕ
default_max_age_seconds = 300

-- What one step of the checks adds.
pub record Findings : Type 0 where
  pub holds : Bool
  pub checks : List String
  pub failures : List String

-- `verifiedServerName === expectedHostname`.
abbrev pub is_same : Option String → String → Bool
is_same none expected = false
is_same (some name) expected = name == expected

unfoldable pub check_server : Option String → Option String → Findings
check_server none verified = record { holds = false; checks = []; failures = [] }
check_server (some expected) verified =
    if not (truthy expected)
    then record { holds = false; checks = []; failures = [] }
    else if is_same verified expected
    then record {
      holds = true;
      checks = template ("TLSNotary: server name matches target (" ∷ expected ∷ ")" ∷ []) ∷ [];
      failures = [];
    }
    else record {
      holds = false;
      checks = [];
      failures =
          template (
            "TLSNotary: server name \""
            ∷ get_or verified "unknown"
            ∷ "\" does not match target \""
            ∷ expected
            ∷ "\""
            ∷ [])
          ∷ [];
    }

abbrev pub numeral_text : Numeral → String
numeral_text (Numeral.natural n) = decimal n
numeral_text (Numeral.other s) = s

-- `ageMs < maxAgeSeconds * 1000`, for an age that is not negative.
unfoldable pub is_younger : Platform → ℕ → Numeral → Bool
is_younger platform age (Numeral.natural seconds) = ltb age (seconds * 1000)
is_younger platform age (Numeral.other s) = platform.younger_than age s

-- `Math.round(ageMs / 1000)` for `now - then`: halves are rounded up.
unfoldable pub rounded_age : ℕ → ℕ → String
rounded_age now since =
    if leb since now
    then decimal ((now - since + 500) / 1000)
    else let behind = (since - now + 499) / 1000 in
      if nat_eq behind 0 then "0" else template ("-" ∷ decimal behind ∷ [])

unfoldable pub check_freshness : Platform → ℕ → Numeral → Option ℕ → Findings
check_freshness platform now max_age none = record {
  holds = false;
  checks = [];
  failures = "TLSNotary: no timestamp in proof — cannot verify attestation freshness" ∷ [];
}
check_freshness platform now max_age (some time) =
    if leb (time * 1000) now && is_younger platform (now - time * 1000) max_age
    then record {
      holds = true;
      checks =
          template (
            "TLSNotary: attestation fresh ("
            ∷ rounded_age now (time * 1000)
            ∷ "s old, max "
            ∷ numeral_text max_age
            ∷ "s)"
            ∷ [])
          ∷ [];
      failures = [];
    }
    else record {
      holds = false;
      checks = [];
      failures =
          template (
            "TLSNotary: attestation too old ("
            ∷ rounded_age now (time * 1000)
            ∷ "s, max "
            ∷ numeral_text max_age
            ∷ "s)"
            ∷ [])
          ∷ [];
    }

abbrev pub type_text : ConditionType → String
type_text ConditionType.contains = "contains"
type_text ConditionType.regex = "regex"
type_text ConditionType.jsonpath = "jsonpath"

abbrev pub condition_label : TlsnCondition → String
condition_label c = get_or c.description (template (type_text c.type ∷ ":" ∷ c.expression ∷ []))

-- The loop over the conditions: its results, and the two lists that it appends to.
pub record Judged : Type 0 where
  pub results : List ConditionResult
  pub checks : List String
  pub failures : List String

unfoldable pub judge : TlsnCondition → Evaluated → Judged → Judged
judge c evaluated rest = record {
  results =
      record { condition = c; passed = evaluated.passed; actual_value = evaluated.actual_value }
      ∷ rest.results;
  checks =
      if evaluated.passed
      then template ("TLSNotary condition passed: " ∷ condition_label c ∷ []) ∷ rest.checks
      else rest.checks;
  failures =
      if evaluated.passed
      then rest.failures
      else template ("TLSNotary condition failed: " ∷ condition_label c ∷ []) ∷ rest.failures;
}

unfoldable pub check_conditions : Language → List TlsnCondition → String → Judged
check_conditions language [] body = record { results = []; checks = []; failures = [] }
check_conditions language (c ∷ cs) body =
    judge c (evaluate_condition language c body) (check_conditions language cs body)

abbrev pub conditions_of : Option (List TlsnCondition) → List TlsnCondition
conditions_of none = []
conditions_of (some cs) = cs

-- `requirement.domain_hint ?? extractHostname(requirement.target_url)`.
abbrev pub expected_hostname : Platform → TlsnRequirement → Option String
expected_hostname platform requirement =
    or_else requirement.domain_hint (platform.hostname requirement.target_url)

abbrev pub max_age : TlsnRequirement → Numeral
max_age requirement =
    get_or requirement.max_attestation_age_seconds (Numeral.natural default_max_age_seconds)

-- The verdict on a proof whose signature is valid.
unfoldable pub judge_proof :
    Platform → ℕ → TlsnRequirement → VerifierBinaryResult → TlsnValidationResult
judge_proof platform now requirement crypto =
    let body = get_or crypto.verified_body "" in
    let server =
      check_server (expected_hostname platform requirement) crypto.verified_server_name in
    let fresh = check_freshness platform now (max_age requirement) crypto.verified_time in
    let judged = check_conditions platform.language (conditions_of requirement.conditions) body in
    record {
      available = true;
      signature_valid = true;
      server_identity_valid = server.holds;
      condition_results = judged.results;
      attestation_fresh = fresh.holds;
      verified_data = some (record {
        server_name = get_or crypto.verified_server_name "";
        revealed_body = body;
        revealed_headers = crypto.verified_headers;
        session_timestamp = get_or crypto.verified_time 0;
      });
      checks =
          "TLSNotary: presentation signature valid (cryptographically verified)"
          ∷ (server.checks ++ fresh.checks ++ judged.checks);
      failures = server.failures ++ fresh.failures ++ judged.failures;
    }
