-- ===== src/Tests/Tlsn.antt =====
-- Runs of the TLSNotary validation and of the verifier on concrete evidence.
use anchr.Prelude.{
  String, true, false, [], ◌∷◌, none, some, ◌≡◌, refl, arith, inl, Eq-string, if◌then◌else◌, find,
  ◌==◌, Eq-nat,
}
use anchr.Prelude.Json.{Json, Members, Elements, property}
use anchr.Prelude.Dict.{lookup}
use anchr.Prelude.Chain.{◌>>=◌}
use anchr.Proofs.ReplayGuard.{
  ReplayGuard, Seen, has, adds, after_calls, evict, evict_stale, evict_excess,
}
use anchr.Proofs.Tlsn.Types.{
  TlsnRequirement, TlsnAttestation, TlsnCondition, ConditionType, is_tlsn_requirement,
  is_tlsn_condition, condition_type, read_all, is_tlsn_extension_result, is_tlsn_attestation,
}
use anchr.Protocol.Schema.{strip_prefix}
use anchr.Proofs.Tlsn.Regex.{
  is_suspicious_regex, strip_classes, repeated_alternation, repeated_repetition, closed_repeated,
  alternates,
}
use anchr.Proofs.Tlsn.Conditions.{Language, evaluate, evaluate_contains, has_part}
use anchr.Proofs.Tlsn.Verdict.{
  Platform, VerifierBinaryResult, TlsnValidationResult, is_younger, judge_proof, check_server,
  check_freshness, check_conditions, judge,
}
use anchr.Proofs.Tlsn.Validation.{
  Started, find_tlsn_verifier, resolve_tlsn_verifier, start_validate_tlsn, finish_validate_tlsn,
  settled, runs, refused, replay_failure, choose_binary,
}
use anchr.Proofs.Tlsn.Accepted.{unnamed_server_accepted, Fresh, Satisfied}
use anchr.Proofs.Tlsn.Replay.{replay_refused, concurrent_replay_accepted}
use anchr.Proofs.Verifier.{
  VerificationRequirement, VerificationInput, Bundles, verify_proof, get_schema_bundle, verify_with,
  run_checks, resolve_schema_options, no_options,
}
use anchr.Proofs.Verifier.Media.{create_generic_media_schema_bundle}
use anchr.Proofs.Verifier.Tlsn.{
  Validator, create_tlsn_schema_bundle, tlsn_v1, create_tlsn_check, validate_tlsn, validate_with,
  continue_validate_tlsn, verify_tlsn, verify_evidence, verify_other_evidence,
  verify_tlsn_extension_result, verify_tlsn_attestation, add_result,
}
use anchr.Proofs.Verifier.TlsnVerdict.{verify_proof-Proven, Presents, Proven}

abbrev language : Language
language = record {
  parse = λ body. none;
  exec = λ pattern. none;
  string_of = λ value. none;
  split_dots = λ path. path ∷ [];
}

abbrev platform : Platform
platform = record {
  language = language;
  sha256 = λ s. s;
  hostname = λ url. if url == "https://api.example" then some "api.example" else none;
  younger_than = λ age s. false;
  local_paths = [];
  is_file = λ path. false;
  which = λ name. some "/bin/tlsn-verifier";
}

abbrev guard : ReplayGuard
guard = record { retention = 1000; max = 10 }

abbrev price : TlsnCondition
price = record {
  type = ConditionType.contains;
  expression = "price";
  expected = none;
  description = none;
}

abbrev requirement_for : String → TlsnRequirement
requirement_for url = record {
  target_url = url;
  method = none;
  conditions = some (price ∷ []);
  max_attestation_age_seconds = none;
  domain_hint = none;
}

abbrev proof : TlsnAttestation
proof = record { presentation = "proof" }

abbrev answer : VerifierBinaryResult
answer = record {
  signature_valid = true;
  verified_server_name = some "api.example";
  verified_body = some "the price";
  verified_headers = none;
  verified_time = some 5;
  error = none;
}

answer-Fresh : (url : String) → Fresh platform 6000 (requirement_for url) answer
unfolding is_younger
answer-Fresh url = (5, refl, omega arith, refl)

answer-Satisfied : Satisfied language (price ∷ []) "the price"
unfolding evaluate evaluate_contains has_part strip_prefix
answer-Satisfied = (refl, tt)

-- The target is no URL, and the proof is of another server.
unnamed_server_accepted_example :
    (finish_validate_tlsn platform guard 6000 6001 6002 proof
      (requirement_for "api.example")
      (record answer { verified_server_name = some "evil.example" })
      []).1.failures
    ≡ []
unnamed_server_accepted_example =
    unnamed_server_accepted platform guard 6000 6001 6002 proof (requirement_for "api.example")
      answer [] (some "evil.example") (inl refl) refl (answer-Fresh "api.example") answer-Satisfied

replay_refused_example :
    (start_validate_tlsn platform guard 6500 none proof (
      after_calls guard (adds 6100 6100 "other" ∷ []) (
        (finish_validate_tlsn platform guard 6000 6001 6002 proof
          (requirement_for "https://api.example")
          answer
          []).0))).1
    ≡ settled (refused true replay_failure)
unfolding lookup
replay_refused_example =
    replay_refused platform guard none proof (requirement_for "https://api.example") answer [] 6000
      6001 6002 6500 (adds 6100 6100 "other" ∷ []) refl refl (omega arith) (omega arith)
      ((omega arith, omega arith), tt) (omega arith)

abbrev started_first : Seen × Started
started_first = start_validate_tlsn platform guard 5500 none proof []

abbrev started_second : Seen × Started
started_second = start_validate_tlsn platform guard 5600 none proof started_first.0

abbrev finished_first : Seen × TlsnValidationResult
finished_first =
    finish_validate_tlsn platform guard 6000 6001 6002 proof (requirement_for "https://api.example")
      answer started_second.0

concurrent_replay_accepted_example :
    (started_first.1 ≡ runs "/bin/tlsn-verifier")
    × (started_second.1 ≡ runs "/bin/tlsn-verifier")
    × (finished_first.1 ≡ judge_proof platform 6000 (requirement_for "https://api.example") answer)
    × ((finish_validate_tlsn platform guard 6100 6101 6102 proof
          (requirement_for "https://api.example")
          answer
          finished_first.0).1
        ≡ judge_proof platform 6100 (requirement_for "https://api.example") answer)
unfolding resolve_tlsn_verifier find_tlsn_verifier lookup find
concurrent_replay_accepted_example =
    concurrent_replay_accepted platform guard none proof (requirement_for "https://api.example")
      answer [] "/bin/tlsn-verifier" 5500 5600 6000 6001 6002 6100 6101 6102 refl refl refl refl

-- Two patterns that take exponential time and pass the guard.
nested_optional_passes : is_suspicious_regex "(a+b?)+$" ≡ false
unfolding is_suspicious_regex strip_classes repeated_alternation repeated_repetition closed_repeated
    alternates
nested_optional_passes = refl

nested_alternation_passes : is_suspicious_regex "((a)|a)+$" ≡ false
unfolding is_suspicious_regex strip_classes repeated_alternation repeated_repetition closed_repeated
    alternates
nested_alternation_passes = refl

abbrev query : VerificationRequirement
query = record {
  id = "q1";
  schema = none;
  factors = [];
  description = none;
  challenge_nonce = none;
  schema_requirement = none;
  escrow_token_hash = none;
}

abbrev nothing : VerificationInput
nothing = record { attachments = []; schema_evidence = none }

abbrev media_bundles : Bundles Seen
media_bundles =
    ("https://anchr-spec.org/spec/proof/photo/v1", create_generic_media_schema_bundle) ∷ []

abbrev validator : Validator
validator = record {
  platform = platform;
  guard = guard;
  started = 5500;
  now = 6000;
  added = 6001;
  evicted = 6002;
  meanwhile = [];
  binary = λ path a. answer;
}

abbrev requirement_json : Json
requirement_json = Json.object (
    Members.member "target_url" (Json.text "https://api.example") (
      Members.member "conditions"
        (Json.array (
          Elements.element
            (Json.object (
              Members.member "type" (Json.text "contains")
                (Members.member "expression" (Json.text "price") Members.bare)))
            Elements.empty))
        Members.bare))

abbrev web_query : VerificationRequirement
web_query = record query { schema = some tlsn_v1; schema_requirement = some requirement_json }

abbrev web_evidence : VerificationInput
web_evidence = record {
  attachments = [];
  schema_evidence =
      some (Json.object (Members.member "presentation" (Json.text "proof") Members.bare));
}

abbrev web_bundles : Bundles Seen
web_bundles = (tlsn_v1, create_tlsn_schema_bundle validator no_options) ∷ []

web_query_passes :
    (verify_proof (λ v. "") web_bundles web_query web_evidence [] [] >>= λ done. some done.0.passed)
    ≡ some true
unfolding verify_proof verify_with run_checks resolve_schema_options get_schema_bundle
    create_tlsn_schema_bundle create_tlsn_check validate_with validate_tlsn continue_validate_tlsn
    verify_tlsn verify_evidence verify_other_evidence verify_tlsn_extension_result
    verify_tlsn_attestation add_result start_validate_tlsn finish_validate_tlsn choose_binary
    resolve_tlsn_verifier find_tlsn_verifier find has evict evict_stale evict_excess lookup
    judge_proof check_server check_freshness is_younger check_conditions judge evaluate
    evaluate_contains has_part strip_prefix is_tlsn_requirement is_tlsn_condition condition_type
    read_all property is_tlsn_extension_result is_tlsn_attestation
web_query_passes = refl

verify_proof-Proven_example :
    (a : TlsnAttestation) × Presents web_evidence.schema_evidence a
    × Proven validator no_options (requirement_for "https://api.example") "api.example" [] a
unfolding get_schema_bundle lookup is_tlsn_requirement is_tlsn_condition condition_type read_all
    property
verify_proof-Proven_example =
    verify_proof-Proven validator (λ v. "") web_bundles web_query web_evidence no_options [] []
      (requirement_for "https://api.example") "api.example" refl refl refl refl refl refl
      web_query_passes
