-- ===== src/Proofs/Verifier/Tlsn.antt =====
-- The check of the TLSNotary schema: packages/sdk/src/proofs/verification/checks/tlsn.ts and
-- proofs/tlsn-schema.ts. The shared state is the replay guard's map.
use anchr.Prelude.{
  ℕ, String, List, [], ◌∷◌, ◌++◌, Option, none, some, if◌then◌else◌, truthy, or_else,
}
use anchr.Prelude.Json.{Json, Members, Numeral, optional}
use anchr.Proofs.ReplayGuard.{ReplayGuard, Seen, Call, after_calls}
use anchr.Proofs.Tlsn.Types.{
  TlsnRequirement, TlsnAttestation, TlsnExtensionResult, TlsnVerifiedData, is_tlsn_requirement,
  is_tlsn_attestation, is_tlsn_extension_result,
}
use anchr.Proofs.Tlsn.Verdict.{Platform, VerifierBinaryResult, TlsnValidationResult}
use anchr.Proofs.Tlsn.Validation.{Started, settled, runs, start_validate_tlsn, finish_validate_tlsn}
use anchr.Proofs.Verifier.{FactorCheck, CheckState, SchemaOptions, SchemaBundle}
use anchr.Proofs.Verifier.Media.{note_failure}

-- One validation from start to end: the times that it reads, the calls of the guard that others make
-- while it waits, and the verifier binary as a function of its path and the presentation. The platform
-- and the binary are those of the executor in force, of the options or the default one.
pub record Validator : Type 0 where
  pub platform : Platform
  pub guard : ReplayGuard
  pub started : ℕ
  pub now : ℕ
  pub added : ℕ
  pub evicted : ℕ
  pub meanwhile : List Call
  pub binary : String → TlsnAttestation → VerifierBinaryResult

unfoldable pub continue_validate_tlsn :
    Validator → TlsnAttestation → TlsnRequirement → Seen → Started → Seen × TlsnValidationResult
continue_validate_tlsn v attestation requirement seen (settled result) = (seen, result)
continue_validate_tlsn v attestation requirement seen (runs path) =
    finish_validate_tlsn v.platform v.guard v.now v.added v.evicted attestation requirement
      (v.binary path attestation) (after_calls v.guard v.meanwhile seen)

unfoldable pub validate_tlsn :
    Validator
    → Option (Option String)
    → TlsnAttestation
    → TlsnRequirement
    → Seen
    → Seen × TlsnValidationResult
validate_tlsn v verifier_path attestation requirement seen =
    let begun = start_validate_tlsn v.platform v.guard v.started verifier_path attestation seen in
    continue_validate_tlsn v attestation requirement begun.0 begun.1

-- `options.validateTlsn ?? validateTlsn`: a function of the caller leaves the guard alone.
unfoldable pub validate_with :
    Validator
    → SchemaOptions
    → TlsnAttestation
    → TlsnRequirement
    → Seen
    → Seen × TlsnValidationResult
unfolding validate_tlsn
validate_with v options attestation requirement seen = elim (options.validate_tlsn_fn) [
  | none ↦ validate_tlsn v options.verifier_path attestation requirement seen
  | some custom ↦ (seen, custom attestation requirement options.verifier_path)
]

abbrev pub text_or_absent : Option String → Option Json
text_or_absent none = none
text_or_absent (some s) = some (Json.text s)

unfoldable pub verified_json : TlsnVerifiedData → Json
verified_json d = Json.object (
    Members.member "server_name" (Json.text d.server_name) (
      Members.member "revealed_body" (Json.text d.revealed_body) (
        optional "revealed_headers" (text_or_absent d.revealed_headers) (
          Members.member "session_timestamp" (Json.number (Numeral.natural d.session_timestamp))
            Members.bare))))

abbrev pub verified_verdict : Option TlsnVerifiedData → Option Json
verified_verdict none = none
verified_verdict (some d) = some (verified_json d)

-- The checks and failures of a validation, added to the accumulator, with its verdict and the guard.
unfoldable pub add_result : Seen × TlsnValidationResult → CheckState Seen → CheckState Seen
add_result done state = record {
  acc = record state.acc {
    checks = state.acc.checks ++ done.1.checks;
    failures = state.acc.failures ++ done.1.failures;
  };
  schema_verdict = verified_verdict done.1.verified_data;
  world = done.0;
}

abbrev pub no_verdict : String → CheckState Seen → CheckState Seen
no_verdict why state = record (note_failure why state) { schema_verdict = none }

module _ (v : Validator) (options : SchemaOptions) where
  unfoldable pub verify_tlsn_attestation :
      TlsnAttestation → TlsnRequirement → CheckState Seen → CheckState Seen
  verify_tlsn_attestation attestation requirement state =
      add_result (validate_with v options attestation requirement state.world) state

  unfoldable pub verify_tlsn_extension_result :
      Option String → TlsnRequirement → CheckState Seen → CheckState Seen
  verify_tlsn_extension_result none requirement state =
      no_verdict
        "TLSNotary extension: no cryptographic presentation included — self-reported data cannot be trusted"
        state
  verify_tlsn_extension_result (some presentation) requirement state =
      if truthy presentation
      then verify_tlsn_attestation (record { presentation = presentation }) requirement state
      else no_verdict
          "TLSNotary extension: no cryptographic presentation included — self-reported data cannot be trusted"
          state

  unfoldable pub verify_other_evidence :
      Option TlsnAttestation → TlsnRequirement → CheckState Seen → CheckState Seen
  verify_other_evidence none requirement state =
      no_verdict "TLSNotary: invalid schema_evidence" state
  verify_other_evidence (some attestation) requirement state =
      verify_tlsn_attestation attestation requirement state

  unfoldable pub verify_evidence :
      Option TlsnExtensionResult → Option Json → TlsnRequirement → CheckState Seen → CheckState Seen
  verify_evidence none evidence requirement state =
      verify_other_evidence (is_tlsn_attestation evidence) requirement state
  verify_evidence (some result) evidence requirement state =
      verify_tlsn_extension_result result.presentation requirement state

  unfoldable pub verify_tlsn :
      Option TlsnRequirement → Option Json → CheckState Seen → CheckState Seen
  verify_tlsn none evidence state =
      no_verdict "TLSNotary: query missing or invalid schema_requirement" state
  verify_tlsn (some requirement) none state = no_verdict "TLSNotary: no attestation provided" state
  verify_tlsn (some requirement) (some evidence) state =
      verify_evidence (is_tlsn_extension_result (some evidence)) (some evidence) requirement state

-- `{ ...defaultOptions, ...ctx.schemaOptions }`.
abbrev pub merged : SchemaOptions → SchemaOptions → SchemaOptions
merged defaults given = record {
  validate_tlsn_fn = or_else given.validate_tlsn_fn defaults.validate_tlsn_fn;
  verifier_path = or_else given.verifier_path defaults.verifier_path;
  c2pa_tool_path = or_else given.c2pa_tool_path defaults.c2pa_tool_path;
}

unfoldable pub create_tlsn_check : Validator → SchemaOptions → FactorCheck Seen
create_tlsn_check v defaults = record {
  name = "tlsn";
  run = λ ctx state.
      verify_tlsn v (merged defaults ctx.schema_options)
        (is_tlsn_requirement ctx.requirement.schema_requirement) ctx.input.schema_evidence state;
}

abbrev pub tlsn_v1 : String
tlsn_v1 = "https://anchr-spec.org/spec/proof/tlsn/v1"

unfoldable pub create_tlsn_schema_bundle : Validator → SchemaOptions → SchemaBundle Seen
create_tlsn_schema_bundle v defaults = record {
  uri = tlsn_v1;
  checks = some (create_tlsn_check v defaults ∷ []);
  config_schema = some (λ options. some options);
}
