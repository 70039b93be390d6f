-- ===== src/Proofs/Verifier/TlsnVerdict.antt =====
-- What a passing verdict of `verifyProof` says under the schema of TLSNotary.
use anchr.Prelude.{
  String, true, false, List, [], ◌∷◌, Option, none, some, truthy, ◌≡◌, refl, arith, Bool-cases, ◌⊎◌,
  inl, inr, Eq-string,
}
use anchr.Prelude.Json.{Json}
use anchr.Prelude.Dict.{Dict, lookup}
use anchr.Prelude.Chain.{◌>>=◌}
use anchr.Proofs.ReplayGuard.{Seen, has}
use anchr.Proofs.Tlsn.Types.{
  TlsnRequirement, TlsnAttestation, TlsnExtensionResult, is_tlsn_requirement, is_tlsn_attestation,
  is_tlsn_extension_result,
}
use anchr.Proofs.Tlsn.Verdict.{TlsnValidationResult, expected_hostname, conditions_of}
use anchr.Proofs.Tlsn.Validation.{
  Started, settled, runs, start_validate_tlsn, choose_binary, resolve_tlsn_verifier,
}
use anchr.Proofs.Tlsn.Accepted.{accepted_presentation, Fresh, Satisfied}
use anchr.Proofs.Verifier.{
  VerificationRequirement, VerificationInput, SchemaOptions, Bundles, CheckState, get_schema_bundle,
  generic_media_schema_uri, verify_proof, verify_with, run_checks, resolve_schema_options, has_none,
  empty_accumulator, no_options,
}
use anchr.Proofs.Verifier.Tlsn.{
  Validator, merged, validate_with, create_tlsn_schema_bundle, create_tlsn_check, tlsn_v1,
  validate_tlsn, continue_validate_tlsn, verify_tlsn, verify_evidence, verify_other_evidence,
  verify_tlsn_extension_result, verify_tlsn_attestation, add_result,
}
use mathlib.Core.Option.{get_or}

-- The presentation was not known, and its proof is valid by the binary that the options choose, from
-- the server, fresh and as required.
abbrev pub Proven :
    Validator → SchemaOptions → TlsnRequirement → String → Seen → TlsnAttestation → Type 0
Proven v options requirement host seen attestation =
    (path : String) × (resolve_tlsn_verifier v.platform options.verifier_path ≡ some path)
    × ((has v.guard v.started (v.platform.sha256 attestation.presentation) seen).1 ≡ false)
    × ((v.binary path attestation).signature_valid ≡ true)
    × ((v.binary path attestation).verified_server_name ≡ some host)
    × Fresh v.platform v.now requirement (v.binary path attestation)
    × Satisfied v.platform.language (conditions_of requirement.conditions)
        (get_or (v.binary path attestation).verified_body "")

choose_binary-fails :
    (path : Option String) (result : TlsnValidationResult)
    → choose_binary path ≡ settled result
    → has_none result.failures ≡ false
unfolding choose_binary
choose_binary-fails none result h = ground arith
choose_binary-fails (some p) result h = ground arith

-- A validation that ends before its binary runs has a failure.
settled-fails :
    (v : Validator) (options : SchemaOptions) (attestation : TlsnAttestation) (seen : Seen)
    (result : TlsnValidationResult)
    → (start_validate_tlsn v.platform v.guard v.started options.verifier_path attestation seen).1
      ≡ settled result
    → has_none result.failures ≡ false
unfolding start_validate_tlsn
settled-fails v options attestation seen result h =
    ground
      (arith, choose_binary-fails (resolve_tlsn_verifier v.platform options.verifier_path) result)

choose_binary-runs :
    (found : Option String) (path : String) → choose_binary found ≡ runs path → found ≡ some path
unfolding choose_binary
choose_binary-runs none path h = ground arith
choose_binary-runs (some p) path h = ground arith

running-path :
    (v : Validator) (options : SchemaOptions) (attestation : TlsnAttestation) (seen : Seen)
    (path : String)
    → (start_validate_tlsn v.platform v.guard v.started options.verifier_path attestation seen).1
      ≡ runs path
    → resolve_tlsn_verifier v.platform options.verifier_path ≡ some path
unfolding start_validate_tlsn
running-path v options attestation seen path h =
    ground (arith, choose_binary-runs (resolve_tlsn_verifier v.platform options.verifier_path) path)

running-unknown :
    (v : Validator) (options : SchemaOptions) (attestation : TlsnAttestation) (seen : Seen)
    (path : String)
    → (start_validate_tlsn v.platform v.guard v.started options.verifier_path attestation seen).1
      ≡ runs path
    → (has v.guard v.started (v.platform.sha256 attestation.presentation) seen).1 ≡ false
unfolding start_validate_tlsn
running-unknown v options attestation seen path h = ground arith

no_failures : (failures : List String) → has_none failures ≡ true → failures ≡ []
no_failures [] h = refl
no_failures (x ∷ xs) h = ground arith

-- The presentation that an evidence holds, of the browser extension or alone.
abbrev pub Presents : Option Json → TlsnAttestation → Type 0
Presents evidence a =
    ((result : TlsnExtensionResult) × (is_tlsn_extension_result evidence ≡ some result)
      × (result.presentation ≡ some a.presentation))
    ⊎ (is_tlsn_attestation evidence ≡ some a)

module _ (v : Validator) (options : SchemaOptions) (requirement : TlsnRequirement) (host : String)
    (built_in : options.validate_tlsn_fn ≡ none)
    (named : expected_hostname v.platform requirement ≡ some host) (full : truthy host ≡ true) where
  continue-Proven :
      (attestation : TlsnAttestation) (seen : Seen) (begun : Started)
      → (start_validate_tlsn v.platform v.guard v.started options.verifier_path attestation seen).1
        ≡ begun
      → has_none
          (continue_validate_tlsn v attestation requirement
            (start_validate_tlsn v.platform v.guard v.started options.verifier_path attestation
              seen).0
            begun).1.failures
        ≡ true
      → Proven v options requirement host seen attestation
  unfolding continue_validate_tlsn
  continue-Proven attestation seen (settled result) same h =
      ground (arith, settled-fails v options attestation seen result same)
  continue-Proven attestation seen (runs path) same h =
      let sound =
        accepted_presentation v.platform v.guard v.now v.added v.evicted attestation requirement
          (v.binary path attestation) _ host named full (no_failures _ h) in
      (
        path,
        running-path v options attestation seen path same,
        running-unknown v options attestation seen path same,
        sound.0,
        sound.1,
        sound.2,
        sound.3,
      )

  abbrev begin : Seen → CheckState Seen
  begin seen = record { acc = empty_accumulator; schema_verdict = none; world = seen }

  attestation-Proven :
      (attestation : TlsnAttestation) (seen : Seen)
      → has_none
          (verify_tlsn_attestation v options attestation requirement (begin seen)).acc.failures
        ≡ true
      → Proven v options requirement host seen attestation
  unfolding verify_tlsn_attestation add_result validate_tlsn validate_with
  attestation-Proven attestation seen h =
      continue-Proven attestation seen _ refl (ground (arith, built_in))

  other-Proven :
      (evidence : Option Json) (found : Option TlsnAttestation) (seen : Seen)
      → is_tlsn_attestation evidence ≡ found
      → has_none (verify_other_evidence v options found requirement (begin seen)).acc.failures
        ≡ true
      → (a : TlsnAttestation) × Presents evidence a × Proven v options requirement host seen a
  unfolding verify_other_evidence
  other-Proven evidence none seen same h = ground arith
  other-Proven evidence (some a) seen same h = (a, inr same, attestation-Proven a seen h)

  extension-Proven :
      (evidence : Option Json) (result : TlsnExtensionResult) (presentation : Option String)
      (seen : Seen)
      → is_tlsn_extension_result evidence ≡ some result
      → result.presentation ≡ presentation
      → has_none
          (verify_tlsn_extension_result v options presentation requirement
            (begin seen)).acc.failures
        ≡ true
      → (a : TlsnAttestation) × Presents evidence a × Proven v options requirement host seen a
  unfolding verify_tlsn_extension_result
  extension-Proven evidence result none seen read same h = ground arith
  extension-Proven evidence result (some p) seen read same h = elim (Bool-cases (truthy p)) [
    | inr blank ↦ ground (arith, blank)
    | inl given ↦ (
      record { presentation = p },
      inl (result, read, same),
      attestation-Proven (record { presentation = p }) seen (ground (arith, given)),
    )
  ]

  evidence-Proven :
      (evidence : Option Json) (result : Option TlsnExtensionResult) (seen : Seen)
      → is_tlsn_extension_result evidence ≡ result
      → has_none (verify_evidence v options result evidence requirement (begin seen)).acc.failures
        ≡ true
      → (a : TlsnAttestation) × Presents evidence a × Proven v options requirement host seen a
  unfolding verify_evidence
  evidence-Proven evidence none seen same h =
      other-Proven evidence (is_tlsn_attestation evidence) seen refl h
  evidence-Proven evidence (some r) seen same h =
      extension-Proven evidence r r.presentation seen same refl h

  tlsn-Proven :
      (evidence : Option Json) (seen : Seen)
      → has_none (verify_tlsn v options (some requirement) evidence (begin seen)).acc.failures
        ≡ true
      → (a : TlsnAttestation) × Presents evidence a × Proven v options requirement host seen a
  unfolding verify_tlsn
  tlsn-Proven none seen h = ground arith
  tlsn-Proven (some e) seen h =
      evidence-Proven (some e) (is_tlsn_extension_result (some e)) seen refl h

passed_by_tlsn :
    (v : Validator) (json_text : Json → String) (bundles : Bundles Seen)
    (requirement : VerificationRequirement) (input : VerificationInput) (defaults : SchemaOptions)
    (options : Dict String SchemaOptions) (seen : Seen) (r : TlsnRequirement)
    → get_or requirement.schema generic_media_schema_uri ≡ tlsn_v1
    → get_schema_bundle tlsn_v1 bundles ≡ some (create_tlsn_schema_bundle v defaults)
    → is_tlsn_requirement requirement.schema_requirement ≡ some r
    → (verify_proof json_text bundles requirement input options seen >>= λ done. some done.0.passed)
      ≡ some (
          has_none
            (verify_tlsn v
              (merged defaults (get_or (lookup tlsn_v1 options) no_options))
              (some r)
              input.schema_evidence
              (record {
                acc = empty_accumulator;
                schema_verdict = none;
                world = seen;
              })).acc.failures)
unfolding verify_proof verify_with run_checks resolve_schema_options create_tlsn_schema_bundle
    create_tlsn_check
passed_by_tlsn v json_text bundles requirement input defaults options seen r tlsn registered read =
    rw (tlsn, registered, read) refl

-- If the options give no validateTlsn of their own, an evidence that passes verifyProof under the
-- TLSNotary schema, for a requirement that names a server, holds a presentation that the replay guard
-- did not know and whose proof is valid by the verifier binary that the options choose, was made with
-- that server, is fresh, and satisfies every condition.
pub verify_proof-Proven :
    (v : Validator) (json_text : Json → String) (bundles : Bundles Seen)
    (requirement : VerificationRequirement) (input : VerificationInput) (defaults : SchemaOptions)
    (options : Dict String SchemaOptions) (seen : Seen) (r : TlsnRequirement) (host : String)
    → (merged defaults (get_or (lookup tlsn_v1 options) no_options)).validate_tlsn_fn ≡ none
    → get_or requirement.schema generic_media_schema_uri ≡ tlsn_v1
    → get_schema_bundle tlsn_v1 bundles ≡ some (create_tlsn_schema_bundle v defaults)
    → is_tlsn_requirement requirement.schema_requirement ≡ some r
    → expected_hostname v.platform r ≡ some host
    → truthy host ≡ true
    → (verify_proof json_text bundles requirement input options seen >>= λ done. some done.0.passed)
      ≡ some true
    → (a : TlsnAttestation) × Presents input.schema_evidence a
      × Proven v (merged defaults (get_or (lookup tlsn_v1 options) no_options)) r host seen a
verify_proof-Proven v json_text bundles requirement input defaults options seen r host built_in tlsn
      registered read named full passed =
    tlsn-Proven v (merged defaults (get_or (lookup tlsn_v1 options) no_options)) r host built_in
      named full input.schema_evidence seen
      (ground (
        arith,
        passed_by_tlsn v json_text bundles requirement input defaults options seen r tlsn registered
            read,
      ))
