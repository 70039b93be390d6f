-- ===== src/Proofs/Verifier.antt =====
-- `verifyProof`: packages/sdk/src/proofs/verification/verifier.ts, its contract.ts and checks/types.ts,
-- and the registry of packages/sdk/src/schema.ts. A requirement and an evidence are JSON values; the
-- options have their declared types. `W` is the state that the checks share.
pub mod Media
pub mod Tlsn
pub mod MediaVerdict
pub mod TlsnVerdict
use anchr.Prelude.{
  ℕ, String, Bool, true, false, List, [], ◌∷◌, Option, none, some, if◌then◌else◌, ◌==◌, Eq-string,
  template, nat_eq, length,
}
use anchr.Prelude.Json.{Json}
use anchr.Prelude.Dict.{Dict, lookup, insert, delete, has, values}
use anchr.Prelude.Chain.{◌>>=◌, ◌>>◌, require}
use anchr.Requests.Types.{AttachmentRef, VerificationDetail}
use anchr.Proofs.Tlsn.Types.{TlsnAttestation, TlsnRequirement}
use anchr.Proofs.Tlsn.Verdict.{TlsnValidationResult}
use mathlib.Core.Option.{get_or}

abbrev pub generic_media_schema_uri : String
generic_media_schema_uri = "https://anchr-spec.org/spec/proof/photo/v1"

abbrev pub shown : (Json → String) → Option Json → Option String
shown json_text none = none
shown json_text (some v) = some (json_text v)

pub record VerificationRequirement : Type 0 where
  pub id : String
  pub schema : Option String
  pub factors : List String
  pub description : Option String
  pub challenge_nonce : Option String
  pub schema_requirement : Option Json
  pub escrow_token_hash : Option String

pub record VerificationInput : Type 0 where
  pub attachments : List AttachmentRef
  pub schema_evidence : Option Json

-- The options of the TLSNotary schema and of the C2PA schema; `null` as a path forces "unavailable". A
-- `validateTlsn` of the caller is a function of the presentation, the requirement and the path. An
-- option that is there with the value `undefined` is not told from an absent one.
pub record SchemaOptions : Type 0 where
  pub validate_tlsn_fn :
      Option (TlsnAttestation → TlsnRequirement → Option (Option String) → TlsnValidationResult)
  pub verifier_path : Option (Option String)
  pub c2pa_tool_path : Option (Option String)

abbrev pub no_options : SchemaOptions
no_options = record { validate_tlsn_fn = none; verifier_path = none; c2pa_tool_path = none }

pub record CheckAccumulator : Type 0 where
  pub checks : List String
  pub failures : List String
  pub warnings : List String

abbrev pub empty_accumulator : CheckAccumulator
empty_accumulator = record { checks = []; failures = []; warnings = [] }

-- What a check reads; the accumulator and the verdict, which it writes, go from check to check.
pub record FactorCheckContext : Type 0 where
  pub requirement : VerificationRequirement
  pub input : VerificationInput
  pub schema_options : SchemaOptions

pub record CheckState (W : Type 0) : Type 0 where
  pub acc : CheckAccumulator
  pub schema_verdict : Option Json
  pub world : W

pub record FactorCheck (W : Type 0) : Type 0 where
  pub name : String
  pub run : FactorCheckContext → CheckState W → CheckState W

-- A bundle without its producer and verifier. `configSchema` may throw.
pub record SchemaBundle (W : Type 0) : Type 0 where
  pub uri : String
  pub checks : Option (List (FactorCheck W))
  pub config_schema : Option (SchemaOptions → Option SchemaOptions)

abbrev pub Bundles : Type 0 → Type 0
Bundles W = Dict String (SchemaBundle W)

abbrev pub configured :
    Option (SchemaOptions → Option SchemaOptions) → SchemaOptions → Option SchemaOptions
configured none raw = some raw
configured (some parse) raw = parse raw

abbrev pub unless_empty : List String → Option (List String)
unless_empty [] = none
unless_empty (w ∷ ws) = some (w ∷ ws)

abbrev pub has_none : List String → Bool
has_none [] = true
has_none (x ∷ xs) = false

abbrev pub failed : String → VerificationDetail
failed why = record {
  passed = false;
  checks = [];
  failures = why ∷ [];
  warnings = none;
  schema_verdict = none;
}

module _ {W : Type 0} where
  -- `none` where it throws: the schema is registered already.
  unfoldable pub register_schema_bundle : SchemaBundle W → Bundles W → Option (Bundles W)
  unfolding insert lookup
  register_schema_bundle bundle bundles =
      if has bundle.uri bundles then none else some (insert bundle.uri bundle bundles)

  unfoldable pub unregister_schema_bundle : String → Bundles W → Bundles W × Bool
  unfolding delete lookup
  unregister_schema_bundle uri bundles = (delete uri bundles, has uri bundles)

  unfoldable pub get_schema_bundle : String → Bundles W → Option (SchemaBundle W)
  unfolding lookup
  get_schema_bundle uri bundles = lookup uri bundles

  abbrev pub get_registered_schema_bundles : Bundles W → List (SchemaBundle W)
  get_registered_schema_bundles bundles = values bundles

  unfoldable pub resolve_schema_options :
      SchemaBundle W → Dict String SchemaOptions → Option SchemaOptions
  unfolding lookup
  resolve_schema_options bundle options =
      configured bundle.config_schema (get_or (lookup bundle.uri options) no_options)

  unfoldable pub run_checks :
      List (FactorCheck W) → FactorCheckContext → CheckState W → CheckState W
  run_checks [] ctx state = state
  run_checks (check ∷ rest) ctx state = run_checks rest ctx (check.run ctx state)

  abbrev pub verdict : (Json → String) → CheckState W → VerificationDetail
  verdict json_text state = record {
    passed = has_none state.acc.failures;
    checks = state.acc.checks;
    failures = state.acc.failures;
    warnings = unless_empty state.acc.warnings;
    schema_verdict = shown json_text state.schema_verdict;
  }

  -- The checks of a bundle that has some.
  unfoldable pub verify_with :
      (Json → String)
      → SchemaBundle W
      → List (FactorCheck W)
      → VerificationRequirement
      → VerificationInput
      → Dict String SchemaOptions
      → W
      → Option (VerificationDetail × W)
  verify_with json_text bundle [] requirement input options world = some (
    failed (
        template (
          "Proof Schema has no verification checks: "
          ∷ get_or requirement.schema generic_media_schema_uri
          ∷ [])),
    world,
  )
  verify_with json_text bundle (check ∷ rest) requirement input options world = do
    schema_options ← resolve_schema_options bundle options
    let done =
        run_checks (check ∷ rest)
          (record { requirement = requirement; input = input; schema_options = schema_options })
          (record { acc = empty_accumulator; schema_verdict = none; world = world })
    some (verdict json_text done, done.world)

  abbrev pub verify_bundle :
      (Json → String)
      → Option (SchemaBundle W)
      → VerificationRequirement
      → VerificationInput
      → Dict String SchemaOptions
      → W
      → Option (VerificationDetail × W)
  verify_bundle json_text none requirement input options world = some (
    failed (
        template
          ("Unknown Proof Schema URL: " ∷ get_or requirement.schema generic_media_schema_uri ∷ [])),
    world,
  )
  verify_bundle json_text (some bundle) requirement input options world =
      verify_with json_text bundle (get_or bundle.checks []) requirement input options world

  -- `none` where the options are refused, which throws.
  unfoldable pub verify_proof :
      (Json → String)
      → Bundles W
      → VerificationRequirement
      → VerificationInput
      → Dict String SchemaOptions
      → W
      → Option (VerificationDetail × W)
  verify_proof json_text bundles requirement input options world =
      verify_bundle json_text
        (get_schema_bundle (get_or requirement.schema generic_media_schema_uri) bundles) requirement
        input options world
