-- ===== src/Proofs/Verifier/MediaVerdict.antt =====
-- What a passing verdict of `verifyProof` says under the schema of plain media.
use anchr.Prelude.{String, not, ◌||◌, some, ◌≡◌, arith, Eq-string, is_some}
use anchr.Prelude.Json.{Json}
use anchr.Prelude.Dict.{Dict}
use anchr.Prelude.Chain.{◌>>=◌}
use anchr.Proofs.Verifier.{
  VerificationRequirement, VerificationInput, SchemaOptions, Bundles, get_schema_bundle,
  generic_media_schema_uri, verify_proof, verify_with, run_checks, resolve_schema_options,
}
use anchr.Proofs.Verifier.Media.{
  create_generic_media_schema_bundle, create_empty_submission_check, run_empty_submission,
  run_generic_media, has_attachment, has_non_empty_schema_evidence,
}
use mathlib.Core.Option.{get_or}

-- Under the schema of plain media, which is also the default, an evidence passes exactly if it has an
-- attachment, or if the request sets no requirement and the evidence has no content.
verify_media :
    {W : Type 0} (json_text : Json → String) (bundles : Bundles W)
    (requirement : VerificationRequirement) (input : VerificationInput)
    (options : Dict String SchemaOptions) (world : W)
    → get_or requirement.schema generic_media_schema_uri ≡ generic_media_schema_uri
    → get_schema_bundle generic_media_schema_uri bundles ≡ some create_generic_media_schema_bundle
    → (verify_proof json_text bundles requirement input options world >>= λ done.
        some done.0.passed)
      ≡ some (
          has_attachment input.attachments
          || not (
              is_some requirement.schema_requirement
              || has_non_empty_schema_evidence input.schema_evidence))
unfolding verify_proof verify_with run_checks resolve_schema_options
    create_generic_media_schema_bundle create_empty_submission_check run_empty_submission
    run_generic_media
verify_media json_text bundles requirement input options world media registered =
    rw (media, registered) (ground arith)
