-- ===== src/Proofs/Verifier/Media.antt =====
-- The schema of plain media: packages/sdk/src/proofs/generic-media-schema.ts and
-- proofs/verification/checks/empty-submission.ts.
use anchr.Prelude.{
  String, Bool, true, false, not, ◌||◌, List, [], ◌∷◌, ◌++◌, Option, none, some, if◌then◌else◌,
  is_some,
}
use anchr.Prelude.Json.{Json, Elements, Members}
use anchr.Requests.Types.{AttachmentRef}
use anchr.Proofs.Verifier.{
  FactorCheck, FactorCheckContext, CheckState, SchemaBundle, generic_media_schema_uri,
}

abbrev pub has_attachment : List AttachmentRef → Bool
has_attachment [] = false
has_attachment (a ∷ rest) = true

module _ {W : Type 0} where
  abbrev pub note_check : String → CheckState W → CheckState W
  note_check text state = record state {
    acc = record state.acc { checks = state.acc.checks ++ text ∷ [] };
  }

  abbrev pub note_failure : String → CheckState W → CheckState W
  note_failure text state = record state {
    acc = record state.acc { failures = state.acc.failures ++ text ∷ [] };
  }

  unfoldable pub run_empty_submission :
      (FactorCheckContext → Bool) → FactorCheckContext → CheckState W → CheckState W
  run_empty_submission requires_evidence ctx state =
      if has_attachment ctx.input.attachments
      then state
      else if not (requires_evidence ctx)
      then note_check "no media evidence provided (weak verification)" state
      else note_failure
          "no media evidence provided — photos are required when photo-backed verification is enabled"
          state

  unfoldable pub create_empty_submission_check : (FactorCheckContext → Bool) → FactorCheck W
  create_empty_submission_check requires_evidence = record {
    name = "empty-submission";
    run = run_empty_submission requires_evidence;
  }

  unfoldable pub run_generic_media : FactorCheckContext → CheckState W → CheckState W
  run_generic_media ctx state =
      if has_attachment ctx.input.attachments then note_check "attachment present" state else state

  abbrev pub generic_media_check : FactorCheck W
  generic_media_check = record { name = "generic-media"; run = run_generic_media }

-- `Object.keys(value).length > 0` on an object or an array; `null` and other values count.
unfoldable pub has_non_empty_schema_evidence : Option Json → Bool
has_non_empty_schema_evidence none = false
has_non_empty_schema_evidence (some (Json.object Members.bare)) = false
has_non_empty_schema_evidence (some (Json.array Elements.empty)) = false
has_non_empty_schema_evidence (some _) = true

abbrev pub media_requires_evidence : FactorCheckContext → Bool
media_requires_evidence ctx =
    is_some ctx.requirement.schema_requirement
    || has_non_empty_schema_evidence ctx.input.schema_evidence

unfoldable pub create_generic_media_schema_bundle : {W : Type 0} → SchemaBundle W
create_generic_media_schema_bundle = record {
  uri = generic_media_schema_uri;
  checks = some (create_empty_submission_check media_requires_evidence ∷ generic_media_check ∷ []);
  config_schema = none;
}
