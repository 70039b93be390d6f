-- ===== src/Proofs/Tlsn/Validation.antt =====
-- `validateTlsn` of packages/sdk/src/proofs/tlsn-validation.ts, cut at its await: `start_validate_tlsn`
-- runs up to the call of the verifier binary, `finish_validate_tlsn` from its answer on. The process
-- that runs the binary, and what it answers, are outside of the model.
use anchr.Prelude.{
  ℕ, String, Bool, true, false, [], ◌∷◌, Option, none, some, if◌then◌else◌, Eq-string, truthy,
  template, or_else, find,
}
use anchr.Proofs.ReplayGuard.{ReplayGuard, Seen, has, add}
use anchr.Proofs.Tlsn.Types.{TlsnAttestation, TlsnRequirement}
use anchr.Proofs.Tlsn.Verdict.{Platform, TlsnValidationResult, VerifierBinaryResult, judge_proof}
use mathlib.Core.Option.{get_or}

unfoldable pub find_tlsn_verifier : Platform → Option String
unfolding find
find_tlsn_verifier platform =
    or_else (find platform.is_file platform.local_paths) (platform.which "tlsn-verifier")

-- The override is absent, `null`, or a path.
unfoldable pub resolve_tlsn_verifier : Platform → Option (Option String) → Option String
resolve_tlsn_verifier platform none = find_tlsn_verifier platform
resolve_tlsn_verifier platform (some path) = path

-- A result that ends before the proof was verified.
abbrev pub refused : Bool → String → TlsnValidationResult
refused available failure = record {
  available = available;
  signature_valid = false;
  server_identity_valid = false;
  condition_results = [];
  attestation_fresh = false;
  verified_data = none;
  checks = [];
  failures = failure ∷ [];
}

abbrev pub replay_failure : String
replay_failure = "TLSNotary: presentation already used — proof replay rejected"

pub data Started : Type 0 where
  settled : TlsnValidationResult → Started
  runs : String → Started

unfoldable pub choose_binary : Option String → Started
choose_binary none =
    settled
      (refused false "TLSNotary: tlsn-verifier binary not available — cannot verify presentation")
choose_binary (some path) =
    if truthy path
    then runs path
    else settled
        (refused false "TLSNotary: tlsn-verifier binary not available — cannot verify presentation")

-- The guard is asked first; the binary runs only on a presentation that it does not know.
unfoldable pub start_validate_tlsn :
    Platform → ReplayGuard → ℕ → Option (Option String) → TlsnAttestation → Seen → Seen × Started
start_validate_tlsn platform guard now verifier_path attestation seen =
    let asked = has guard now (platform.sha256 attestation.presentation) seen in
    (
      asked.0,
      if asked.1
          then settled (refused true replay_failure)
          else choose_binary (resolve_tlsn_verifier platform verifier_path),
    )

-- A proof whose signature is valid is marked as used, whatever the verdict; `add` reads the clock
-- twice.
unfoldable pub finish_validate_tlsn :
    Platform
    → ReplayGuard
    → ℕ
    → ℕ
    → ℕ
    → TlsnAttestation
    → TlsnRequirement
    → VerifierBinaryResult
    → Seen
    → Seen × TlsnValidationResult
finish_validate_tlsn platform guard now added evicted attestation requirement crypto seen =
    if crypto.signature_valid
    then (
      add guard added evicted (platform.sha256 attestation.presentation) seen,
      judge_proof platform now requirement crypto,
    )
    else (
      seen,
      refused true (
          template (
            "TLSNotary: presentation signature invalid — "
            ∷ get_or crypto.error "verification failed"
            ∷ [])),
    )
