-- ===== src/Proofs/Tlsn/Replay.antt =====
-- What the replay guard does for TLSNotary presentations, one after another and at the same time.
use anchr.Prelude.{
  ℕ, ◌+◌, ◌≤◌, ◌<◌, String, true, List, Option, none, some, All, truthy, ◌≡◌, refl, Eq-string,
}
use anchr.Prelude.Dict.{lookup}
use anchr.Proofs.ReplayGuard.{ReplayGuard, Seen, Call, has, after_calls, evict}
use anchr.Proofs.ReplayGuard.Memory.{remembered, Within, added}
use anchr.Proofs.ReplayGuard.Bounded.{lookup-evict}
use anchr.Proofs.Tlsn.Types.{TlsnAttestation, TlsnRequirement}
use anchr.Proofs.Tlsn.Verdict.{Platform, VerifierBinaryResult, judge_proof}
use anchr.Proofs.Tlsn.Validation.{
  refused, settled, runs, choose_binary, replay_failure, resolve_tlsn_verifier, start_validate_tlsn,
  finish_validate_tlsn,
}

module _ (platform : Platform) (guard : ReplayGuard) (path : Option (Option String))
    (attestation : TlsnAttestation) (requirement : TlsnRequirement) (crypto : VerifierBinaryResult)
    (seen : Seen) where
  -- A presentation that was validated and not known before is refused as a replay at any time within
  -- the retention, if fewer others than the cap are remembered in between and the guard is not
  -- cleared.
  pub replay_refused :
      (now later evicted last : ℕ) (between : List Call)
      → crypto.signature_valid ≡ true
      → lookup (platform.sha256 attestation.presentation) seen ≡ none
      → evicted ≤ later + guard.retention
      → last ≤ later + guard.retention
      → All (Within guard later) between
      → added between < guard.max
      → (start_validate_tlsn platform guard last path attestation (
          after_calls guard between (
            (finish_validate_tlsn platform guard now later evicted attestation requirement crypto
              seen).0))).1
        ≡ settled (refused true replay_failure)
  unfolding start_validate_tlsn finish_validate_tlsn
  replay_refused now later evicted last between valid unknown early late within room =
      rw
        (
          valid,
          remembered guard (platform.sha256 attestation.presentation) later evicted last between
              seen unknown early late within room,
        )
        refl

  -- Two validations of one unknown presentation that both start before either ends are both run, and
  -- each gets the verdict that its proof deserves at the time it ends, whichever ends first: neither is
  -- refused as a replay. The guard may evict at any times.
  pub concurrent_replay_accepted :
      (binary : String)
      (first second first_end first_added first_evicted second_end second_added second_evicted : ℕ)
      → lookup (platform.sha256 attestation.presentation) seen ≡ none
      → resolve_tlsn_verifier platform path ≡ some binary
      → truthy binary ≡ true
      → crypto.signature_valid ≡ true
      → (let one = start_validate_tlsn platform guard first path attestation seen in
          let two = start_validate_tlsn platform guard second path attestation one.0 in
          let three =
            finish_validate_tlsn platform guard first_end first_added first_evicted attestation
              requirement crypto two.0 in
          let four =
            finish_validate_tlsn platform guard second_end second_added second_evicted attestation
              requirement crypto three.0 in
          (one.1 ≡ runs binary)
          × (two.1 ≡ runs binary)
          × (three.1 ≡ judge_proof platform first_end requirement crypto)
          × (four.1 ≡ judge_proof platform second_end requirement crypto))
  unfolding start_validate_tlsn finish_validate_tlsn choose_binary has
  concurrent_replay_accepted binary first second first_end first_added first_evicted second_end
        second_added second_evicted unknown found full valid =
      let key = platform.sha256 attestation.presentation in
      let h1 = lookup-evict guard key first seen unknown in
      let h2 = lookup-evict guard key second (evict guard first seen) h1 in
      (rw (h1, found, full) refl, rw (h2, found, full) refl, rw valid refl, rw valid refl)
