-- ===== src/Payments/Coordinator/Dkg/Rounds.antt =====
-- How the rounds of a key generation advance: packages/sdk/src/payments/frost/frost-coordinator.ts.
use anchr.Prelude.{
  ℕ, ◌+◌, ◌≤◌, String, true, Option, some, leb, if◌then◌else◌, Eq-string, Eq-nat, ◌≡◌, arith,
  Option-cases, inl, inr,
}
use anchr.Prelude.Dict.{Dict, size, size-insert-le, size-le-insert}
use anchr.Payments.Coordinator.{DkgSession}
use anchr.Payments.Coordinator.Dkg.{
  DkgRoundResult, KeyPackage, Round, submit_to_session, one, two, three,
}

abbrev pub round_number : Round → ℕ
round_number one = 1
round_number two = 2
round_number three = 3

-- The number of signers that have submitted a package for the round.
abbrev pub submitted_by : Round → DkgSession → ℕ
submitted_by one s = size s.round1_packages
submitted_by two s = size s.round2_packages
submitted_by three s = size s.key_packages

-- A package that is accepted for a round is reported as completing it exactly when as many signers as
-- the session has have submitted one, and then the session's current round is that round; else the
submit_to_session-complete :
    (parse2 : String → Option (Dict ℕ String)) (parse3 : String → Option KeyPackage)
    (s s' : DkgSession) (round : Round) (index : ℕ) (text : String) (secret : Option String)
    (result : DkgRoundResult)
    → submit_to_session parse2 parse3 s round index text secret ≡ some (s', result)
    → (result.complete ≡ leb s.total_signers (submitted_by round s'))
      × (result.round ≡ round_number round)
      × (s'.current_round ≡ (if result.complete then round_number round else s.current_round))
      × (submitted_by round s ≤ submitted_by round s')
      × (submitted_by round s' ≤ submitted_by round s + 1)
unfolding submit_to_session
submit_to_session-complete parse2 parse3 s s' one index text secret result e = ground (
  arith,
  size-le-insert index text s.round1_packages,
  size-insert-le index text s.round1_packages,
)
submit_to_session-complete parse2 parse3 s s' two index text secret result e =
    elim (Option-cases (parse2 text)) [
      | inl bad ↦ absurd (ground arith)
      | inr (parsed, good) ↦ ground (
        arith,
        size-le-insert index parsed s.round2_packages,
        size-insert-le index parsed s.round2_packages,
      )
    ]
submit_to_session-complete parse2 parse3 s s' three index text secret result e =
    ground
      (arith, size-le-insert index text s.key_packages, size-insert-le index text s.key_packages)

-- A package of round 1 that arrives once every signer has submitted one sets the session back to
-- round 1, whatever round it had reached.
late_round1_resets :
    (parse2 : String → Option (Dict ℕ String)) (parse3 : String → Option KeyPackage)
    (s s' : DkgSession) (index : ℕ) (text : String) (secret : Option String)
    (result : DkgRoundResult)
    → s.total_signers ≤ submitted_by one s
    → submit_to_session parse2 parse3 s one index text secret ≡ some (s', result)
    → (s'.current_round ≡ 1) × (result.complete ≡ true)
unfolding submit_to_session
late_round1_resets parse2 parse3 s s' index text secret result full e =
    ground (arith, size-le-insert index text s.round1_packages)
