-- ===== src/Payments/Coordinator/Dkg.antt =====
-- The key generation of the FROST coordinator: `initDkg` and `submitDkgPackage` of
-- packages/sdk/src/payments/frost/frost-coordinator.ts.
pub mod Rounds
use anchr.Prelude.{
  ℕ, ◌+◌, ◌≤◌, String, Bool, true, false, not, ◌&&◌, [], Option, none, some, leb, if◌then◌else◌,
  Eq-string, Eq-nat, truthy, ◌≡◌, arith, Option-cases, inl, inr,
}
use anchr.Prelude.Dict.{Dict, lookup, insert, size, size-insert-le, size-le-insert}
use anchr.Payments.Coordinator.{DkgSession, Coordinator, evict_stale_sessions}

pub record DkgRoundResult : Type 0 where
  pub round : ℕ
  pub complete : Bool
  pub group_pubkey : Option String
  pub pubkey_package : Option String

unfoldable pub init_dkg : ℕ → String → ℕ → ℕ → Coordinator → Coordinator × DkgSession
unfolding evict_stale_sessions insert
init_dkg now id threshold total c =
    let left = evict_stale_sessions now c in
    let session : DkgSession = record {
      session_id = id;
      threshold = threshold;
      total_signers = total;
      current_round = 0;
      round1_packages = [];
      round1_secret_packages = [];
      round2_packages = [];
      round2_secret_packages = [];
      key_packages = [];
      pubkey_package = none;
      group_pubkey = none;
      created_at = now;
    } in
    (record left { dkg_sessions = insert id session left.dkg_sessions }, session)

-- A secret package that is there and not empty is stored.
abbrev pub with_secret : ℕ → Option String → Dict ℕ String → Dict ℕ String
with_secret index none packages = packages
with_secret index (some secret) packages =
    if truthy secret then insert index secret packages else packages

unfoldable pub submit_round1 : DkgSession → ℕ → String → Option String → DkgSession × DkgRoundResult
unfolding insert
submit_round1 session index package_json secret =
    let packages = insert index package_json session.round1_packages in
    let complete = leb session.total_signers (size packages) in
    (
      record session {
        round1_packages = packages;
        round1_secret_packages = with_secret index secret session.round1_secret_packages;
        current_round = if complete then 1 else session.current_round;
      },
      record { round = 1; complete = complete; group_pubkey = none; pubkey_package = none },
    )

unfoldable pub submit_round2 :
    DkgSession → ℕ → Dict ℕ String → Option String → DkgSession × DkgRoundResult
unfolding insert
submit_round2 session index parsed secret =
    let packages = insert index parsed session.round2_packages in
    let complete = leb session.total_signers (size packages) in
    (
      record session {
        round2_packages = packages;
        round2_secret_packages = with_secret index secret session.round2_secret_packages;
        current_round = if complete then 2 else session.current_round;
      },
      record { round = 2; complete = complete; group_pubkey = none; pubkey_package = none },
    )

-- The keys that a package of round 3 names, if it parses.
pub record KeyPackage : Type 0 where
  pub group_pubkey : Option String
  pub pubkey_package : Option String

-- The first key that is named and not empty is kept.
abbrev pub first_named : Option String → Option String → Option String
first_named named old = elim named [
  | none ↦ old
  | some key ↦
      if truthy key && not (elim old [ none ↦ false | some k ↦ truthy k ]) then some key else old
]

unfoldable pub submit_round3 :
    DkgSession → ℕ → String → Option KeyPackage → DkgSession × DkgRoundResult
unfolding insert
submit_round3 session index package_json parsed =
    let packages = insert index package_json session.key_packages in
    let complete = leb session.total_signers (size packages) in
    let group : Option String = elim parsed [
      | none ↦ session.group_pubkey
      | some p ↦ first_named p.group_pubkey session.group_pubkey
    ] in
    let pubkey : Option String = elim parsed [
      | none ↦ session.pubkey_package
      | some p ↦ first_named p.pubkey_package session.pubkey_package
    ] in
    (
      record session {
        key_packages = packages;
        group_pubkey = group;
        pubkey_package = pubkey;
        current_round = if complete then 3 else session.current_round;
      },
      record {
        round = 3;
        complete = complete;
        group_pubkey = if complete then group else none;
        pubkey_package = if complete then pubkey else none;
      },
    )

-- A package as it is submitted: round 1, round 2, or round 3.
pub data Round : Type 0 where
  one : Round
  two : Round
  three : Round

-- What a submission does to a session: `JSON.parse` throws on a bad package of round 2.
unfoldable pub submit_to_session :
    (String → Option (Dict ℕ String))
    → (String → Option KeyPackage)
    → DkgSession
    → Round
    → ℕ
    → String
    → Option String
    → Option (DkgSession × DkgRoundResult)
unfolding submit_round1 submit_round2 submit_round3
submit_to_session parse2 parse3 session one index package_json secret =
    some (submit_round1 session index package_json secret)
submit_to_session parse2 parse3 session two index package_json secret = elim (parse2 package_json) [
  | none ↦ none
  | some parsed ↦ some (submit_round2 session index parsed secret)
]
submit_to_session parse2 parse3 session three index package_json secret =
    some (submit_round3 session index package_json (parse3 package_json))

-- `submitDkgPackage` returns null for an unknown session, and throws on a package that does not parse.
pub data DkgOutcome : Type 0 where
  unknown : DkgOutcome
  malformed : DkgOutcome
  advanced : DkgRoundResult → DkgOutcome

unfoldable pub submit_dkg_package :
    (String → Option (Dict ℕ String))
    → (String → Option KeyPackage)
    → Coordinator
    → String
    → Round
    → ℕ
    → String
    → Option String
    → Coordinator × DkgOutcome
unfolding submit_to_session lookup insert
submit_dkg_package parse2 parse3 c id round index package_json secret =
    elim (lookup id c.dkg_sessions) [
      | none ↦ (c, unknown)
      | some session ↦
          elim (submit_to_session parse2 parse3 session round index package_json secret) [
            | none ↦ (c, malformed)
            | some (session', result) ↦
                (record c { dkg_sessions = insert id session' c.dkg_sessions }, advanced result)
          ]
    ]
