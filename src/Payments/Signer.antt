-- ===== src/Payments/Signer.antt =====
-- The signing of a FROST signer, `verifyAndSign` of packages/sdk/src/payments/frost/frost-signer.ts.
-- The verdict of the signer's own verification, the fresh session ids and the answers of the signer
-- program are arguments. Round 2 reads and deletes its session without an await in between.
pub mod Once
use anchr.Prelude.{
  ℕ, String, Bool, true, false, not, List, [], ◌∷◌, Option, none, some, if◌then◌else◌, Eq-string,
  ◌==◌, truthy,
}
use anchr.Prelude.Dict.{Dict, lookup, insert, delete}

pub record PendingSession : Type 0 where
  pub nonces_json : String
  pub message_hex : String

abbrev pub PendingSessions : Type 0
PendingSessions = Dict String PendingSession

pub record SignerOutput : Type 0 where
  pub nonce_commitment : Option String
  pub session_id : Option String
  pub signature_share : Option String

-- What `sign-round1` prints.
pub record Round1 : Type 0 where
  pub nonces : String
  pub commitments : String

-- Round 1: the nonces stay with the signer, under a fresh id.
unfoldable pub finish_round1 :
    PendingSessions → String → String → Option Round1 → PendingSessions × Option SignerOutput
unfolding insert
finish_round1 pending message id none = (pending, none)
finish_round1 pending message id (some r1) = (
  insert id (record { nonces_json = r1.nonces; message_hex = message }) pending,
  some (record {
    nonce_commitment = some r1.commitments;
    session_id = some id;
    signature_share = none;
  }),
)

-- Round 2 up to its await: the nonces to sign with. The session is gone, whatever comes of it.
unfoldable pub start_round2 :
    PendingSessions → Option String → String → PendingSessions × Option String
unfolding lookup delete
start_round2 pending none message = (pending, none)
start_round2 pending (some id) message =
    if not (truthy id) then (pending, none) else elim (lookup id pending) [
      | none ↦ (pending, none)
      | some session ↦ (
        delete id pending,
        if session.message_hex == message then some session.nonces_json else none,
      )
    ]

abbrev pub share_output : Option String → Option SignerOutput
share_output none = none
share_output (some share) =
    some (record { nonce_commitment = none; session_id = none; signature_share = some share })

abbrev pub is_given : Option String → Bool
is_given none = false
is_given (some text) = truthy text

-- `verifyAndSign` where nothing else runs during its awaits. `sign_round2` is the program's answer to
-- the nonces.
unfoldable pub verify_and_sign :
    PendingSessions
    → Bool
    → String
    → Option String
    → Option String
    → String
    → Option Round1
    → (String → Option String)
    → PendingSessions × Option SignerOutput
unfolding finish_round1 start_round2
verify_and_sign pending passed message commitments session_id fresh round1 sign_round2 =
    let (left, nonces) = start_round2 pending session_id message in
    if not passed
    then (pending, none)
    else if not (is_given commitments)
    then finish_round1 pending message fresh round1
    else (left, elim nonces [ none ↦ none | some n ↦ share_output (sign_round2 n) ])

-- A step of the signer: a round 1 that got nonces, or a round 2 up to its await.
pub data Step : Type 0 where
  begins : String → String → Round1 → Step
  signs : Option String → String → Step

-- A use of nonces: they are handed to `sign-round2` for the session and the message.
pub record Use : Type 0 where
  pub session_id : String
  pub nonces : String
  pub message : String

-- What a round 2 hands to the signer program.
abbrev pub used_by : Option String → String → Option String → List Use → List Use
used_by (some id) message (some nonces) rest =
    (record { session_id = id; nonces = nonces; message = message }) ∷ rest
used_by _ message _ rest = rest

-- The uses of nonces in a history.
unfoldable pub uses : PendingSessions → List Step → List Use
unfolding finish_round1 start_round2
uses pending [] = []
uses pending (begins id message r1 ∷ rest) =
    uses (finish_round1 pending message id (some r1)).0 rest
uses pending (signs session_id message ∷ rest) =
    let (left, nonces) = start_round2 pending session_id message in
    used_by session_id message nonces (uses left rest)
