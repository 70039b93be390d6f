-- ===== src/Payments/PeerSigning.antt =====
-- One FROST signing over the peers of a node:
-- packages/sdk/src/payments/frost/frost-signing-coordinator.ts. The signer program and the answers of
-- the peers are parameters. An identifier is the signer's index in hexadecimal, so the maps of
-- commitments and shares are keyed by the index.
pub mod Shares
use anchr.Prelude.{
  ℕ, String, Bool, true, false, List, [], ◌∷◌, ◌++◌, Option, none, some, leb, ltb, nat_eq, truthy,
  map, if◌then◌else◌, Eq-nat,
}
use anchr.Prelude.Dict.{Dict, insert, size}
use anchr.Prelude.Chain.{◌>>=◌, ◌>>◌, require}

pub record PeerConfig : Type 0 where
  pub signer_index : ℕ
  pub endpoint : String
  pub api_key : Option String

-- The packages of keys are JSON values that only the signer program reads.
pub record FrostNodeConfig : Type 0 where
  pub signer_index : ℕ
  pub total_signers : ℕ
  pub threshold : ℕ
  pub key_package : String
  pub pubkey_package : String
  pub group_pubkey : String
  pub peers : List PeerConfig

-- A request to a peer: its answer, another status than success, or an error on the way.
pub data Reply (A : Type 0) : Type 0 where
  answers : A → Reply A
  refuses : Reply A
  breaks : Reply A

pub record RoundOneAnswer (Commitment : Type 0) : Type 0 where
  pub commitments : Commitment
  pub nonce_id : String

pub record SigningCoordinatorResult : Type 0 where
  pub signature : String
  pub signers_participated : List ℕ

-- The signer program (`none` where it fails) and the peers, which may answer differently each time.
pub record Signers (Nonces Commitment Share : Type 0) : Type 0 where
  pub sign_round1 : Option (Nonces × Commitment)
  pub sign_round2 : Nonces → Dict ℕ Commitment → String → Option Share
  pub peer_round1 : PeerConfig → String → Reply (RoundOneAnswer Commitment)
  pub peer_round2 : PeerConfig → String → Dict ℕ Commitment → String → Reply Share
  pub aggregate : String → Dict ℕ Commitment → String → Dict ℕ Share → Option String

-- A peer that takes part, with the id of its nonces.
abbrev pub Participant : Type 0
Participant = PeerConfig × String

-- The state of the first loop.
pub record RoundOne (Commitment : Type 0) : Type 0 where
  pub commitments : Dict ℕ Commitment
  pub participants : List Participant

module _ {Commitment : Type 0} where
  abbrev pub joined :
      PeerConfig → RoundOneAnswer Commitment → RoundOne Commitment → RoundOne Commitment
  joined peer answer state = record {
    commitments = insert peer.signer_index answer.commitments state.commitments;
    participants = state.participants ++ (peer, answer.nonce_id) ∷ [];
  }

  abbrev pub after_reply :
      PeerConfig → Reply (RoundOneAnswer Commitment) → RoundOne Commitment → RoundOne Commitment
  after_reply peer (answers answer) state = joined peer answer state
  after_reply peer _ state = state

  -- After a refusal the loop goes on without the test.
  abbrev pub stops : ℕ → Reply (RoundOneAnswer Commitment) → RoundOne Commitment → Bool
  stops threshold refuses state = false
  stops threshold _ state = leb threshold (size state.commitments)

module _ {Nonces Commitment Share : Type 0} (signers : Signers Nonces Commitment Share) where
  -- The first loop: peers other than the node itself, until there are enough commitments.
  unfoldable pub collect_commitments :
      ℕ → ℕ → String → List PeerConfig → RoundOne Commitment → RoundOne Commitment
  collect_commitments own threshold message [] state = state
  collect_commitments own threshold message (peer ∷ peers) state =
      let reply = signers.peer_round1 peer message in
      let next = after_reply peer reply state in
      if nat_eq peer.signer_index own
      then collect_commitments own threshold message peers state
      else if stops threshold reply next
      then next
      else collect_commitments own threshold message peers next

  abbrev pub with_share : ℕ → Reply Share → Dict ℕ Share → Dict ℕ Share
  with_share index (answers share) shares = insert index share shares
  with_share index _ shares = shares

  -- The second loop, over the peers that took part in the first.
  unfoldable pub collect_shares :
      Dict ℕ Commitment → String → List Participant → Dict ℕ Share → Dict ℕ Share
  collect_shares commitments message [] shares = shares
  collect_shares commitments message ((peer, nonce_id) ∷ rest) shares =
      collect_shares commitments message rest (
        with_share peer.signer_index (signers.peer_round2 peer nonce_id commitments message) shares)

  -- The aggregation and its answer; the node and all participants of round 1 are named.
  unfoldable pub aggregate_shares :
      FrostNodeConfig
      → String
      → RoundOne Commitment
      → Dict ℕ Share
      → Option SigningCoordinatorResult
  aggregate_shares config message round1 shares = do
    require (leb config.threshold (size shares))
    signature ← signers.aggregate config.group_pubkey round1.commitments message shares
    require (truthy signature)
    some (record {
      signature = signature;
      signers_participated =
          config.signer_index ∷ map (λ participant. participant.0.signer_index) round1.participants;
    })

  -- From the commitments on.
  unfoldable pub sign_and_collect :
      FrostNodeConfig → String → Nonces → RoundOne Commitment → Option SigningCoordinatorResult
  sign_and_collect config message nonces round1 = do
    require (leb config.threshold (size round1.commitments))
    share ← signers.sign_round2 nonces round1.commitments message
    aggregate_shares config message round1 (
        collect_shares round1.commitments message round1.participants
          ((config.signer_index, share) ∷ []))

  abbrev pub first_round : FrostNodeConfig → String → Commitment → RoundOne Commitment
  first_round config message commitment =
      collect_commitments config.signer_index config.threshold message config.peers
        (record { commitments = (config.signer_index, commitment) ∷ []; participants = [] })

  unfoldable pub coordinate_signing : FrostNodeConfig → String → Option SigningCoordinatorResult
  coordinate_signing config message = do
    own ← signers.sign_round1
    sign_and_collect config message own.0 (first_round config message own.1)
