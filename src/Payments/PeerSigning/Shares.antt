-- ===== src/Payments/PeerSigning/Shares.antt =====
-- Who contributed to a signature of the peers.
use anchr.Prelude.{
  ℕ, ◌≤◌, String, List, [], ◌∷◌, some, map, All, Distinct, ◌≡◌, refl, arith, All-map, Option-cases,
  ◌⊎◌, inl, inr, Eq-nat, leb→le, includes,
}
use anchr.Prelude.Dict.{Dict, insert, size, keys, insert-Distinct}
use anchr.Payments.PeerSigning.{
  FrostNodeConfig, Signers, RoundOne, PeerConfig, Participant, Reply, answers,
  SigningCoordinatorResult, with_share, collect_shares, aggregate_shares, sign_and_collect,
  coordinate_signing, first_round,
}

insert-All :
    {V : Type 0} (P : ℕ × V → Type 0) (k : ℕ) (a : V) (d : Dict ℕ V)
    → P (k, a)
    → All P d
    → All P (insert k a d)
unfolding insert
insert-All P k a [] new h = (new, tt)
insert-All P k a ((j, b) ∷ d) new h = ground (arith, insert-All P k a d new h.1)

-- The entry stands in the list.
abbrev pub In : {A : Type 0} → A → List A → Type 0
In x [] = ⊥
In x (y ∷ ys) = (x ≡ y) ⊎ In x ys

all-In : {A : Type 0} (xs : List A) → All (λ x. In x xs) xs
all-In [] = tt
all-In (x ∷ xs) =
    (inl refl, All-map (λ y. In y xs) (λ y. In y (x ∷ xs)) xs (λ y h. inr h) (all-In xs))

module _ {Nonces Commitment Share : Type 0} (signers : Signers Nonces Commitment Share) where
  -- A share is the node's own, or what a participant of round 1 answered for the commitments.
  abbrev pub Contributed :
      ℕ → Nonces → Dict ℕ Commitment → String → List Participant → ℕ × Share → Type 0
  Contributed own nonces commitments message participants entry =
      ((entry.0 ≡ own) × (signers.sign_round2 nonces commitments message ≡ some entry.1))
      ⊎ ((peer : PeerConfig) × (nonce_id : String) × In (peer, nonce_id) participants
          × (entry.0 ≡ peer.signer_index)
          × (signers.peer_round2 peer nonce_id commitments message ≡ answers entry.1))

  with_share-Contributed :
      (own : ℕ) (nonces : Nonces) (commitments : Dict ℕ Commitment) (message nonce_id : String)
      (participants : List Participant) (peer : PeerConfig) (reply : Reply Share)
      (shares : Dict ℕ Share)
      → signers.peer_round2 peer nonce_id commitments message ≡ reply
      → In (peer, nonce_id) participants
      → All (Contributed own nonces commitments message participants) shares
      → Distinct (keys shares)
      → All
          (Contributed own nonces commitments message participants)
          (with_share signers peer.signer_index reply shares)
        × Distinct (keys (with_share signers peer.signer_index reply shares))
  with_share-Contributed own nonces commitments message nonce_id participants peer (answers share)
        shares same joined all apart =
      (
        insert-All (Contributed own nonces commitments message participants) peer.signer_index share
            shares (inr (peer, nonce_id, joined, refl, same)) all,
        insert-Distinct peer.signer_index share shares apart,
      )
  with_share-Contributed own nonces commitments message nonce_id participants peer _ shares same
        joined all apart =
      (all, apart)

  collect_shares-Contributed :
      (own : ℕ) (nonces : Nonces) (commitments : Dict ℕ Commitment) (message : String)
      (participants rest : List Participant) (shares : Dict ℕ Share)
      → All (λ p. In p participants) rest
      → All (Contributed own nonces commitments message participants) shares
      → Distinct (keys shares)
      → All
          (Contributed own nonces commitments message participants)
          (collect_shares signers commitments message rest shares)
        × Distinct (keys (collect_shares signers commitments message rest shares))
  unfolding collect_shares
  collect_shares-Contributed own nonces commitments message participants [] shares joined all
        apart =
      (all, apart)
  collect_shares-Contributed own nonces commitments message participants ((peer, nonce_id) ∷ rest)
        shares joined all apart =
      let next =
        with_share-Contributed own nonces commitments message nonce_id participants peer
          (signers.peer_round2 peer nonce_id commitments message) shares refl joined.0 all apart in
      collect_shares-Contributed own nonces commitments message participants rest _ joined.1 next.0
        next.1

  -- The signature of a result is the program's answer on shares of as many different signers as the
  -- threshold asks for, each the node's own or the answer of a peer that took part in round 1.
  abbrev pub Backed :
      FrostNodeConfig → String → Nonces → RoundOne Commitment → SigningCoordinatorResult → Type 0
  Backed config message nonces round1 r =
      (shares : Dict ℕ Share) × (config.threshold ≤ size shares)
      × Distinct (keys shares)
      × All (Contributed config.signer_index nonces round1.commitments message round1.participants)
          shares
      × (signers.aggregate config.group_pubkey round1.commitments message shares ≡ some r.signature)

  aggregate_shares-answer :
      (config : FrostNodeConfig) (message : String) (round1 : RoundOne Commitment)
      (shares : Dict ℕ Share) (r : SigningCoordinatorResult)
      → aggregate_shares signers config message round1 shares ≡ some r
      → (config.threshold ≤ size shares)
        × (signers.aggregate config.group_pubkey round1.commitments message shares
            ≡ some r.signature)
        × (r.signers_participated
            ≡ config.signer_index
              ∷ map (λ participant. participant.0.signer_index) round1.participants)
  unfolding aggregate_shares
  aggregate_shares-answer config message round1 shares r h =
      grind (arith, leb→le config.threshold (size shares))

  sign_and_collect-Backed :
      (config : FrostNodeConfig) (message : String) (nonces : Nonces) (round1 : RoundOne Commitment)
      (r : SigningCoordinatorResult)
      → sign_and_collect signers config message nonces round1 ≡ some r
      → Backed config message nonces round1 r
  unfolding sign_and_collect includes
  sign_and_collect-Backed config message nonces round1 r h =
      elim (Option-cases (signers.sign_round2 nonces round1.commitments message)) [
        | inl failed ↦ ground (arith, failed)
        | inr (share, own) ↦
            let shares =
              collect_shares-Contributed config.signer_index nonces round1.commitments message
                round1.participants round1.participants ((config.signer_index, share) ∷ [])
                (all-In round1.participants) (inl (refl, own), tt) (refl, tt) in
            let answer =
              aggregate_shares-answer config message round1
                (collect_shares signers round1.commitments message round1.participants
                  ((config.signer_index, share) ∷ []))
                r (ground (arith, own)) in
            (_, answer.0, shares.1, shares.0, answer.1)
      ]

  -- A signing that succeeds had a commitment of the node itself, and its signature is the program's
  -- answer on shares of as many different signers as the threshold asks for, each the node's own or
  -- the answer of a peer that took part in round 1.
  pub coordinate_signing-Backed :
      (config : FrostNodeConfig) (message : String) (r : SigningCoordinatorResult)
      → coordinate_signing signers config message ≡ some r
      → (own : Nonces × Commitment) × (signers.sign_round1 ≡ some own)
        × Backed config message own.0 (first_round signers config message own.1) r
  unfolding coordinate_signing
  coordinate_signing-Backed config message r h = elim (Option-cases signers.sign_round1) [
    | inl failed ↦ ground (arith, failed)
    | inr (own, begun) ↦ (
      own,
      begun,
      sign_and_collect-Backed config message own.0 (first_round signers config message own.1) r
          (ground (arith, begun)),
    )
  ]
