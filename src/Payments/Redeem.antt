-- ===== src/Payments/Redeem.antt =====
-- The swap that redeems signed proofs, and its recovery after a lost answer of the mint:
-- packages/sdk/src/payments/cashu/redeem-swap.ts. The types and functions of the Cashu library and
-- the answers of the mint are parameters; `A` of an answer that may throw is `Attempt A`.
pub mod Safety
pub mod Recovery
use anchr.Prelude.{
  ℕ, ◌+◌, ◌-◌, ◌*◌, String, Bool, true, false, List, [], ◌∷◌, ◌++◌, Option, none, some, leb,
  if◌then◌else◌, any, Eq-string, ◌==◌, map,
}
use anchr.Prelude.Dict.{Dict, lookup, insert}

pub data Attempt {ℓ} (A : Type ℓ) : Type ℓ where
  returns : A → Attempt A
  throws : String → Attempt A

pub data RedeemSwapFailureReason : Type 0 where
  fee_exceeds_amount : RedeemSwapFailureReason
  mint_error : RedeemSwapFailureReason
  state_unknown : RedeemSwapFailureReason
  inputs_unspent : RedeemSwapFailureReason
  outputs_not_registered : RedeemSwapFailureReason
  restore_failed : RedeemSwapFailureReason
  restore_empty : RedeemSwapFailureReason

-- A failure, with the error that caused it where there was one.
pub record Failure : Type 0 where
  pub reason : RedeemSwapFailureReason
  pub retry_safe : Bool
  pub uncertain : Bool
  pub fee : Option ℕ
  pub total_amount : Option ℕ
  pub cause : Option String

-- The library and the mint, as far as the swap uses them. `spent` is `CheckStateEnum.SPENT`, and
-- `blinded` gives the text `B_` of an output's blinded message.
pub record CashuLibrary (Proof Output Signature Keyset : Type 0) : Type 0 where
  pub amount : Proof → ℕ
  pub spent : String
  pub create_random_data : ℕ → Keyset → List Output
  pub blinded : Output → String
  pub to_proof : Output → Signature → Keyset → Proof

-- The wallet. `send` runs the whole chain, with the key and the outputs that were set on it;
-- `as_custom` says whether the chain can take outputs.
pub record CashuRedeemWallet (Proof Output Signature Keyset : Type 0) : Type 0 where
  pub send : ℕ → List Proof → Option String → Option (List Output) → Attempt (List Proof)
  pub as_custom : Bool
  pub get_fees_for_proofs : List Proof → ℕ
  pub check_proofs_states : Option (List Proof → Attempt (List String))
  pub keyset : Option Keyset
  pub restore : Option (List String → Attempt (List String × List Signature))

pub record Redeemed (Proof : Type 0) : Type 0 where
  pub proofs : List Proof
  pub amount_sats : ℕ
  pub recovered : Bool

pub data RedeemSwapResult (Proof : Type 0) : Type 0 where
  redeemed : Redeemed Proof → RedeemSwapResult Proof
  failed : Failure → RedeemSwapResult Proof

-- A failure without amounts.
abbrev pub failure : RedeemSwapFailureReason → Bool → Bool → String → Failure
failure reason retry_safe uncertain cause = record {
  reason = reason;
  retry_safe = retry_safe;
  uncertain = uncertain;
  fee = none;
  total_amount = none;
  cause = some cause;
}

module _ {Proof Output Signature Keyset : Type 0}
    (lib : CashuLibrary Proof Output Signature Keyset) where
  unfoldable pub sum_proof_amounts : List Proof → ℕ
  sum_proof_amounts [] = 0
  sum_proof_amounts (p ∷ ps) = lib.amount p + sum_proof_amounts ps

  -- `new Map(outputData.map((o) => [o.blindedMessage.B_, o]))`, into a map that is given.
  unfoldable pub by_blinded_message : List Output → Dict String Output → Dict String Output
  unfolding insert
  by_blinded_message [] index = index
  by_blinded_message (o ∷ os) index = by_blinded_message os (insert (lib.blinded o) o index)

  -- The loop over the restored outputs: one without a signature, or that was not asked for, is skipped.
  unfoldable pub collect : Dict String Output → Keyset → List String → List Signature → List Proof
  unfolding lookup
  collect index keyset [] signatures = []
  collect index keyset (b ∷ bs) [] = []
  collect index keyset (b ∷ bs) (s ∷ ss) =
      let rest = collect index keyset bs ss in
      elim (lookup b index) [ none ↦ rest | some data_of ↦ lib.to_proof data_of s keyset ∷ rest ]

  -- The end of `recoverInterruptedRedeem`, on the proofs that were recovered.
  unfoldable pub kept_proofs : String → List Proof → RedeemSwapResult Proof
  unfolding sum_proof_amounts
  kept_proofs cause [] = failed (failure restore_empty false true cause)
  kept_proofs cause (p ∷ ps) =
      redeemed
        (record { proofs = p ∷ ps; amount_sats = sum_proof_amounts (p ∷ ps); recovered = true })

  -- The answer of the mint to `restore`.
  unfoldable pub restored :
      List Output
      → Keyset
      → String
      → Attempt (List String × List Signature)
      → RedeemSwapResult Proof
  unfolding kept_proofs collect by_blinded_message
  restored outputs keyset cause (throws error) = failed (failure restore_failed false true error)
  restored outputs keyset cause (returns (found, signatures)) =
      kept_proofs cause (collect (by_blinded_message outputs []) keyset found signatures)

  -- `recoverInterruptedRedeem` once an input is known to be spent: the outputs, the keyset and the
  -- mint must be there.
  unfoldable pub restore_outputs :
      Option (List Output)
      → Option Keyset
      → Option (List String → Attempt (List String × List Signature))
      → String
      → RedeemSwapResult Proof
  unfolding restored
  restore_outputs (some outputs) (some keyset) (some restore) cause =
      restored outputs keyset cause (restore (map lib.blinded outputs))
  restore_outputs _ _ _ cause = failed (failure outputs_not_registered false true cause)

  -- The answer of the mint about the inputs.
  unfoldable pub after_states :
      CashuRedeemWallet Proof Output Signature Keyset
      → Option (List Output)
      → String
      → Attempt (List String)
      → RedeemSwapResult Proof
  unfolding restore_outputs any
  after_states wallet outputs cause (throws error) = failed (failure state_unknown false true error)
  after_states wallet outputs cause (returns states) =
      if any (λ s. s == lib.spent) states
      then restore_outputs outputs wallet.keyset wallet.restore cause
      else failed (failure inputs_unspent true false cause)

  -- The query of the states of the inputs, if the wallet has one.
  unfoldable pub states_of :
      Option (List Proof → Attempt (List String)) → List Proof → Option (Attempt (List String))
  states_of none inputs = none
  states_of (some check) inputs = some (check inputs)

  unfoldable pub recover_interrupted_redeem :
      CashuRedeemWallet Proof Output Signature Keyset
      → Option (Attempt (List String))
      → Option (List Output)
      → String
      → RedeemSwapResult Proof
  unfolding after_states
  recover_interrupted_redeem wallet none outputs cause =
      failed (failure mint_error false false cause)
  recover_interrupted_redeem wallet (some states) outputs cause =
      after_states wallet outputs cause states

  -- The outputs that the chain takes, if the wallet has a keyset and the chain takes any.
  unfoldable pub output_data :
      CashuRedeemWallet Proof Output Signature Keyset → ℕ → Option (List Output)
  output_data wallet swap_amount = elim (wallet.keyset) [
    | none ↦ none
    | some keyset ↦
        if wallet.as_custom then some (lib.create_random_data swap_amount keyset) else none
  ]

  -- The answer of the mint to the swap.
  unfoldable pub after_send :
      CashuRedeemWallet Proof Output Signature Keyset
      → List Proof
      → Option (List Output)
      → Attempt (List Proof)
      → RedeemSwapResult Proof
  unfolding sum_proof_amounts recover_interrupted_redeem states_of
  after_send wallet inputs outputs (returns sent) =
      redeemed (record { proofs = sent; amount_sats = sum_proof_amounts sent; recovered = false })
  after_send wallet inputs outputs (throws error) =
      recover_interrupted_redeem wallet (states_of wallet.check_proofs_states inputs) outputs error

  unfoldable pub redeem_signed_proofs :
      CashuRedeemWallet Proof Output Signature Keyset
      → List Proof
      → Option String
      → RedeemSwapResult Proof
  unfolding sum_proof_amounts after_send output_data
  redeem_signed_proofs wallet signed_proofs signing_key =
      let total = sum_proof_amounts signed_proofs in
      let fee = wallet.get_fees_for_proofs signed_proofs in
      let outputs = output_data wallet (total - fee) in
      if leb total fee
      then failed (record {
        reason = fee_exceeds_amount;
        retry_safe = false;
        uncertain = false;
        fee = some fee;
        total_amount = some total;
        cause = none;
      })
      else after_send wallet signed_proofs outputs
          (wallet.send (total - fee) signed_proofs signing_key outputs)
