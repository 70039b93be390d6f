-- ===== src/Payments/Redeem/Recovery.antt =====
-- What a redemption returns, also one that is recovered: packages/sdk/src/payments/cashu/redeem-swap.ts.
use anchr.Prelude.{
  ◌-◌, String, true, false, List, [], ◌∷◌, Option, none, some, leb, any, Eq-string, ◌==◌, ◌≡◌, refl,
  arith, Bool-cases, Option-cases, inl, inr, ◌⊎◌, All, ◌≢◌,
}
use anchr.Prelude.Dict.{Dict, lookup, Values, insert-Values, lookup-Values}
use anchr.Payments.Redeem.{
  Attempt, returns, throws, CashuLibrary, CashuRedeemWallet, Redeemed, RedeemSwapResult, redeemed,
  failed, sum_proof_amounts, collect, by_blinded_message, restore_outputs,
  recover_interrupted_redeem, output_data, redeem_signed_proofs, restored, kept_proofs,
  after_states, states_of, after_send,
}

abbrev pub Among : {A : Type 0} → A → List A → Type 0
Among a [] = ⊥
Among a (b ∷ bs) = (b ≡ a) ⊎ Among a bs

-- A predicate on what was redeemed, if anything was.
abbrev pub OnRedeemed : {A : Type 0} → (Redeemed A → Type 0) → RedeemSwapResult A → Type 0
OnRedeemed P (redeemed r) = P r
OnRedeemed P (failed f) = Unit

module _ {P O S K : Type 0} (lib : CashuLibrary P O S K) where
  -- The proof is made from one of the outputs that the swap asked for.
  abbrev pub Signed : List O → K → P → Type 0
  Signed outputs keyset p = (o : O) × (s : S) × Among o outputs × (p ≡ lib.to_proof o s keyset)

  by_blinded_message-Among :
      (all outputs : List O) (index : Dict String O)
      → All (λ o. Among o all) outputs
      → Values (λ o. Among o all) index
      → Values (λ o. Among o all) (by_blinded_message lib outputs index)
  unfolding by_blinded_message
  by_blinded_message-Among all [] index h v = v
  by_blinded_message-Among all (o ∷ os) index h v =
      by_blinded_message-Among all os _ h.1
        (insert-Values (λ o. Among o all) (lib.blinded o) o index h.0 v)

  collect-Signed :
      (all : List O) (index : Dict String O) (keyset : K) (found : List String)
      (signatures : List S)
      → Values (λ o. Among o all) index
      → All (Signed all keyset) (collect lib index keyset found signatures)
  unfolding collect
  collect-Signed all index keyset [] signatures v = tt
  collect-Signed all index keyset (b ∷ bs) [] v = tt
  collect-Signed all index keyset (b ∷ bs) (s ∷ ss) v = elim (Option-cases (lookup b index)) [
    | inl missing ↦ rw (missing, collect, All) (collect-Signed all index keyset bs ss v)
    | inr (o, there) ↦
        rw (there, collect, All)
          (
            (o, s, lookup-Values (λ o. Among o all) b index v there, refl),
            collect-Signed all index keyset bs ss v,
          )
  ]

  Among-later :
      (o : O) (all os : List O) → All (λ x. Among x all) os → All (λ x. Among x (o ∷ all)) os
  Among-later o all [] h = tt
  Among-later o all (x ∷ xs) h = (inr h.0, Among-later o all xs h.1)

  All-Among : (all : List O) → All (λ o. Among o all) all
  All-Among [] = tt
  All-Among (o ∷ os) = (inl refl, Among-later o os os (All-Among os))

module _ {P O S K : Type 0} (lib : CashuLibrary P O S K) (wallet : CashuRedeemWallet P O S K) where
  -- The proofs were restored from these outputs.
  pub record Restored (outputs : Option (List O)) (r : Redeemed P) : Type 0 where
    pub recovered : r.recovered ≡ true
    pub summed : r.amount_sats ≡ sum_proof_amounts lib r.proofs
    pub some_proof : r.proofs ≢ []
    pub signed :
        (asked : List O) × (keyset : K) × (outputs ≡ some asked)
        × (wallet.keyset ≡ some keyset)
        × All (Signed lib asked keyset) r.proofs

  kept_proofs-Restored :
      (asked : List O) (keyset : K) (cause : String) (ps : List P)
      → wallet.keyset ≡ some keyset
      → All (Signed lib asked keyset) ps
      → OnRedeemed (Restored (some asked)) (kept_proofs lib cause ps)
  unfolding kept_proofs
  kept_proofs-Restored asked keyset cause [] wired h = tt
  kept_proofs-Restored asked keyset cause (p ∷ rest) wired h = record {
    recovered = refl;
    summed = refl;
    some_proof = λ e. absurd (ground arith);
    signed = (asked, keyset, refl, wired, h);
  }

  restored-Restored :
      (asked : List O) (keyset : K) (cause : String) (a : Attempt (List String × List S))
      → wallet.keyset ≡ some keyset
      → OnRedeemed (Restored (some asked)) (restored lib asked keyset cause a)
  unfolding restored
  restored-Restored asked keyset cause (throws error) wired = tt
  restored-Restored asked keyset cause (returns (found, signatures)) wired =
      kept_proofs-Restored asked keyset cause _ wired (
        collect-Signed lib asked _ keyset found signatures
          (by_blinded_message-Among lib asked asked [] (All-Among lib asked) tt))

  restore_outputs-Restored :
      (outputs : Option (List O)) (keyset : Option K)
      (restore : Option (List String → Attempt (List String × List S))) (cause : String)
      → wallet.keyset ≡ keyset
      → OnRedeemed (Restored outputs) (restore_outputs lib outputs keyset restore cause)
  unfolding restore_outputs
  restore_outputs-Restored none keyset restore cause wired = tt
  restore_outputs-Restored (some asked) none restore cause wired = tt
  restore_outputs-Restored (some asked) (some keyset) none cause wired = tt
  restore_outputs-Restored (some asked) (some keyset) (some restore) cause wired =
      restored-Restored asked keyset cause _ wired

  recover_interrupted_redeem-Restored :
      (answer : Option (Attempt (List String))) (outputs : Option (List O)) (cause : String)
      → OnRedeemed (Restored outputs) (recover_interrupted_redeem lib wallet answer outputs cause)
  unfolding recover_interrupted_redeem after_states
  recover_interrupted_redeem-Restored none outputs cause = tt
  recover_interrupted_redeem-Restored (some (throws error)) outputs cause = tt
  recover_interrupted_redeem-Restored (some (returns states)) outputs cause =
      elim (Bool-cases (any (λ s. s == lib.spent) states)) [
        | inl spent ↦
            rw spent (restore_outputs-Restored outputs wallet.keyset wallet.restore cause refl)
        | inr unspent ↦ rw unspent tt
      ]

  -- What a redemption returned, with `outputs` the outputs that it asked for: what the mint sent, or
  -- proofs that were restored.
  abbrev pub Genuine : Option (List O) → Attempt (List P) → Redeemed P → Type 0
  Genuine outputs answer r =
      ((r.recovered ≡ false)
        × (answer ≡ returns r.proofs)
        × (r.amount_sats ≡ sum_proof_amounts lib r.proofs))
      ⊎ Restored outputs r

  OnRedeemed-inr :
      (outputs : Option (List O)) (answer : Attempt (List P)) (r : RedeemSwapResult P)
      → OnRedeemed (Restored outputs) r
      → OnRedeemed (Genuine outputs answer) r
  OnRedeemed-inr outputs answer (redeemed r) h = inr h
  OnRedeemed-inr outputs answer (failed f) h = tt

  after_send-Genuine :
      (inputs : List P) (outputs : Option (List O)) (answer : Attempt (List P))
      → OnRedeemed (Genuine outputs answer) (after_send lib wallet inputs outputs answer)
  unfolding after_send
  after_send-Genuine inputs outputs (returns sent) = inl (refl, refl, refl)
  after_send-Genuine inputs outputs (throws error) = OnRedeemed-inr outputs (throws error) _ (
      recover_interrupted_redeem-Restored (states_of lib wallet.check_proofs_states inputs) outputs
        error)

  -- The proofs of a redemption are those that the mint sent, or, after a lost answer, at least one,
  -- each made by `toProof` from an output that this swap asked for. The amount is their sum.
  pub redeem_signed_proofs-Genuine :
      (inputs : List P) (signing_key : Option String)
      → let swap = sum_proof_amounts lib inputs - wallet.get_fees_for_proofs inputs in
        let outputs = output_data lib wallet swap in
        OnRedeemed
          (Genuine outputs (wallet.send swap inputs signing_key outputs))
          (redeem_signed_proofs lib wallet inputs signing_key)
  unfolding redeem_signed_proofs
  redeem_signed_proofs-Genuine inputs signing_key =
      let total = sum_proof_amounts lib inputs in
      let fee = wallet.get_fees_for_proofs inputs in
      elim (Bool-cases (leb total fee)) [
        | inl short ↦ rw short tt
        | inr enough ↦
            rw enough (after_send-Genuine inputs (output_data lib wallet (total - fee)) _)
      ]
