-- ===== src/Payments/Redeem/Safety.antt =====
-- What a failed swap says about retrying: packages/sdk/src/payments/cashu/redeem-swap.ts.
use anchr.Prelude.{
  ◌-◌, ◌≤◌, String, Bool, true, false, List, Option, none, some, leb, leb→le, any, Eq-string, ◌==◌,
  ◌≡◌, refl, arith, Bool-cases, ◌⊎◌, inl, inr,
}
use anchr.Payments.Redeem.{
  Attempt, returns, throws, Failure, CashuLibrary, CashuRedeemWallet, RedeemSwapResult, redeemed,
  failed, sum_proof_amounts, restore_outputs, recover_interrupted_redeem, output_data,
  redeem_signed_proofs, restored, kept_proofs, after_states, states_of, after_send,
}

-- A predicate on the failure of a result, if it is one.
abbrev pub OnFailed : {A : Type 0} → (Failure → Type 0) → RedeemSwapResult A → Type 0
OnFailed P (redeemed r) = Unit
OnFailed P (failed f) = P f

-- The two flags of a failure.
abbrev pub Flags : Bool → Bool → Failure → Type 0
Flags safe uncertain f = (f.retry_safe ≡ safe) × (f.uncertain ≡ uncertain)

module _ {P O S K : Type 0} (lib : CashuLibrary P O S K) (wallet : CashuRedeemWallet P O S K) where
  -- What the mint has answered about the inputs decides the flags of a failure after the swap was sent:
  -- nothing, as the wallet cannot ask; an error; that an input is spent; or that none is.
  abbrev pub Told : Option (Attempt (List String)) → Failure → Type 0
  Told none f = Flags false false f
  Told (some (throws error)) f = Flags false true f
  Told (some (returns states)) f =
      ((any (λ s. s == lib.spent) states ≡ true) × Flags false true f)
      ⊎ ((any (λ s. s == lib.spent) states ≡ false) × Flags true false f)

  -- Nothing was sent, as the fee eats the amount up; or the mint's answer about the inputs decides.
  abbrev pub Honest : List P → Failure → Type 0
  Honest inputs f =
      ((sum_proof_amounts lib inputs ≤ wallet.get_fees_for_proofs inputs) × Flags false false f)
      ⊎ Told (states_of lib wallet.check_proofs_states inputs) f

  restore_outputs-Flags :
      (outputs : Option (List O)) (keyset : Option K)
      (restore : Option (List String → Attempt (List String × List S))) (cause : String)
      → OnFailed (Flags false true) (restore_outputs lib outputs keyset restore cause)
  unfolding restore_outputs restored kept_proofs
  restore_outputs-Flags outputs keyset restore cause = ground arith

  spent-Told :
      (states : List String) (r : RedeemSwapResult P)
      → any (λ s. s == lib.spent) states ≡ true
      → OnFailed (Flags false true) r
      → OnFailed (Told (some (returns states))) r
  spent-Told states (redeemed r) spent h = h
  spent-Told states (failed f) spent h = inl (spent, h)

  recover_interrupted_redeem-Told :
      (outputs : Option (List O)) (cause : String) (answer : Option (Attempt (List String)))
      → OnFailed (Told answer) (recover_interrupted_redeem lib wallet answer outputs cause)
  unfolding recover_interrupted_redeem after_states
  recover_interrupted_redeem-Told outputs cause none = (refl, refl)
  recover_interrupted_redeem-Told outputs cause (some (throws error)) = (refl, refl)
  recover_interrupted_redeem-Told outputs cause (some (returns states)) =
      elim (Bool-cases (any (λ s. s == lib.spent) states)) [
        | inl spent ↦
            spent-Told states (after_states lib wallet outputs cause (returns states)) spent
              (rw spent (restore_outputs-Flags outputs wallet.keyset wallet.restore cause))
        | inr unspent ↦ rw unspent (inr (unspent, (refl, refl)))
      ]

  OnFailed-Honest :
      (inputs : List P) (r : RedeemSwapResult P)
      → OnFailed (Told (states_of lib wallet.check_proofs_states inputs)) r
      → OnFailed (Honest inputs) r
  OnFailed-Honest inputs (redeemed r) h = h
  OnFailed-Honest inputs (failed f) h = inr h

  after_send-Honest :
      (inputs : List P) (outputs : Option (List O)) (answer : Attempt (List P))
      → OnFailed (Honest inputs) (after_send lib wallet inputs outputs answer)
  unfolding after_send
  after_send-Honest inputs outputs (returns sent) = tt
  after_send-Honest inputs outputs (throws error) = OnFailed-Honest inputs _ (
      recover_interrupted_redeem-Told outputs error
        (states_of lib wallet.check_proofs_states inputs))

  -- A redemption that fails either sent nothing, as the fees reach the amount, and then no flag is set;
  -- or what the mint answers about the inputs sets the flags. It is declared safe to retry exactly if
  -- the mint says that none of them is spent, and uncertain exactly if the mint says that one is, or
  -- fails to say. If the wallet cannot ask the mint at all, the failure is declared neither safe nor
  -- uncertain, though the swap was sent.
  pub redeem_signed_proofs-Honest :
      (inputs : List P) (signing_key : Option String)
      → OnFailed (Honest inputs) (redeem_signed_proofs lib wallet inputs signing_key)
  unfolding redeem_signed_proofs
  redeem_signed_proofs-Honest inputs signing_key =
      let total = sum_proof_amounts lib inputs in
      let fee = wallet.get_fees_for_proofs inputs in
      elim (Bool-cases (leb total fee)) [
        | inl short ↦ rw short (inl (leb→le _ _ short, (refl, refl)))
        | inr enough ↦ rw enough (after_send-Honest inputs (output_data lib wallet (total - fee)) _)
      ]
