-- ===== src/Tests/Payments.antt =====
-- The redemption of proofs and the FROST coordinator at concrete inputs.
use anchr.Prelude.{
  ℕ, String, true, false, [], ◌∷◌, Option, none, some, ◌≡◌, refl, Eq-string, Eq-nat, includes,
}
use anchr.Prelude.Dict.{Dict}
use anchr.Payments.Redeem.{
  returns, throws, CashuLibrary, CashuRedeemWallet, redeem_signed_proofs, output_data,
  sum_proof_amounts,
}
use anchr.Payments.Redeem.Safety.{OnFailed, Honest, redeem_signed_proofs-Honest}
use anchr.Payments.Redeem.Recovery.{OnRedeemed, Genuine, redeem_signed_proofs-Genuine}
use anchr.Payments.Coordinator.{
  Coordinator, FrostSigningSession, ThresholdOracleConfig, DkgSession, Aggregation,
  get_signing_session, try_aggregate,
}
use anchr.Payments.Coordinator.Signing.{Threshold, try_aggregate-Threshold}
use anchr.Payments.Coordinator.Dkg.{KeyPackage, DkgRoundResult, one, submit_to_session}
use anchr.Payments.Signer.{Step, begins, signs, uses}
use anchr.Payments.Signer.Once.{Begun, session_ids, nonces_used_once}
use anchr.Prelude.{All, List, Distinct}

-- A proof is its amount, an output its blinded text with an amount, and a keyset and a signature a
-- number.
abbrev lib : CashuLibrary ℕ (String × ℕ) ℕ ℕ
lib = record {
  amount = λ p. p;
  spent = "SPENT";
  create_random_data = λ n k. ("B1", n) ∷ [];
  blinded = λ o. o.0;
  to_proof = λ o s k. o.1;
}

-- The mint took the inputs, and the answer was lost.
abbrev lossy : CashuRedeemWallet ℕ (String × ℕ) ℕ ℕ
lossy = record {
  send = λ n inputs key outputs. throws "timeout";
  as_custom = true;
  get_fees_for_proofs = λ inputs. 1;
  check_proofs_states = some (λ inputs. returns ("SPENT" ∷ []));
  keyset = some 7;
  restore = some (λ outputs. returns (outputs, 3 ∷ []));
}

-- The mint did not take the inputs.
abbrev refusing : CashuRedeemWallet ℕ (String × ℕ) ℕ ℕ
refusing = record lossy { check_proofs_states = some (λ inputs. returns ("UNSPENT" ∷ [])) }

redeem_signed_proofs-Honest_example :
    OnFailed (Honest lib refusing (8 ∷ [])) (redeem_signed_proofs lib refusing (8 ∷ []) none)
redeem_signed_proofs-Honest_example = redeem_signed_proofs-Honest lib refusing (8 ∷ []) none

redeem_signed_proofs-Genuine_example :
    OnRedeemed
      (Genuine lib lossy (output_data lib lossy 7) (throws "timeout"))
      (redeem_signed_proofs lib lossy (8 ∷ []) none)
unfolding output_data sum_proof_amounts
redeem_signed_proofs-Genuine_example = redeem_signed_proofs-Genuine lib lossy (8 ∷ []) none

abbrev two_of_three : ThresholdOracleConfig
two_of_three = record {
  threshold = 2;
  total_signers = 3;
  signer_pubkeys = "s1" ∷ "s2" ∷ "s3" ∷ [];
  group_pubkey = "g";
}

abbrev signed_by_two : FrostSigningSession
signed_by_two = record {
  session_id = "f1";
  query_id = "q1";
  config = two_of_three;
  message = "m";
  nonce_commitments = ("s1", "c1") ∷ ("s2", "c2") ∷ [];
  signature_shares = ("s1", "x1") ∷ ("s2", "x2") ∷ [];
  group_signature = none;
  finalized = false;
  created_at = 5;
}

abbrev coordinator : Coordinator
coordinator = record {
  dkg_sessions = [];
  signing_sessions = ("f1", signed_by_two) ∷ [];
  query_sessions = ("q1", "f1") ∷ [];
}

abbrev signer : Aggregation → Option String
signer request = some "signature"

aggregated : (try_aggregate signer coordinator "f1" none).1 ≡ some "signature"
unfolding try_aggregate
aggregated = refl

try_aggregate-Threshold_example :
    Threshold signer coordinator
      (try_aggregate signer coordinator "f1" none).0
      "f1"
      none
      "signature"
try_aggregate-Threshold_example =
    try_aggregate-Threshold signer coordinator "f1" none "signature" aggregated

abbrev settled_session : FrostSigningSession
settled_session = record signed_by_two { group_signature = some "signature"; finalized = true }

abbrev settled_coordinator : Coordinator
settled_coordinator = record coordinator { signing_sessions = ("f1", settled_session) ∷ [] }

found_settled : get_signing_session settled_coordinator "f1" ≡ some settled_session
unfolding get_signing_session
found_settled = refl

abbrev dkg : DkgSession
dkg = record {
  session_id = "d1";
  threshold = 2;
  total_signers = 2;
  current_round = 3;
  round1_packages = (1, "a") ∷ (2, "b") ∷ [];
  round1_secret_packages = [];
  round2_packages = [];
  round2_secret_packages = [];
  key_packages = [];
  pubkey_package = none;
  group_pubkey = none;
  created_at = 5;
}

abbrev no_maps : String → Option (Dict ℕ String)
no_maps text = none

abbrev no_keys : String → Option KeyPackage
no_keys text = none

abbrev reset : DkgSession
reset = record dkg { round1_packages = (1, "a2") ∷ (2, "b") ∷ []; current_round = 1 }

abbrev reset_result : DkgRoundResult
reset_result = record { round = 1; complete = true; group_pubkey = none; pubkey_package = none }

package_submitted :
    submit_to_session no_maps no_keys dkg one 1 "a2" none ≡ some (reset, reset_result)
unfolding submit_to_session
package_submitted = refl

abbrev signing : List Step
signing =
    begins "n1" "m" (record { nonces = "k1"; commitments = "c1" })
    ∷ begins "n2" "m2" (record { nonces = "k2"; commitments = "c2" })
    ∷ signs (some "n1") "m"
    ∷ signs (some "n1") "m"
    ∷ signs (some "n2") "m"
    ∷ []

-- The second use of a session and a use for another message get no nonces.
one_signing : uses [] signing ≡ (record { session_id = "n1"; nonces = "k1"; message = "m" }) ∷ []
unfolding uses
one_signing = refl

nonces_used_once_example :
    Distinct (session_ids (uses [] signing)) × All (λ u. Begun u signing) (uses [] signing)
unfolding includes
nonces_used_once_example = nonces_used_once signing (refl, (refl, tt))
