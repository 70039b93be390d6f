-- ===== src/Payments/Escrow/Htlc.antt =====
-- `verifyLock` of the HTLC escrow: packages/sdk/src/payments/cashu/cashu-escrow-provider.ts.
use anchr.Prelude.{
  ℕ, String, Bool, true, false, ◌||◌, List, [], ◌∷◌, Option, none, some, if◌then◌else◌, ◌==◌,
  Eq-string, codes, template,
}
use anchr.Prelude.Json.{Json, Elements, Members, property, as_object, is_text}
use anchr.Prelude.Dict.{Dict, lookup}
use anchr.Requests.Finalize.{LockCheck, AmountCheck, EscrowProvider}
use anchr.Payments.Escrow.{TokenTools, passes, fails}
use anchr.Payments.Escrow.Frost.{is_prefixed, first_element}

-- The outcome for one proof: it passes, fails with a message, or the code throws.
pub data Outcome : Type 0 where
  proper : Outcome
  improper : String → Outcome
  crashes : Outcome

-- `tags.find((t) => t[0] === "pubkeys")`.
pub data Found : Type 0 where
  missing : Found
  keys : Elements → Found
  not_a_tag : Found

-- `t[0] === "pubkeys"` and `slice(1)` on one entry: an entry that is no array either has no such
-- member, has no `slice`, or, being `null`, has no members at all.
unfoldable pub key_entry : Json → Found
key_entry (Json.array (Elements.element (Json.text key) rest)) =
    if key == "pubkeys" then keys rest else missing
key_entry (Json.object p) = if is_text "pubkeys" (property "0" p) then not_a_tag else missing
key_entry Json.null = not_a_tag
key_entry _ = missing

abbrev pub or_found : Found → Found → Found
or_found missing later = later
or_found now later = now

unfoldable pub find_pubkeys : Elements → Found
find_pubkeys Elements.empty = missing
find_pubkeys (Elements.element entry rest) =
    let later = find_pubkeys rest in or_found (key_entry entry) later

-- `tags?.find(...)`: other values than arrays have no `find`.
abbrev pub pubkey_tag : Option Json → Found
pubkey_tag none = missing
pubkey_tag (some Json.null) = missing
pubkey_tag (some (Json.array xs)) = find_pubkeys xs
pubkey_tag (some _) = not_a_tag

-- `lockedKeys.includes(key)`.
unfoldable pub includes_text : Elements → String → Bool
includes_text Elements.empty key = false
includes_text (Elements.element value rest) key = is_text key (some value) || includes_text rest key

unfoldable pub provider_hex : String → String
provider_hex provider =
    if is_prefixed (codes provider) then provider else template ("02" ∷ provider ∷ [])

module _ (tools : TokenTools) (hash provider : String) where
  abbrev pub check_keys : Found → Outcome
  check_keys missing = improper "No pubkeys tag in HTLC proof"
  check_keys not_a_tag = crashes
  check_keys (keys locked) =
      if includes_text locked provider || includes_text locked (provider_hex provider)
      then proper
      else improper "HTLC token not locked to selected provider"

  -- `secret[1]?.data` and `secret[1]?.tags`.
  unfoldable pub check_htlc_body : Option Members → Outcome
  check_htlc_body none = improper "HTLC hash mismatch: token hashlock does not match query"
  check_htlc_body (some body) =
      if is_text hash (property "data" body)
      then check_keys (pubkey_tag (property "tags" body))
      else improper "HTLC hash mismatch: token hashlock does not match query"

  unfoldable pub check_htlc_secret : Option Json → Outcome
  check_htlc_secret (some (Json.array (Elements.element (Json.text kind) rest))) =
      if kind == "HTLC"
      then check_htlc_body (as_object (first_element rest))
      else improper "Proof is not an HTLC proof"
  check_htlc_secret (some _) = improper "Proof is not an HTLC proof"
  check_htlc_secret none = improper "Proof secret is not valid JSON"

  -- The loop stops at the first proof that is not proper.
  abbrev pub then_check : Outcome → Option LockCheck → Option LockCheck
  then_check proper later = later
  then_check (improper why) later = some (fails why)
  then_check crashes later = none

  unfoldable pub check_htlc_secrets : Bool → List String → Option LockCheck
  check_htlc_secrets checked [] =
      some (if checked then passes else fails "Token has no HTLC proofs")
  check_htlc_secrets checked (s ∷ rest) =
      let later = check_htlc_secrets true rest in
      then_check (check_htlc_secret (tools.parse s)) later

  unfoldable pub check_htlc_token : Option (List String) → Option LockCheck
  check_htlc_token none =
      some (fails (template ("Token failed to decode: " ∷ tools.error_text ∷ [])))
  check_htlc_token (some secrets) = check_htlc_secrets false secrets

abbrev pub verify_htlc_entry : TokenTools → String → String → Option String → Option LockCheck
verify_htlc_entry tools hash provider none = some (fails "Unknown escrow reference")
verify_htlc_entry tools hash provider (some token) =
    check_htlc_token tools hash provider (tools.secrets token)

-- The tokens by their references; `none` where the call throws.
unfoldable pub verify_htlc_lock :
    TokenTools → Dict String String → String → String → String → Option LockCheck
unfolding lookup
verify_htlc_lock tools tokens ref hash provider =
    verify_htlc_entry tools hash provider (lookup ref tokens)

abbrev pub unknown_reference : AmountCheck
unknown_reference = record {
  valid = false;
  amount_sats = none;
  error = some "Unknown escrow reference";
}

abbrev pub verify_token_of : (String → ℕ → AmountCheck) → Option String → ℕ → AmountCheck
verify_token_of verify_token none expected = unknown_reference
verify_token_of verify_token (some token) expected = verify_token token expected

-- A call that throws rejects its promise; as an answer of the port that is a failed check.
abbrev pub settled_check : Option LockCheck → LockCheck
settled_check none = fails "rejected"
settled_check (some check) = check

-- The port over the tokens that are held; `verify_token` is `verifyToken`, which asks the mint.
unfoldable pub create_cashu_escrow_provider :
    TokenTools → (String → ℕ → AmountCheck) → Dict String String → EscrowProvider
unfolding lookup
create_cashu_escrow_provider tools verify_token tokens = record {
  verify = λ ref expected. verify_token_of verify_token (lookup ref tokens) expected;
  verify_lock =
      λ ref hash provider. settled_check (verify_htlc_lock tools tokens ref hash provider);
}
