-- ===== src/Tests/Escrow.antt =====
-- Runs of the escrow providers and of the signing of the peers on concrete inputs.
use anchr.Prelude.{
  ℕ, String, true, List, [], ◌∷◌, Option, none, some, ◌≡◌, refl, ◌==◌, Eq-string, Eq-nat,
  if◌then◌else◌, find, any, nat_eq, length, ◌↔◌,
}
use anchr.Prelude.Json.{Json, Elements, Members, property}
use anchr.Prelude.Dict.{Dict, lookup, insert}
use anchr.Requests.Finalize.{ServiceDeps}
use anchr.Requests.Types.{Query, EscrowInfo, provider_selected, escrow_swapped}
use anchr.Requests.EscrowFlow.{
  decide_selection, commits, escrow_reference, amount_check, lock_check,
}
use anchr.Requests.EscrowFlow.Settlement.{Binds, unchecked_token_committed}
use anchr.Payments.Escrow.{TokenTools}
use anchr.Payments.Escrow.Frost.{
  FrostEntry, verify_frost_lock, check_token, check_secrets, check_secret, check_body, lock_pubkeys,
  same_x_only_pubkey, to_x_only, texts, string_tags,
}
use anchr.Payments.Escrow.FrostLock.{verify_frost_lock_iff, EntryLocked}
use anchr.Payments.Escrow.Htlc.{
  create_cashu_escrow_provider, verify_htlc_lock, check_htlc_token, check_htlc_secrets,
  check_htlc_secret, check_htlc_body, key_entry, find_pubkeys, includes_text, provider_hex,
}
use anchr.Payments.Escrow.Signatures.{
  Proof, append_frost_p2pk_group_signatures, append_frost_p2pk_group_signatures-Appended, Appended,
  append_all, signed_witness, parse_witness, get_witness_signatures, text_entries, text_array,
  set_property,
}
use anchr.Payments.PeerSigning.{
  PeerConfig, FrostNodeConfig, Signers, answers, breaks, coordinate_signing, first_round,
  SigningCoordinatorResult, sign_and_collect, aggregate_shares, collect_commitments, collect_shares,
}
use anchr.Payments.PeerSigning.Shares.{coordinate_signing-Backed, Backed}
use anchr.Tests.Data.{escrow_query, htlc_escrow, wired}
use anchr.Requests.Aggregate.{select_provider}
use anchr.Requests.Transitions.{is_valid_transition}

abbrev words : List String → Elements
words [] = Elements.empty
words (s ∷ rest) = Elements.element (Json.text s) (words rest)

-- A secret with a kind, the data, and two tags.
abbrev secret : String → String → List String → List String → Json
secret kind data_text pubkeys n_sigs = Json.array (
    Elements.element (Json.text kind) (
      Elements.element
        (Json.object (
          Members.member "data" (Json.text data_text) (
            Members.member "tags"
              (Json.array (
                Elements.element (Json.array (words ("pubkeys" ∷ pubkeys)))
                  (Elements.element (Json.array (words ("n_sigs" ∷ n_sigs))) Elements.empty)))
              Members.bare)))
        Elements.empty))

abbrev tools_of : Json → TokenTools
tools_of json = record {
  secrets = λ token. some ("secret" ∷ []);
  parse = λ s. some json;
  to_lower = λ s. s;
  error_text = "";
}

-- Two keys of the customer stand beside those of the provider and the group.
abbrev frost_tools : TokenTools
frost_tools = tools_of (secret "P2PK" "p1" ("group" ∷ "mine" ∷ "mine too" ∷ []) ("2" ∷ []))

abbrev frost_tokens : Dict String FrostEntry
frost_tokens =
    ("ref", record { token = "token"; customer_refund_pubkey = "mine"; locktime_seconds = 0 }) ∷ []

verify_frost_lock_iff_example :
    ((verify_frost_lock frost_tools "group" frost_tokens "ref" "hash" "p1").ok ≡ true) ↔ (
      (entry : FrostEntry) × (lookup "ref" frost_tokens ≡ some entry)
      × EntryLocked frost_tools "group" "p1" entry)
verify_frost_lock_iff_example =
    verify_frost_lock_iff frost_tools "group" "p1" frost_tokens "ref" "hash"

foreign_keys_confirmed :
    (verify_frost_lock frost_tools "group" frost_tokens "ref" "hash" "p1").ok ≡ true
unfolding verify_frost_lock check_token check_secrets check_secret check_body lock_pubkeys
    same_x_only_pubkey to_x_only texts string_tags property find any lookup
foreign_keys_confirmed = refl

abbrev no_proofs_tools : TokenTools
no_proofs_tools = record frost_tools { secrets = λ token. some [] }

empty_token_confirmed :
    (verify_frost_lock no_proofs_tools "group" frost_tokens "ref" "hash" "p1").ok ≡ true
unfolding verify_frost_lock check_token check_secrets lookup
empty_token_confirmed = refl

abbrev htlc_tools : TokenTools
htlc_tools = tools_of (secret "HTLC" "h1" ("02p1" ∷ []) ("1" ∷ []))

abbrev htlc_tokens : Dict String String
htlc_tokens = ("token", "cashuB") ∷ []

abbrev htlc_deps : ServiceDeps
htlc_deps = record wired {
  escrow_provider = some (
      create_cashu_escrow_provider htlc_tools
        (λ token sats. record { valid = true; amount_sats = some sats; error = none }) htlc_tokens);
}

abbrev bare_escrow : EscrowInfo
bare_escrow = record htlc_escrow { escrow_token = none; escrow_ref = none }

-- Awaiting offers, with no token yet.
abbrev bare_query : Query
bare_query = record escrow_query { escrow = some bare_escrow }

abbrev chosen : Query
chosen = record bare_query {
  status = provider_selected;
  payment_status = escrow_swapped;
  escrow = some (record bare_escrow {
    provider_pubkey = some "p1";
    escrow_token = some "token";
    verified_escrow_sats = some 21;
  });
}

-- The same query with a stored reference.
abbrev referring_escrow : EscrowInfo
referring_escrow = record bare_escrow { escrow_ref = some "token" }

abbrev referring_query : Query
referring_query = record escrow_query { escrow = some referring_escrow }

abbrev chosen_by_reference : Query
chosen_by_reference = record referring_query {
  status = provider_selected;
  escrow =
      some
        (record referring_escrow { provider_pubkey = some "p1"; verified_escrow_sats = some 21 });
}

referring_selection :
    decide_selection htlc_deps referring_query "p1" none ≡ commits chosen_by_reference
unfolding decide_selection select_provider is_valid_transition amount_check lock_check
    escrow_reference create_cashu_escrow_provider verify_htlc_lock check_htlc_token
    check_htlc_secrets check_htlc_secret check_htlc_body key_entry find_pubkeys includes_text
    provider_hex property lookup
referring_selection = refl

unchecked_token_committed_example :
    (q'' : Query) × (decide_selection htlc_deps referring_query "p1" (some "forged") ≡ commits q'')
    × Binds referring_query "p1" (some "forged") q''
unchecked_token_committed_example =
    unchecked_token_committed htlc_deps referring_query "p1" "token" referring_escrow none
      chosen_by_reference "forged" refl refl referring_selection

-- Witnesses are written as "signed" and read back as one signature more.
abbrev parse_witness_text : String → Option Json
parse_witness_text s =
    if s == "old"
    then some
        (Json.object (Members.member "signatures" (Json.array (words ("p1" ∷ []))) Members.bare))
    else some (
        Json.object
          (Members.member "signatures" (Json.array (words ("p1" ∷ "group" ∷ []))) Members.bare))

abbrev write_witness : Json → String
write_witness json = "signed"

abbrev proof_of : String → Proof ℕ
proof_of witness = record { witness = some (Json.text witness); rest = 21 }

appended_runs :
    append_frost_p2pk_group_signatures parse_witness_text write_witness
      (proof_of "old" ∷ [])
      ("group" ∷ [])
    ≡ some (proof_of "signed" ∷ [])
unfolding append_frost_p2pk_group_signatures append_all
appended_runs = refl

append_frost_p2pk_group_signatures-Appended_example :
    (1 ≡ length {A = String} ("group" ∷ []))
    × Appended parse_witness_text write_witness
        (proof_of "old" ∷ [])
        ("group" ∷ [])
        (proof_of "signed" ∷ [])
unfolding signed_witness parse_witness get_witness_signatures text_entries text_array set_property
    property
append_frost_p2pk_group_signatures-Appended_example =
    append_frost_p2pk_group_signatures-Appended parse_witness_text write_witness
      (proof_of "old" ∷ []) ("group" ∷ []) (proof_of "signed" ∷ []) (refl, tt) appended_runs

abbrev peer : ℕ → PeerConfig
peer n = record { signer_index = n; endpoint = "http://peer"; api_key = none }

abbrev node : FrostNodeConfig
node = record {
  signer_index = 1;
  total_signers = 3;
  threshold = 2;
  key_package = "";
  pubkey_package = "";
  group_pubkey = "group";
  peers = peer 2 ∷ peer 3 ∷ [];
}

-- The second peer breaks in round 1; every commitment, nonce and share is a text.
abbrev three : Signers String String String
three = record {
  sign_round1 = some ("n1", "c1");
  sign_round2 = λ nonces commitments message. some "s1";
  peer_round1 = λ p message.
      if nat_eq p.signer_index 2
      then breaks
      else answers (record { commitments = "c"; nonce_id = "n" });
  peer_round2 = λ p nonce_id commitments message. answers "s";
  aggregate = λ group commitments message shares. some "signature";
}

abbrev signed : SigningCoordinatorResult
signed = record { signature = "signature"; signers_participated = 1 ∷ 3 ∷ [] }

three_sign : coordinate_signing three node "message" ≡ some signed
unfolding coordinate_signing sign_and_collect aggregate_shares collect_commitments collect_shares
    insert
three_sign = refl

coordinate_signing-Backed_example :
    (own : String × String) × (three.sign_round1 ≡ some own)
    × Backed three node "message" own.0 (first_round three node "message" own.1) signed
coordinate_signing-Backed_example = coordinate_signing-Backed three node "message" signed three_sign
