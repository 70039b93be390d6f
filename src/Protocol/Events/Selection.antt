-- ===== src/Protocol/Events/Selection.antt =====
-- Selections, kind 7000, encrypted to the chosen provider: buildSelectionFeedbackEvent and
-- parseSelectionFeedbackEvent of packages/protocol/src/events.ts.
use anchr.Prelude.{
  ℕ, String, Bool, false, List, [], ◌∷◌, Option, none, some, nat_eq, ◌==◌, Eq-string,
}
use anchr.Prelude.Json.{
  Json, Members, Numeral, property, optional, as_text, as_number, as_object, is_text,
}
use anchr.Prelude.Chain.{◌>>=◌, ◌>>◌, require}
use anchr.Protocol.Nostr.{
  Tools, Bytes, Event, Keypair, sign_event, encrypt_nip44, find_tag_value, kind_query_feedback,
}
use anchr.Protocol.Events.Payload.{
  payload_version, stringify_payload, has_version, decrypted_object,
}

-- The context is an object or, as the parser lets pass, an array.
pub record SelectionExecutionPayload : Type 0 where
  pub schema : String
  pub predicate : Option Json
  pub description : Option String
  pub context : Option Json
  pub mint_url : String
  pub max_amount_sats : Numeral
  pub amount_sats : Numeral
  pub locktime_seconds : Numeral

pub record SelectionFeedbackPayload : Type 0 where
  pub selected_provider_pubkey : String
  pub provider_redemption_token : String
  pub execution : SelectionExecutionPayload

abbrev pub described : Option String → Option Json
described none = none
described (some s) = some (Json.text s)

abbrev pub execution_members : SelectionExecutionPayload → Members
execution_members execution = Members.member "schema" (Json.text execution.schema) (
    optional "predicate" execution.predicate (
      optional "description" (described execution.description) (
        optional "context" execution.context (
          Members.member "mint_url" (Json.text execution.mint_url) (
            Members.member "max_amount_sats" (Json.number execution.max_amount_sats) (
              Members.member "amount_sats" (Json.number execution.amount_sats) (
                Members.member "locktime_seconds" (Json.number execution.locktime_seconds)
                  Members.bare)))))))

abbrev pub selection_members : SelectionFeedbackPayload → Members
selection_members payload = Members.member "status" (Json.text "processing") (
    Members.member "selected_provider_pubkey" (Json.text payload.selected_provider_pubkey) (
      Members.member "provider_redemption_token" (Json.text payload.provider_redemption_token) (
        Members.member "execution" (Json.object (execution_members payload.execution))
          Members.bare)))

abbrev pub selection_tags : String → String → List (List String)
selection_tags request_event_id provider =
    ("e" ∷ request_event_id ∷ "" ∷ "request" ∷ [])
    ∷ ("p" ∷ provider ∷ [])
    ∷ ("status" ∷ "processing" ∷ [])
    ∷ []

-- `none` where the encryption throws.
unfoldable pub build_selection_feedback_event :
    Tools → ℕ → String → Keypair → String → SelectionFeedbackPayload → Option Event
build_selection_feedback_event tools now nonce identity request_event_id payload = do
  ciphertext ←
      encrypt_nip44 tools (stringify_payload tools (selection_members payload) payload_version)
        identity.secret_key payload.selected_provider_pubkey nonce
  some (
      sign_event tools
        (record {
          kind = kind_query_feedback;
          created_at = now;
          content = ciphertext;
          tags = selection_tags request_event_id payload.selected_provider_pubkey;
        })
        identity.secret_key)

-- `typeof v === "object" && v !== null ? v : undefined`.
abbrev pub object_or_none : Option Json → Option Json
object_or_none (some (Json.object p)) = some (Json.object p)
object_or_none (some (Json.array xs)) = some (Json.array xs)
object_or_none _ = none

unfoldable pub read_execution : Members → Option SelectionExecutionPayload
read_execution execution = do
  schema ← as_text (property "schema" execution)
  predicate ← property "predicate" execution
  max_amount_sats ← as_number (property "max_amount_sats" execution)
  amount_sats ← as_number (property "amount_sats" execution)
  mint_url ← as_text (property "mint_url" execution)
  locktime_seconds ← as_number (property "locktime_seconds" execution)
  some (record {
    schema = schema;
    predicate = some predicate;
    description = as_text (property "description" execution);
    context = object_or_none (property "context" execution);
    mint_url = mint_url;
    max_amount_sats = max_amount_sats;
    amount_sats = amount_sats;
    locktime_seconds = locktime_seconds;
  })

abbrev pub is_value : Option String → String → Bool
is_value none wanted = false
is_value (some found) wanted = found == wanted

unfoldable pub parse_selection_feedback_event :
    Tools → Event → Bytes → String → Option SelectionFeedbackPayload
parse_selection_feedback_event tools event recipient sender = do
  require (nat_eq event.kind kind_query_feedback)
  p ← decrypted_object tools event.content recipient sender
  require (has_version p payload_version)
  require (is_text "processing" (property "status" p))
  selected_provider_pubkey ← as_text (property "selected_provider_pubkey" p)
  provider_redemption_token ← as_text (property "provider_redemption_token" p)
  inner ← as_object (property "execution" p)
  execution ← read_execution inner
  require (is_value (find_tag_value event.tags "p") selected_provider_pubkey)
  some (record {
    selected_provider_pubkey = selected_provider_pubkey;
    provider_redemption_token = provider_redemption_token;
    execution = execution;
  })
