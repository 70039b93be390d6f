-- ===== src/Protocol/Events/Messages.antt =====
-- Direct messages, kind 4: the preimage deliveries and the two messages that agree on a hash, of
-- packages/protocol/src/events.ts.
use anchr.Prelude.{ℕ, String, [], ◌∷◌, Option, some, nat_eq}
use anchr.Prelude.Json.{Json, Members, property, as_text, is_text}
use anchr.Prelude.Chain.{◌>>=◌, ◌>>◌, require}
use anchr.Protocol.Nostr.{
  Tools, Bytes, Event, Keypair, sign_event, encrypt_nip44, kind_direct_message,
}
use anchr.Protocol.Events.Payload.{
  payload_version, stringify_payload, has_version, decrypted_object,
}

pub record PreimageDeliveryPayload : Type 0 where
  pub query_id : String
  pub request_event_id : String
  pub preimage : String

pub record HashRequestPayload : Type 0 where
  pub query_id : String

pub record HashResponsePayload : Type 0 where
  pub query_id : String
  pub hash : String

abbrev pub preimage_members : PreimageDeliveryPayload → Members
preimage_members payload = Members.member "query_id" (Json.text payload.query_id) (
    Members.member "request_event_id" (Json.text payload.request_event_id)
      (Members.member "preimage" (Json.text payload.preimage) Members.bare))

abbrev pub hash_request_members : HashRequestPayload → Members
hash_request_members payload =
    Members.member "type" (Json.text "hash_request")
      (Members.member "query_id" (Json.text payload.query_id) Members.bare)

abbrev pub hash_response_members : HashResponsePayload → Members
hash_response_members payload = Members.member "type" (Json.text "hash_response") (
    Members.member "query_id" (Json.text payload.query_id)
      (Members.member "hash" (Json.text payload.hash) Members.bare))

-- The body that the three builders share: the message is encrypted and addressed to one key.
unfoldable pub direct_message : Tools → ℕ → String → Keypair → String → Members → Option Event
direct_message tools now nonce identity recipient payload = do
  ciphertext ←
      encrypt_nip44 tools (stringify_payload tools payload payload_version) identity.secret_key
        recipient nonce
  some (
      sign_event tools
        (record {
          kind = kind_direct_message;
          created_at = now;
          content = ciphertext;
          tags = ("p" ∷ recipient ∷ []) ∷ [];
        })
        identity.secret_key)

abbrev pub build_preimage_delivery_event :
    Tools → ℕ → String → Keypair → String → PreimageDeliveryPayload → Option Event
build_preimage_delivery_event tools now nonce identity recipient payload =
    direct_message tools now nonce identity recipient (preimage_members payload)

abbrev pub build_hash_request_event :
    Tools → ℕ → String → Keypair → String → HashRequestPayload → Option Event
build_hash_request_event tools now nonce identity oracle payload =
    direct_message tools now nonce identity oracle (hash_request_members payload)

abbrev pub build_hash_response_event :
    Tools → ℕ → String → Keypair → String → HashResponsePayload → Option Event
build_hash_response_event tools now nonce identity recipient payload =
    direct_message tools now nonce identity recipient (hash_response_members payload)

unfoldable pub decrypt_dm_json : Tools → Event → Bytes → String → Option Members
decrypt_dm_json tools event recipient sender = do
  require (nat_eq event.kind kind_direct_message)
  decrypted_object tools event.content recipient sender

unfoldable pub parse_preimage_delivery_event :
    Tools → Event → Bytes → String → Option PreimageDeliveryPayload
parse_preimage_delivery_event tools event recipient sender = do
  require (nat_eq event.kind kind_direct_message)
  p ← decrypted_object tools event.content recipient sender
  require (has_version p payload_version)
  query_id ← as_text (property "query_id" p)
  request_event_id ← as_text (property "request_event_id" p)
  preimage ← as_text (property "preimage" p)
  some (record { query_id = query_id; request_event_id = request_event_id; preimage = preimage })

unfoldable pub parse_hash_request_event : Tools → Event → Bytes → String → Option HashRequestPayload
parse_hash_request_event tools event recipient sender = do
  p ← decrypt_dm_json tools event recipient sender
  require (has_version p payload_version)
  require (is_text "hash_request" (property "type" p))
  query_id ← as_text (property "query_id" p)
  some (record { query_id = query_id })

unfoldable pub parse_hash_response_event :
    Tools → Event → Bytes → String → Option HashResponsePayload
parse_hash_response_event tools event recipient sender = do
  p ← decrypt_dm_json tools event recipient sender
  require (has_version p payload_version)
  require (is_text "hash_response" (property "type" p))
  query_id ← as_text (property "query_id" p)
  hash ← as_text (property "hash" p)
  some (record { query_id = query_id; hash = hash })
