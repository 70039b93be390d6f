-- ===== src/Protocol/Events/RoundTrip/Messages.antt =====
-- Round trips of packages/protocol/src/events.ts: direct messages.
use anchr.Prelude.{ℕ, String, some, Eq-string, ◌≡◌, refl}
use anchr.Prelude.Json.{Json, property}
use anchr.Prelude.Chain.{◌>>=◌}
use anchr.Protocol.Nostr.{Tools, Bytes, Keypair, Finalizes}
use anchr.Protocol.Events.Payload.{payload_version, stringify_payload, with_version, has_version}
use anchr.Protocol.Events.Messages.{
  PreimageDeliveryPayload, preimage_members, HashRequestPayload, hash_request_members,
  HashResponsePayload, hash_response_members, direct_message, build_preimage_delivery_event,
  parse_preimage_delivery_event, build_hash_request_event, parse_hash_request_event,
  build_hash_response_event, parse_hash_response_event, decrypt_dm_json,
}
use anchr.Protocol.Events.Channel.{Carries, encrypt-Carries, decrypted-Carries}

module _ (tools : Tools) (laws : Finalizes tools) (now : ℕ) (nonce : String) (identity : Keypair)
    (recipient : Bytes) where
  -- The recipient of a preimage reads it as it was sent.
  parse-build_preimage_delivery :
      (to : String) (payload : PreimageDeliveryPayload)
      → Carries tools identity.secret_key to recipient identity.public_key nonce
          (Json.object (with_version (preimage_members payload) payload_version))
      → (build_preimage_delivery_event tools now nonce identity to payload >>= λ event.
          parse_preimage_delivery_event tools event recipient identity.public_key)
        ≡ some payload
  unfolding parse_preimage_delivery_event direct_message stringify_payload has_version with_version
      property
  parse-build_preimage_delivery to payload c =
      rw (encrypt-Carries _ c, laws.same_kind, laws.same_content, decrypted-Carries _ c) refl

  -- The oracle reads a request for a hash as it was sent.
  pub parse-build_hash_request :
      (to : String) (payload : HashRequestPayload)
      → Carries tools identity.secret_key to recipient identity.public_key nonce
          (Json.object (with_version (hash_request_members payload) payload_version))
      → (build_hash_request_event tools now nonce identity to payload >>= λ event.
          parse_hash_request_event tools event recipient identity.public_key)
        ≡ some payload
  unfolding parse_hash_request_event decrypt_dm_json direct_message stringify_payload has_version
      with_version property
  parse-build_hash_request to payload c =
      rw (encrypt-Carries _ c, laws.same_kind, laws.same_content, decrypted-Carries _ c) refl

  -- The customer reads the hash as the oracle sent it.
  pub parse-build_hash_response :
      (to : String) (payload : HashResponsePayload)
      → Carries tools identity.secret_key to recipient identity.public_key nonce
          (Json.object (with_version (hash_response_members payload) payload_version))
      → (build_hash_response_event tools now nonce identity to payload >>= λ event.
          parse_hash_response_event tools event recipient identity.public_key)
        ≡ some payload
  unfolding parse_hash_response_event decrypt_dm_json direct_message stringify_payload has_version
      with_version property
  parse-build_hash_response to payload c =
      rw (encrypt-Carries _ c, laws.same_kind, laws.same_content, decrypted-Carries _ c) refl
