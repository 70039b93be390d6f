-- ===== src/Protocol/Events/Response.antt =====
-- Results, kind 6300, encrypted to the customer, with a copy for the oracle in a tag:
-- buildQueryResponseEvent, parseQueryResponseEvent and parseOracleQueryResponseEvent of
-- packages/protocol/src/events.ts.
use anchr.Prelude.{ℕ, String, List, [], ◌∷◌, Option, none, some, nat_eq}
use anchr.Prelude.Json.{Json, Members, Numeral, property, optional, as_text}
use anchr.Prelude.Chain.{◌>>=◌, ◌>>◌, require}
use anchr.Protocol.Nostr.{
  Tools, Bytes, Event, Keypair, sign_event, encrypt_nip44, kind_query_response,
}
use anchr.Protocol.Events.Payload.{payload_version, has_version, decrypted_object}
use anchr.Protocol.Events.Offer.{bound_value}

pub record QueryResponsePayload : Type 0 where
  pub schema : String
  pub data_value : Option Json
  pub proof : String

pub record OracleQueryResponsePayload : Type 0 where
  pub schema : String
  pub data_value : Option Json
  pub proof : String
  pub query_id : String
  pub request_event_id : String

-- The proof that a provider hands in: bytes, or a text already.
pub data ProofInput : Type 0 where
  raw : Bytes → ProofInput
  encoded : String → ProofInput

pub record ResponseInput : Type 0 where
  pub schema : String
  pub data_value : Option Json
  pub proof : ProofInput

-- The binary text that `btoa` gets is the list of its code units, which are the bytes.
abbrev pub proof_for_json : Tools → ProofInput → String
proof_for_json tools (raw bytes) = tools.btoa bytes
proof_for_json tools (encoded text) = text

unfoldable pub response_members : Tools → ResponseInput → Members → Members
response_members tools payload rest =
    Members.member "version" (Json.number (Numeral.natural payload_version)) (
      Members.member "schema" (Json.text payload.schema) (
        optional "data" payload.data_value
          (Members.member "proof" (Json.text (proof_for_json tools payload.proof)) rest)))

-- `queryId ?? requestEventId`.
abbrev pub id_or : Option String → String → String
id_or none request_event_id = request_event_id
id_or (some query_id) _ = query_id

abbrev pub oracle_members : Option String → String → Members
oracle_members query_id request_event_id =
    Members.member "query_id" (Json.text (id_or query_id request_event_id))
      (Members.member "request_event_id" (Json.text request_event_id) Members.bare)

-- The tags for the oracle, if one is given; `none` where the encryption throws.
unfoldable pub oracle_tags :
    Tools
    → String
    → Bytes
    → String
    → ResponseInput
    → Option String
    → Option String
    → Option (List (List String))
oracle_tags tools nonce sender request_event_id payload none query_id = some []
oracle_tags tools nonce sender request_event_id payload (some oracle) query_id = do
  ciphertext ←
      encrypt_nip44 tools
        (tools.stringify
          (Json.object (response_members tools payload (oracle_members query_id request_event_id))))
        sender oracle nonce
  some (("p" ∷ oracle ∷ "" ∷ "oracle" ∷ []) ∷ ("oracle_payload" ∷ ciphertext ∷ []) ∷ [])

unfoldable pub build_query_response_event :
    Tools
    → ℕ
    → String
    → String
    → Keypair
    → String
    → String
    → ResponseInput
    → Option String
    → Option String
    → Option Event
build_query_response_event tools now nonce oracle_nonce identity request_event_id customer payload
      oracle query_id =
    do
      ciphertext ←
          encrypt_nip44 tools
            (tools.stringify (Json.object (response_members tools payload Members.bare)))
            identity.secret_key customer nonce
      for_oracle ←
          oracle_tags tools oracle_nonce identity.secret_key request_event_id payload oracle
            query_id
      some (
          sign_event tools
            (record {
              kind = kind_query_response;
              created_at = now;
              content = ciphertext;
              tags =
                  ("e" ∷ request_event_id ∷ "" ∷ "request" ∷ [])
                  ∷ ("p" ∷ customer ∷ [])
                  ∷ for_oracle;
            })
            identity.secret_key)

unfoldable pub read_query_response : Members → Option QueryResponsePayload
read_query_response p = do
  require (has_version p payload_version)
  schema ← as_text (property "schema" p)
  data_value ← property "data" p
  proof ← as_text (property "proof" p)
  some (record { schema = schema; data_value = some data_value; proof = proof })

unfoldable pub parse_query_response_event :
    Tools → Event → Bytes → String → Option QueryResponsePayload
parse_query_response_event tools event recipient sender = do
  require (nat_eq event.kind kind_query_response)
  p ← decrypted_object tools event.content recipient sender
  read_query_response p

unfoldable pub read_oracle_query_response : Members → Option OracleQueryResponsePayload
read_oracle_query_response p = do
  require (has_version p payload_version)
  schema ← as_text (property "schema" p)
  query_id ← as_text (property "query_id" p)
  request_event_id ← as_text (property "request_event_id" p)
  data_value ← property "data" p
  proof ← as_text (property "proof" p)
  some (record {
    schema = schema;
    data_value = some data_value;
    proof = proof;
    query_id = query_id;
    request_event_id = request_event_id;
  })

unfoldable pub parse_oracle_query_response_event :
    Tools → Event → Bytes → String → Option OracleQueryResponsePayload
parse_oracle_query_response_event tools event oracle provider = do
  require (nat_eq event.kind kind_query_response)
  ciphertext ← bound_value event.tags "oracle_payload"
  p ← decrypted_object tools ciphertext oracle provider
  read_oracle_query_response p
