-- ===== src/Protocol/Events/Request.antt =====
-- Request Notices, kind 5300: buildQueryRequestEvent and parseQueryRequestEvent of
-- packages/protocol/src/events.ts.
use anchr.Prelude.{
  ℕ, String, Bool, not, ◌||◌, List, [], ◌∷◌, ◌++◌, Option, none, some, if◌then◌else◌, truthy,
  nat_eq,
}
use anchr.Prelude.Json.{Json, Members, Numeral, property, has_property, as_text, as_number}
use anchr.Prelude.Chain.{◌>>=◌, ◌>>◌, require}
use anchr.Protocol.Nostr.{Tools, Event, Keypair, sign_event, kind_query_request}
use anchr.Protocol.Events.Payload.{payload_version, stringify_payload, has_version, parsed_object}

pub record QueryRequestPayload : Type 0 where
  pub query_id : String
  pub schema : String
  pub customer_pubkey : String
  pub oracle_pubkey : String
  pub max_amount_sats : Numeral
  pub expires_at : Numeral

abbrev pub request_members : QueryRequestPayload → Members
request_members payload = Members.member "query_id" (Json.text payload.query_id) (
    Members.member "schema" (Json.text payload.schema) (
      Members.member "customer_pubkey" (Json.text payload.customer_pubkey) (
        Members.member "oracle_pubkey" (Json.text payload.oracle_pubkey) (
          Members.member "max_amount_sats" (Json.number payload.max_amount_sats)
            (Members.member "expires_at" (Json.number payload.expires_at) Members.bare)))))

-- `to_upper` is `toUpperCase`; an absent or empty code gives no tag.
unfoldable pub region_tags : (String → String) → Option String → List (List String)
region_tags to_upper none = []
region_tags to_upper (some code) = if truthy code then ("region" ∷ to_upper code ∷ []) ∷ [] else []

abbrev pub request_tags : QueryRequestPayload → List (List String)
request_tags payload =
    ("d" ∷ payload.query_id ∷ [])
    ∷ ("t" ∷ "anchr" ∷ [])
    ∷ ("p" ∷ payload.oracle_pubkey ∷ "" ∷ "oracle" ∷ [])
    ∷ ("s" ∷ payload.schema ∷ [])
    ∷ []

-- `now` is the time in seconds.
unfoldable pub build_query_request_event :
    Tools → (String → String) → ℕ → Keypair → QueryRequestPayload → Option String → Event
build_query_request_event tools to_upper now identity payload region_code =
    sign_event tools
      (record {
        kind = kind_query_request;
        created_at = now;
        content = stringify_payload tools (request_members payload) payload_version;
        tags = request_tags payload ++ region_tags to_upper region_code;
      })
      identity.secret_key

-- The members that belong to the later execution and payment.
unfoldable pub carries_payment : Members → Bool
carries_payment p =
    has_property "predicate" p
    || has_property "context" p
    || has_property "mint_url" p
    || has_property "payment_lock_token" p
    || has_property "payment_lock" p
    || has_property "bounty_token" p
    || has_property "provider_redemption_token" p
    || has_property "locktime_seconds" p

unfoldable pub read_query_request : Members → Option QueryRequestPayload
read_query_request p = do
  require (has_version p payload_version)
  require (not (carries_payment p))
  query_id ← as_text (property "query_id" p)
  schema ← as_text (property "schema" p)
  customer_pubkey ← as_text (property "customer_pubkey" p)
  oracle_pubkey ← as_text (property "oracle_pubkey" p)
  max_amount_sats ← as_number (property "max_amount_sats" p)
  expires_at ← as_number (property "expires_at" p)
  some (record {
    query_id = query_id;
    schema = schema;
    customer_pubkey = customer_pubkey;
    oracle_pubkey = oracle_pubkey;
    max_amount_sats = max_amount_sats;
    expires_at = expires_at;
  })

unfoldable pub parse_query_request_event : Tools → Event → Option QueryRequestPayload
parse_query_request_event tools event = do
  require (nat_eq event.kind kind_query_request)
  p ← parsed_object tools event.content
  read_query_request p
