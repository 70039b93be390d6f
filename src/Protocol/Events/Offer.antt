-- ===== src/Protocol/Events/Offer.antt =====
-- Offers, kind 7000: buildOfferFeedbackEvent and parseOfferFeedbackEvent of
-- packages/protocol/src/events.ts.
use anchr.Prelude.{
  ℕ, String, Bool, false, ◌&&◌, List, [], ◌∷◌, Option, none, some, truthy, nat_eq, ◌==◌, Eq-string,
  find,
}
use anchr.Prelude.Json.{Json, Members, Numeral, property, as_text, as_number, is_text}
use anchr.Prelude.Chain.{◌>>=◌, ◌>>◌, require}
use anchr.Protocol.Nostr.{Tools, Event, Keypair, sign_event, is_key, second, kind_query_feedback}
use anchr.Protocol.Events.Payload.{payload_version, stringify_payload, has_version, parsed_object}

pub record OfferFeedbackPayload : Type 0 where
  pub provider_pubkey : String
  pub amount_sats : Numeral

pub record ParsedOfferFeedback : Type 0 where
  pub provider_pubkey : String
  pub amount_sats : Numeral
  pub request_event_id : String
  pub customer_pubkey : String

abbrev pub offer_members : OfferFeedbackPayload → Members
offer_members payload = Members.member "status" (Json.text "payment-required") (
    Members.member "provider_pubkey" (Json.text payload.provider_pubkey)
      (Members.member "amount_sats" (Json.number payload.amount_sats) Members.bare))

abbrev pub offer_tags : String → String → List (List String)
offer_tags request_event_id customer_pubkey =
    ("e" ∷ request_event_id ∷ "" ∷ "request" ∷ [])
    ∷ ("p" ∷ customer_pubkey ∷ [])
    ∷ ("status" ∷ "payment-required" ∷ [])
    ∷ []

unfoldable pub build_offer_feedback_event :
    Tools → ℕ → Keypair → String → String → OfferFeedbackPayload → Event
build_offer_feedback_event tools now identity request_event_id customer_pubkey payload =
    sign_event tools
      (record {
        kind = kind_query_feedback;
        created_at = now;
        content = stringify_payload tools (offer_members payload) payload_version;
        tags = offer_tags request_event_id customer_pubkey;
      })
      identity.secret_key

abbrev pub nonempty : Option String → Bool
nonempty none = false
nonempty (some value) = truthy value

-- `(t) => t[0] === key && t[1]`.
abbrev pub is_bound : String → List String → Bool
is_bound key t = is_key key t && nonempty (second t)

-- `tags.find((t) => t[0] === key && t[1])?.[1]`.
unfoldable pub bound_value : List (List String) → String → Option String
bound_value tags key = find (is_bound key) tags >>= second

unfoldable pub parse_offer_feedback_event : Tools → Event → Option ParsedOfferFeedback
parse_offer_feedback_event tools event = do
  require (nat_eq event.kind kind_query_feedback)
  p ← parsed_object tools event.content
  require (has_version p payload_version)
  require (is_text "payment-required" (property "status" p))
  provider_pubkey ← as_text (property "provider_pubkey" p)
  amount_sats ← as_number (property "amount_sats" p)
  require (provider_pubkey == event.pubkey)
  request_event_id ← bound_value event.tags "e"
  customer_pubkey ← bound_value event.tags "p"
  some (record {
    provider_pubkey = provider_pubkey;
    amount_sats = amount_sats;
    request_event_id = request_event_id;
    customer_pubkey = customer_pubkey;
  })
