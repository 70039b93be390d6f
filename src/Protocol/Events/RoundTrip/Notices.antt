-- ===== src/Protocol/Events/RoundTrip/Notices.antt =====
-- Round trips of packages/protocol/src/events.ts: the events in plain text.
use anchr.Prelude.{
  ℕ, String, Option, none, some, if◌then◌else◌, ◌==◌, Eq-string, truthy, find, ◌≡◌, refl, ◌&&◌,
  arith,
}
use anchr.Prelude.Json.{Json, property}
use anchr.Protocol.Nostr.{Tools, Keypair, Finalizes}
use anchr.Protocol.Events.Payload.{
  payload_version, stringify_payload, with_version, parsed_object, has_version,
}
use anchr.Protocol.Events.Request.{
  QueryRequestPayload, request_members, build_query_request_event, parse_query_request_event,
  read_query_request, carries_payment,
}
use anchr.Protocol.Events.Offer.{
  OfferFeedbackPayload, offer_members, build_offer_feedback_event, parse_offer_feedback_event,
  bound_value,
}

module _ (tools : Tools) (laws : Finalizes tools) where
  -- A Request Notice is read back as it was built, whatever the region code.
  pub parse-build_query_request :
      (to_upper : String → String) (now : ℕ) (identity : Keypair) (payload : QueryRequestPayload)
      (region : Option String)
      → tools.parse (stringify_payload tools (request_members payload) payload_version)
        ≡ some (Json.object (with_version (request_members payload) payload_version))
      → parse_query_request_event tools
          (build_query_request_event tools to_upper now identity payload region)
        ≡ some payload
  unfolding parse_query_request_event build_query_request_event parsed_object read_query_request
      carries_payment has_version with_version property
  parse-build_query_request to_upper now identity payload region parsed =
      rw (laws.same_kind, laws.same_content, parsed) refl

  -- An offer is read back, bound to its request and customer, if the provider it names is the signer
  -- and neither the request nor the customer is empty; else it is refused. JSON reads back its text.
  pub parse-build_offer_feedback :
      (now : ℕ) (identity : Keypair) (request customer : String) (payload : OfferFeedbackPayload)
      → tools.parse (stringify_payload tools (offer_members payload) payload_version)
        ≡ some (Json.object (with_version (offer_members payload) payload_version))
      → parse_offer_feedback_event tools
          (build_offer_feedback_event tools now identity request customer payload)
        ≡ (if payload.provider_pubkey == tools.get_public_key identity.secret_key
              && truthy request
              && truthy customer
            then some (record {
              provider_pubkey = payload.provider_pubkey;
              amount_sats = payload.amount_sats;
              request_event_id = request;
              customer_pubkey = customer;
            })
            else none)
  unfolding parse_offer_feedback_event build_offer_feedback_event parsed_object has_version
      with_version property bound_value find
  parse-build_offer_feedback now identity request customer payload parsed =
      rw (laws.same_kind, laws.same_content, laws.same_tags, laws.signed_by, parsed) (ground arith)
