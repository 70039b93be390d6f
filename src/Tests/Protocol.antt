-- ===== src/Tests/Protocol.antt =====
-- Runs of the event builders and parsers on concrete payloads, with stand-ins for nostr-tools.
use anchr.Prelude.{String, true, [], ◌∷◌, none, some, ◌≡◌, refl, ◌==◌, Eq-string, if◌then◌else◌}
use anchr.Prelude.Json.{Json, Members, Numeral, has_property, property}
use anchr.Prelude.Chain.{◌>>=◌}
use anchr.Protocol.Nostr.{Tools, Bytes, Keypair, Finalizes}
use anchr.Protocol.Events.Payload.{payload_version, with_version, stringify_payload}
use anchr.Protocol.Events.Request.{
  QueryRequestPayload, request_members, build_query_request_event, parse_query_request_event,
}
use anchr.Protocol.Events.Offer.{
  OfferFeedbackPayload, offer_members, build_offer_feedback_event, parse_offer_feedback_event,
}
use anchr.Protocol.Events.Selection.{
  SelectionFeedbackPayload, selection_members, build_selection_feedback_event,
  parse_selection_feedback_event,
}
use anchr.Protocol.Events.Response.{
  ResponseInput, raw, response_members, oracle_members, build_query_response_event,
}
use anchr.Protocol.Events.Messages.{PreimageDeliveryPayload, preimage_members}
use anchr.Protocol.Events.Channel.{Carries}
use anchr.Protocol.Events.RoundTrip.Notices.{parse-build_query_request, parse-build_offer_feedback}
use anchr.Protocol.Events.RoundTrip.Selection.{parse-build_selection_feedback}
use anchr.Protocol.Events.RoundTrip.Response.{parse-build_query_response, readings}

-- An object with a query id is written as "copy", another value as "body".
abbrev written : Json → String
written (Json.object p) = if has_property "request_event_id" p then "copy" else "body"
written _ = "body"

-- JSON for two bodies; encryption that marks the text, and signatures that keep the event.
abbrev tools_for : Json → Json → Tools
tools_for body copy = record {
  stringify = written;
  parse = λ s. if s == "copy" then some copy else some body;
  finalize_event = λ t sk. record {
    id = "id";
    pubkey = "alice";
    created_at = t.created_at;
    kind = t.kind;
    tags = t.tags;
    content = t.content;
    sig = "sig";
  };
  get_public_key = λ sk. "alice";
  get_conversation_key = λ sk pk. some "key";
  nip44_encrypt = λ plain key nonce. some plain;
  nip44_decrypt = λ cipher key. some cipher;
  btoa = λ bytes. "AQI=";
}

tools_for-Finalizes : (body copy : Json) → Finalizes (tools_for body copy)
tools_for-Finalizes body copy = record {
  same_kind = λ t sk. refl;
  same_content = λ t sk. refl;
  same_tags = λ t sk. refl;
  signed_by = λ t sk. refl;
}

-- Whatever is written and read back goes through.
abbrev carried :
    (body copy : Json) {sent : Json} {secret recipient_secret : Bytes}
    {recipient sender nonce : String} (ciphertext : String)
    → written sent ≡ ciphertext
    → (tools_for body copy).parse (written sent) ≡ some sent
    → Carries (tools_for body copy) secret recipient recipient_secret sender nonce sent
carried body copy ciphertext same back = record {
  key = "key";
  ciphertext = ciphertext;
  sent = refl;
  received = refl;
  encrypted = rw same refl;
  decrypted = rw same refl;
  parsed = back;
}

abbrev alice : Keypair
alice = record { secret_key = 1 ∷ []; public_key = "alice" }

abbrev notice : QueryRequestPayload
notice = record {
  query_id = "q1";
  schema = "https://anchr.dev/schemas/web/v1";
  customer_pubkey = "alice";
  oracle_pubkey = "oracle";
  max_amount_sats = Numeral.natural 100;
  expires_at = Numeral.natural 1700000000000;
}

abbrev notice_body : Json
notice_body = Json.object (with_version (request_members notice) payload_version)

parse-build_query_request_example :
    parse_query_request_event (tools_for notice_body Json.null) (
      build_query_request_event
        (tools_for notice_body Json.null)
        (λ s. s)
        1700000000
        alice
        notice
        (some "jp"))
    ≡ some notice
unfolding stringify_payload property with_version
parse-build_query_request_example =
    parse-build_query_request (tools_for notice_body Json.null)
      (tools_for-Finalizes notice_body Json.null) (λ s. s) 1700000000 alice notice (some "jp") refl

abbrev offer : OfferFeedbackPayload
offer = record { provider_pubkey = "alice"; amount_sats = Numeral.natural 21 }

abbrev offer_tools : Tools
offer_tools = tools_for (Json.object (with_version (offer_members offer) payload_version)) Json.null

parse-build_offer_feedback_example :
    parse_offer_feedback_event offer_tools
      (build_offer_feedback_event offer_tools 1700000000 alice "request" "customer" offer)
    ≡ some (record {
      provider_pubkey = "alice";
      amount_sats = Numeral.natural 21;
      request_event_id = "request";
      customer_pubkey = "customer";
    })
unfolding stringify_payload property with_version
parse-build_offer_feedback_example =
    parse-build_offer_feedback offer_tools
      (tools_for-Finalizes (Json.object (with_version (offer_members offer) payload_version))
        Json.null)
      1700000000 alice "request" "customer" offer refl

abbrev selection : SelectionFeedbackPayload
selection = record {
  selected_provider_pubkey = "bob";
  provider_redemption_token = "cashuA";
  execution = record {
    schema = "https://anchr.dev/schemas/web/v1";
    predicate = some (Json.text "example.com");
    description = some "a page";
    context = some (Json.object Members.bare);
    mint_url = "https://mint";
    max_amount_sats = Numeral.natural 100;
    amount_sats = Numeral.natural 21;
    locktime_seconds = Numeral.natural 1700003600;
  };
}

abbrev selection_body : Json
selection_body = Json.object (with_version (selection_members selection) payload_version)

parse-build_selection_feedback_example :
    (build_selection_feedback_event
        (tools_for selection_body Json.null)
        1700000000
        "n"
        alice
        "request"
        selection
      >>= λ event. some (
          parse_selection_feedback_event
            (tools_for selection_body Json.null)
            event
            (2 ∷ [])
            "alice"))
    ≡ some (some selection)
unfolding property with_version
parse-build_selection_feedback_example =
    parse-build_selection_feedback (tools_for selection_body Json.null)
      (tools_for-Finalizes selection_body Json.null) 1700000000 "n" alice (2 ∷ []) "request"
      selection refl (carried _ _ "body" refl refl)

abbrev response : ResponseInput
response = record {
  schema = "https://anchr.dev/schemas/web/v1";
  data_value = some (Json.truth true);
  proof = raw (1 ∷ 2 ∷ []);
}

abbrev for_customer : Tools → Json
for_customer tools = Json.object (response_members tools response Members.bare)

abbrev for_oracle : Tools → Json
for_oracle tools = Json.object (response_members tools response (oracle_members none "request"))

abbrev response_tools : Tools
response_tools =
    tools_for (for_customer (tools_for Json.null Json.null))
      (for_oracle (tools_for Json.null Json.null))

parse-build_query_response_example :
    (build_query_response_event response_tools 1700000000 "n" "m" alice "request" "customer"
        response
        (some "oracle")
        none
      >>= λ event. some (readings response_tools (2 ∷ []) (3 ∷ []) "alice" event))
    ≡ some (
      some (record {
        schema = "https://anchr.dev/schemas/web/v1";
        data_value = some (Json.truth true);
        proof = "AQI=";
      }),
      some (record {
        schema = "https://anchr.dev/schemas/web/v1";
        data_value = some (Json.truth true);
        proof = "AQI=";
        query_id = "request";
        request_event_id = "request";
      }),
    )
unfolding response_members property
parse-build_query_response_example =
    parse-build_query_response response_tools
      (tools_for-Finalizes (for_customer (tools_for Json.null Json.null))
        (for_oracle (tools_for Json.null Json.null)))
      1700000000 "n" alice (2 ∷ []) "m" "oracle" "customer" "request" (3 ∷ []) response none
      (carried _ _ "body" refl refl) (carried _ _ "copy" refl refl) refl

abbrev delivery : PreimageDeliveryPayload
delivery = record { query_id = "q1"; request_event_id = "request"; preimage = "00ff" }

abbrev delivery_body : Json
delivery_body = Json.object (with_version (preimage_members delivery) payload_version)
