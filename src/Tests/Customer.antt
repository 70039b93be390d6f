-- ===== src/Tests/Customer.antt =====
-- A request with two offers, of which the cheaper one is paid for.
use anchr.Prelude.{
  ℕ, String, true, [], ◌∷◌, none, some, ◌≡◌, refl, ◌==◌, Eq-string, if◌then◌else◌, ◌⊎◌, find,
}
use anchr.Prelude.Json.{Json, Members, Numeral, property}
use anchr.Protocol.Schema.{is_schema_uri}
use anchr.Protocol.Nostr.{Tools, Event, encrypt_nip44, decrypt_nip44}
use anchr.Protocol.Events.Payload.{
  payload_version, with_version, parsed_object, has_version, decrypted_object,
}
use anchr.Protocol.Events.Selection.{build_selection_feedback_event}
use anchr.Protocol.Events.Response.{parse_query_response_event, read_query_response}
use anchr.Protocol.Events.Offer.{offer_members, offer_tags, parse_offer_feedback_event, bound_value}
use anchr.Customer.Offers.{LessThan, select_cheapest_offer, take_offer, valid_offer_amount, Offer}
use anchr.Customer.Cheapest.{Affordable, NoDearer}
use anchr.Customer.Request.{
  Chosen, Checked, choose, request, recovery_of, notice_event, deliver_request,
}
use anchr.Customer.Types.{
  RequestError, RequestOptions, CashuToken, RequestResult, Customer, Run, goes, fails_with,
  resolves,
}
use anchr.Customer.Paid.{
  choose-Cheapest, request-recovery, request-Delivered, Fair, Delivered, collected_offers,
}

abbrev offer_of : String → Numeral → Json
offer_of provider amount = Json.object (
    with_version (offer_members (record { provider_pubkey = provider; amount_sats = amount }))
      payload_version)

abbrev answer_body : Json
answer_body = Json.object (
    Members.member "version" (Json.number (Numeral.natural payload_version)) (
      Members.member "schema" (Json.text "https://anchr.dev/schemas/web/v1") (
        Members.member "data" (Json.truth true)
          (Members.member "proof" (Json.text "AQI=") Members.bare))))

abbrev tools : Tools
tools = record {
  stringify = λ j. "text";
  parse = λ s.
      if s == "alice offers"
      then some (offer_of "alice" (Numeral.natural 34))
      else if s == "bob offers"
      then some (offer_of "bob" (Numeral.natural 21))
      else some answer_body;
  finalize_event = λ t sk. record {
    id = "notice";
    pubkey = "carol";
    created_at = t.created_at;
    kind = t.kind;
    tags = t.tags;
    content = t.content;
    sig = "sig";
  };
  get_public_key = λ sk. "carol";
  get_conversation_key = λ sk pk. some "key";
  nip44_encrypt = λ plain key nonce. some plain;
  nip44_decrypt = λ cipher key. some cipher;
  btoa = λ bytes. "AQI=";
}

abbrev event_of : String → ℕ → String → Event
event_of author kind content = record {
  id = "event";
  pubkey = author;
  created_at = 1700000000;
  kind = kind;
  tags = offer_tags "notice" "carol";
  content = content;
  sig = "sig";
}

abbrev less : LessThan
less a b = true

abbrev locked : CashuToken
locked = record {
  token = "cashuA";
  amount_sats = Numeral.natural 21;
  proofs = [];
  change_proofs = [];
}

abbrev customer : Customer
customer = record {
  tools = tools;
  parse_url = λ s. some (record {
    protocol = "https:";
    username = "";
    password = "";
    search = "";
    hash = "";
    pathname = "/spec/proof/web/v1";
  });
  to_upper = λ s. s;
  oracles = "oracle" ∷ [];
  mint = "https://mint";
  offer_window_ms = 5000;
  oracle_selector = λ oracles. some "oracle";
  selector = select_cheapest_offer less;
  request_hash = λ oracle query. some "hash";
  publish = λ event. some 1;
  bind_provider = λ params. some locked;
  on_payment_change = λ proofs. true;
  wait_for_result = λ notice provider. some (event_of provider 6300 "answer");
  verifier = λ schema. none;
  write_state = λ status. true;
}

abbrev run : Run
run = record {
  identity = record { secret_key = 1 ∷ []; public_key = "carol" };
  query_id = "q1";
  nonce = "n";
  published = 1700000000000;
  selected = 1700000005000;
  window = (1, event_of "alice" 7000 "alice offers") ∷ (2, event_of "bob" 7000 "bob offers") ∷ [];
}

abbrev req : RequestOptions
req = record {
  spec = record {
    schema = "https://anchr.dev/schemas/web/v1";
    predicate = none;
    description = none;
    context = none;
  };
  payment = record { max_amount = Numeral.natural 100; locktime_seconds = none };
  provider = none;
  region_code = none;
  funding_proofs = [];
}

abbrev oracle_checks : Checked
oracle_checks = record { budget = 100; locktime_duration = 3600; oracle = "oracle" }

abbrev bobs_offer : Offer
bobs_offer = record {
  provider_pubkey = "bob";
  amount_sats = Numeral.natural 21;
  offer_event_id = "event";
  received_at = 2;
}

abbrev chosen : Chosen
chosen = record {
  params = record {
    amount_sats = 21;
    funding_proofs = [];
    provider_pubkey = "bob";
    hash_hex = "hash";
    locktime_seconds = 1700003605;
    customer_pubkey = "carol";
    customer_secret_key = 1 ∷ [];
  };
  checked = oracle_checks;
  notice = notice_event customer run req oracle_checks;
  offer = bobs_offer;
}

abbrev result : RequestResult
result = record {
  data_value = some (Json.truth true);
  proof = "AQI=";
  provider_pubkey = "bob";
  schema = "https://anchr.dev/schemas/web/v1";
  recovery = recovery_of locked (1 ∷ []);
}

chooses : choose customer run req ≡ goes chosen
unfolding choose is_schema_uri valid_offer_amount select_cheapest_offer take_offer
    parse_offer_feedback_event parsed_object has_version property with_version bound_value find
chooses = refl

answers : request customer run req ≡ resolves result
unfolding request deliver_request build_selection_feedback_event encrypt_nip44
    parse_query_response_event read_query_response decrypted_object decrypt_nip44 has_version
    property parsed_object
answers = rw chooses refl

choose-Cheapest_example :
    Fair customer run req chosen
    × Affordable 100 none bobs_offer
    × NoDearer bobs_offer (collected_offers customer run req 100)
choose-Cheapest_example = choose-Cheapest less customer run req chosen refl chooses

request-recovery_example :
    ((e : RequestError) × (request customer run req ≡ fails_with e (recovery_of locked (1 ∷ []))))
    ⊎ ((r : RequestResult) × (request customer run req ≡ resolves r)
        × (r.recovery ≡ recovery_of locked (1 ∷ [])))
request-recovery_example = request-recovery customer run req chosen locked chooses refl

request-Delivered_example : Delivered customer run req result
request-Delivered_example = request-Delivered customer run req result answers
