-- ===== src/Protocol/Events/Accepted.antt =====
-- What the parsers of packages/protocol/src/events.ts have checked on an event that they accept.
use anchr.Prelude.{
  String, true, false, Option, none, some, ◌==◌, Eq-string, is_some, ◌≡◌, refl, arith,
}
use anchr.Prelude.Json.{Json, Members, property, is_text}
use anchr.Protocol.Nostr.{Tools, Bytes, Event, find_tag_value}
use anchr.Protocol.Events.Payload.{parsed_object}
use anchr.Protocol.Events.Request.{
  QueryRequestPayload, parse_query_request_event, read_query_request, carries_payment,
}
use anchr.Protocol.Events.Selection.{
  SelectionFeedbackPayload, parse_selection_feedback_event, read_execution, is_value,
}
use anchr.Protocol.Events.Messages.{
  HashRequestPayload, parse_hash_request_event, parse_hash_response_event,
}

is_value-some :
    (found : Option String) (wanted : String) → is_value found wanted ≡ true → found ≡ some wanted
is_value-some none wanted h = ground arith
is_value-some (some s) wanted h = ground (arith, Eq-string.beq_iff s wanted)

-- A value is one text at most.
is_text_once :
    (s t : String)
    → (s == t) ≡ false
    → (value : Option Json) → is_text s value ≡ true
    → is_text t value ≡ false
is_text_once s t differ none h = ground arith
is_text_once s t differ (some (Json.text r)) h =
    grind (arith, Eq-string.beq_iff r s, Eq-string.beq_iff r t)
is_text_once s t differ (some _) h = ground arith

module _ (tools : Tools) (event : Event) where
  -- An accepted Request Notice carries none of the members of the execution and the payment.
  pub accepted_notice :
      {payload : QueryRequestPayload}
      → parse_query_request_event tools event ≡ some payload
      → (p : Members) × (parsed_object tools event.content ≡ some p) × (carries_payment p ≡ false)
  unfolding parse_query_request_event read_query_request
  accepted_notice {payload} h = ground arith

  -- An accepted selection is addressed to the provider that it selects, by its first `p` tag, and
  -- gives that provider a predicate to work on.
  pub accepted_selection :
      (recipient : Bytes) (sender : String) {payload : SelectionFeedbackPayload}
      → parse_selection_feedback_event tools event recipient sender ≡ some payload
      → (find_tag_value event.tags "p" ≡ some payload.selected_provider_pubkey)
        × (is_some payload.execution.predicate ≡ true)
  unfolding parse_selection_feedback_event read_execution
  accepted_selection recipient sender {payload} h =
      grind (arith, Eq-string.beq_iff, is_value-some (find_tag_value event.tags "p"))

  -- No message is read both as a request for a hash and as the answer to one.
  pub hash_messages_differ :
      (recipient : Bytes) (sender : String) {payload : HashRequestPayload}
      → parse_hash_request_event tools event recipient sender ≡ some payload
      → parse_hash_response_event tools event recipient sender ≡ none
  unfolding parse_hash_request_event parse_hash_response_event
  hash_messages_differ recipient sender {payload} h =
      let once =
        λ (p : Members). is_text_once "hash_request" "hash_response" refl (property "type" p) in
      grind (arith, once)
