-- ===== src/Customer/Request.antt =====
-- `request` of `createCustomer`, packages/sdk/src/customer.ts, from its checks to its result. A call
-- that rejects is an absent answer. The store of the actor is a call that may reject.
use anchr.Prelude.{
  ℕ, ◌+◌, ◌*◌, ◌/◌, String, Bool, true, false, not, ◌||◌, List, [], ◌∷◌, Option, none, some, leb,
  ltb, nat_eq, if◌then◌else◌, Eq-string, includes,
}
use anchr.Prelude.Json.{Json, Numeral}
use anchr.Protocol.Schema.{is_schema_uri}
use anchr.Protocol.Nostr.{Event, Bytes}
use anchr.Protocol.Events.Request.{build_query_request_event}
use anchr.Protocol.Events.Selection.{SelectionFeedbackPayload, build_selection_feedback_event}
use anchr.Protocol.Events.Response.{QueryResponsePayload, parse_query_response_event}
use anchr.Customer.Offers.{Offer, valid_offer_amount, collect_offers}
use mathlib.Core.Option.{get_or}
use anchr.Customer.Types.{
  Flow, RequestSpec, RequestOptions, BindProviderParams, CashuToken, Recovery, RequestResult,
  Outcome, Customer, Run, ◌>>=◌, ◌>>◌, demand, present, Verifier, invalid_schema_uri, config_error,
  relay_publish_error, no_offers_received, result_timeout, schema_verification_error, rejected,
  stops, goes, fails, fails_with, resolves,
}

abbrev pub default_locktime_seconds : ℕ
default_locktime_seconds = 3600

abbrev pub min_customer_payment_lock_duration_seconds : ℕ
min_customer_payment_lock_duration_seconds = 10 * 60 + 60

abbrev pub integer : Numeral → Option ℕ
integer (Numeral.natural n) = some n
integer (Numeral.other s) = none

-- `payment.locktimeSeconds`, if it is an integer that is long enough.
abbrev pub long_enough : Option ℕ → Option ℕ
long_enough none = none
long_enough (some n) = if leb min_customer_payment_lock_duration_seconds n then some n else none

pub record Checked : Type 0 where
  pub budget : ℕ
  pub locktime_duration : ℕ
  pub oracle : String

unfoldable pub check_request : Customer → RequestOptions → Flow Checked
unfolding includes
check_request customer req = do
  demand (is_schema_uri customer.parse_url req.spec.schema) invalid_schema_uri
  budget ←
      present (valid_offer_amount req.payment.max_amount)
        (config_error "payment.maxAmount must be a positive integer")
  duration ←
      present
        (long_enough (
          integer (get_or req.payment.locktime_seconds (Numeral.natural default_locktime_seconds))))
        (config_error "payment.locktimeSeconds must be an integer >= 660")
  oracle ← present (customer.oracle_selector customer.oracles) (rejected "oracleSelector")
  demand (includes customer.oracles oracle)
      (config_error "oracleSelector returned an oracle outside the whitelist")
  goes (record { budget = budget; locktime_duration = duration; oracle = oracle })

abbrev pub is_published : Option ℕ → Flow (Unit {0})
is_published none = stops (rejected "publish")
is_published (some successes) = demand (ltb 0 successes) relay_publish_error

-- The notice, with the time of expiry in whole seconds.
abbrev pub notice_event : Customer → Run → RequestOptions → Checked → Event
notice_event customer run req checked =
    build_query_request_event customer.tools customer.to_upper (run.published / 1000) run.identity
      (record {
        query_id = run.query_id;
        schema = req.spec.schema;
        customer_pubkey = run.identity.public_key;
        oracle_pubkey = checked.oracle;
        max_amount_sats = Numeral.natural checked.budget;
        expires_at = Numeral.natural ((run.published + customer.offer_window_ms) / 1000 * 1000);
      })
      req.region_code

pub record Chosen : Type 0 where
  pub params : BindProviderParams
  pub checked : Checked
  pub notice : Event
  pub offer : Offer

-- From the checks to the parameters of the payment lock.
unfoldable pub choose : Customer → Run → RequestOptions → Flow Chosen
unfolding check_request collect_offers
choose customer run req = do
  checked ← check_request customer req
  hash ← present (customer.request_hash checked.oracle run.query_id) (rejected "requestHash")
  is_published (customer.publish (notice_event customer run req checked))
  demand (customer.write_state "request_published") (rejected "stateStore")
  let collected =
      collect_offers customer.tools checked.budget req.provider run.window
        (record { offers = []; total_received = 0 })
  offer ← present (customer.selector collected.offers) (no_offers_received collected.total_received)
  amount ←
      present (valid_offer_amount offer.amount_sats)
        (config_error "offerSelector returned an invalid offer amount")
  demand (leb amount checked.budget)
      (config_error "offerSelector returned an offer above payment.maxAmount")
  goes (record {
    params = record {
      amount_sats = amount;
      funding_proofs = req.funding_proofs;
      provider_pubkey = offer.provider_pubkey;
      hash_hex = hash;
      locktime_seconds = run.selected / 1000 + checked.locktime_duration;
      customer_pubkey = run.identity.public_key;
      customer_secret_key = run.identity.secret_key;
    };
    checked = checked;
    notice = notice_event customer run req checked;
    offer = offer;
  })

abbrev pub recovery_of : CashuToken → Bytes → Recovery
recovery_of bound secret = record {
  payment_change_proofs = bound.change_proofs;
  payment_lock_proofs = bound.proofs;
  payment_lock_token = bound.token;
  payment_lock_refund_secret_key = secret;
}

abbrev pub is_amount : Numeral → ℕ → Bool
is_amount (Numeral.natural n) amount = nat_eq n amount
is_amount (Numeral.other s) amount = false

abbrev pub has_change : List Json → Bool
has_change [] = false
has_change (p ∷ ps) = true

abbrev pub selection_payload :
    Customer → RequestOptions → Chosen → CashuToken → SelectionFeedbackPayload
selection_payload customer req chosen bound = record {
  selected_provider_pubkey = chosen.params.provider_pubkey;
  provider_redemption_token = bound.token;
  execution = record {
    schema = req.spec.schema;
    predicate = req.spec.predicate;
    description = req.spec.description;
    context = req.spec.context;
    mint_url = customer.mint;
    max_amount_sats = Numeral.natural chosen.checked.budget;
    amount_sats = Numeral.natural chosen.params.amount_sats;
    locktime_seconds = Numeral.natural chosen.params.locktime_seconds;
  };
}

-- The local verifier of the schema, if there is one, has to accept.
abbrev pub accepted_by : Option Verifier → RequestSpec → QueryResponsePayload → Flow (Unit {0})
accepted_by none spec response = goes tt
accepted_by (some verify) spec response =
    present (verify response.proof spec.predicate response.data_value) (rejected "verify") >>= λ ok.
    demand ok schema_verification_error

-- What happens once the payment is locked.
unfoldable pub deliver_request :
    Customer → Run → RequestOptions → Chosen → CashuToken → Flow RequestResult
deliver_request customer run req chosen bound = do
  demand (is_amount bound.amount_sats chosen.params.amount_sats)
      (config_error "bound Payment Lock amount does not match the selected offer amount")
  demand (not (has_change bound.change_proofs) || customer.on_payment_change bound.change_proofs)
      (rejected "onPaymentChange")
  event ←
      present
        (build_selection_feedback_event customer.tools (run.selected / 1000) run.nonce run.identity
          chosen.notice.id (selection_payload customer req chosen bound))
        (rejected "encryptNip44")
  sent ← present (customer.publish event) (rejected "publish")
  demand (customer.write_state "provider_selected") (rejected "stateStore")
  answer ←
      present (customer.wait_for_result chosen.notice chosen.params.provider_pubkey) result_timeout
  response ←
      present
        (parse_query_response_event customer.tools answer run.identity.secret_key
          chosen.params.provider_pubkey)
        result_timeout
  accepted_by (customer.verifier req.spec.schema) req.spec response
  demand (customer.write_state "result_received") (rejected "stateStore")
  goes (record {
    data_value = response.data_value;
    proof = response.proof;
    provider_pubkey = chosen.params.provider_pubkey;
    schema = response.schema;
    recovery = recovery_of bound run.identity.secret_key;
  })

abbrev pub attach : Recovery → Flow RequestResult → Outcome
attach recovery (stops e) = fails_with e recovery
attach recovery (goes result) = resolves result

abbrev pub after_bind : Customer → Run → RequestOptions → Chosen → Option CashuToken → Outcome
after_bind customer run req chosen none = fails (rejected "bindProvider")
after_bind customer run req chosen (some bound) =
    attach (recovery_of bound run.identity.secret_key)
      (deliver_request customer run req chosen bound)

abbrev pub bind_and_deliver : Customer → Run → RequestOptions → Flow Chosen → Outcome
bind_and_deliver customer run req (stops e) = fails e
bind_and_deliver customer run req (goes chosen) =
    after_bind customer run req chosen (customer.bind_provider chosen.params)

unfoldable pub request : Customer → Run → RequestOptions → Outcome
unfolding choose deliver_request
request customer run req = bind_and_deliver customer run req (choose customer run req)
