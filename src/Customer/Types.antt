-- ===== src/Customer/Types.antt =====
-- The data of a request, packages/sdk/src/customer-types.ts and customer.ts, and of the payment client,
-- adapters/types.ts. A call that rejects is an absent answer. The store of the actor is a call that may
-- reject.
use anchr.Prelude.{ℕ, String, Bool, true, false, List, Option, none, some, Eq-string}
use anchr.Prelude.Json.{Json, Numeral}
use anchr.Protocol.Schema.{UrlParser}
use anchr.Protocol.Nostr.{Tools, Event, Keypair, Bytes}
use anchr.Customer.Offers.{Offer}

pub data RequestError : Type 0 where
  invalid_schema_uri : RequestError
  config_error : String → RequestError
  relay_publish_error : RequestError
  no_offers_received : ℕ → RequestError
  result_timeout : RequestError
  schema_verification_error : RequestError
  -- A collaborator rejects.
  rejected : String → RequestError

pub data Flow (A : Type 0) : Type 0 where
  stops : RequestError → Flow A
  goes : A → Flow A

infixl 5 ◌>>=◌ ◌>>◌
abbrev pub ◌>>=◌ : {A B : Type 0} → Flow A → (A → Flow B) → Flow B
stops e >>= next = stops e
goes a >>= next = next a

abbrev pub ◌>>◌ : {B : Type 0} → Flow (Unit {0}) → Flow B → Flow B
first >> second = first >>= λ _. second

-- Throws unless the test passes.
abbrev pub demand : Bool → RequestError → Flow (Unit {0})
demand true e = goes tt
demand false e = stops e

abbrev pub present : {A : Type 0} → Option A → RequestError → Flow A
present none e = stops e
present (some a) e = goes a

pub record PaymentOptions : Type 0 where
  pub max_amount : Numeral
  pub locktime_seconds : Option Numeral

pub record RequestSpec : Type 0 where
  pub schema : String
  pub predicate : Option Json
  pub description : Option String
  pub context : Option Json

pub record RequestOptions : Type 0 where
  pub spec : RequestSpec
  pub payment : PaymentOptions
  pub provider : Option String
  pub region_code : Option String
  pub funding_proofs : List Json

pub record BindProviderParams : Type 0 where
  pub amount_sats : ℕ
  pub funding_proofs : List Json
  pub provider_pubkey : String
  pub hash_hex : String
  pub locktime_seconds : ℕ
  pub customer_pubkey : String
  pub customer_secret_key : Bytes

pub record CashuToken : Type 0 where
  pub token : String
  pub amount_sats : Numeral
  pub proofs : List Json
  pub change_proofs : List Json

-- What a failed request gives back for the recovery of the payment.
pub record Recovery : Type 0 where
  -- Absent where it is empty.
  pub payment_change_proofs : List Json
  pub payment_lock_proofs : List Json
  pub payment_lock_token : String
  pub payment_lock_refund_secret_key : Bytes

pub record RequestResult : Type 0 where
  pub data_value : Option Json
  pub proof : String
  pub provider_pubkey : String
  pub schema : String
  pub recovery : Recovery

-- The error of a request, with the recovery material once the payment was locked.
pub data Outcome : Type 0 where
  fails : RequestError → Outcome
  fails_with : RequestError → Recovery → Outcome
  resolves : RequestResult → Outcome

-- A registered verifier on a proof, a predicate and data.
abbrev pub Verifier : Type 0
Verifier = String → Option Json → Option Json → Option Bool

-- What the customer is made of, and what answers a request: `none` is a rejection.
pub record Customer : Type 0 where
  pub tools : Tools
  pub parse_url : UrlParser
  pub to_upper : String → String
  pub oracles : List String
  pub mint : String
  pub offer_window_ms : ℕ
  pub oracle_selector : List String → Option String
  pub selector : List Offer → Option Offer
  pub request_hash : String → String → Option String
  -- The number of relays that took the event.
  pub publish : Event → Option ℕ
  pub bind_provider : BindProviderParams → Option CashuToken
  pub on_payment_change : List Json → Bool
  -- `none` where no result arrives in time.
  pub wait_for_result : Event → String → Option Event
  pub verifier : String → Option Verifier
  pub write_state : String → Bool

-- What a request draws and when: identity, id, nonce, times, and the events of its offer window.
pub record Run : Type 0 where
  pub identity : Keypair
  pub query_id : String
  pub nonce : String
  pub published : ℕ
  pub selected : ℕ
  pub window : List (ℕ × Event)
