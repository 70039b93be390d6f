-- ===== src/Proofs/Tlsn/Types.antt =====
-- The payloads of TLSNotary and their guards, packages/sdk/src/proofs/tlsn-types.ts. A guard
-- `isX(value)` is a reader: it yields the typed view of the value exactly where the guard holds.
use anchr.Prelude.{
  ℕ, String, Bool, true, false, List, [], ◌∷◌, Option, none, some, if◌then◌else◌, ◌==◌, Eq-string,
}
use anchr.Prelude.Json.{Json, Elements, Numeral, property, as_object, as_text}
use anchr.Prelude.Chain.{◌>>=◌, ◌>>◌, require}

pub data ConditionType : Type 0 where
  contains regex jsonpath : ConditionType

pub record TlsnCondition : Type 0 where
  pub type : ConditionType
  pub expression : String
  pub expected : Option String
  pub description : Option String

pub data HttpMethod : Type 0 where
  get post : HttpMethod

pub record TlsnRequirement : Type 0 where
  pub target_url : String
  pub method : Option HttpMethod
  pub conditions : Option (List TlsnCondition)
  pub max_attestation_age_seconds : Option Numeral
  pub domain_hint : Option String

pub record TlsnAttestation : Type 0 where
  pub presentation : String

pub record TlsnVerifiedData : Type 0 where
  pub server_name : String
  pub revealed_body : String
  pub revealed_headers : Option String
  pub session_timestamp : ℕ

pub record TlsnExtensionResultEntry : Type 0 where
  pub type : String
  pub part : String
  pub value : String

pub record TlsnExtensionResult : Type 0 where
  pub presentation : Option String
  pub results : Option (List TlsnExtensionResultEntry)

-- `value !== undefined && typeof value !== "string"` refuses.
abbrev pub optional_text : Option Json → Option (Option String)
optional_text none = some none
optional_text (some (Json.text s)) = some (some s)
optional_text (some _) = none

abbrev pub optional_number : Option Json → Option (Option Numeral)
optional_number none = some none
optional_number (some (Json.number n)) = some (some n)
optional_number (some _) = none

-- `Array.isArray(value) && value.every(guard)`.
unfoldable pub read_all {ℓ} : {A : Type ℓ} → (Option Json → Option A) → Elements → Option (List A)
read_all read Elements.empty = some []
read_all read (Elements.element value rest) = do
  first ← read (some value)
  others ← read_all read rest
  some (first ∷ others)

abbrev pub optional_array {ℓ} :
    {A : Type ℓ} → (Option Json → Option A) → Option Json → Option (Option (List A))
optional_array read none = some none
optional_array read (some (Json.array xs)) = read_all read xs >>= λ list. some (some list)
optional_array read (some _) = none

unfoldable pub condition_type : String → Option ConditionType
condition_type s =
    if s == "contains"
    then some contains
    else if s == "regex"
    then some regex
    else if s == "jsonpath"
    then some jsonpath
    else none

unfoldable pub is_tlsn_condition : Option Json → Option TlsnCondition
is_tlsn_condition value = do
  p ← as_object value
  type ← as_text (property "type" p) >>= condition_type
  expression ← as_text (property "expression" p)
  expected ← optional_text (property "expected" p)
  description ← optional_text (property "description" p)
  some (record {
    type = type;
    expression = expression;
    expected = expected;
    description = description;
  })

unfoldable pub http_method : String → Option HttpMethod
http_method s = if s == "GET" then some get else if s == "POST" then some post else none

abbrev pub is_http_method : Option Json → Option (Option HttpMethod)
is_http_method none = some none
is_http_method (some (Json.text s)) = http_method s >>= λ method. some (some method)
is_http_method (some _) = none

unfoldable pub is_tlsn_requirement : Option Json → Option TlsnRequirement
is_tlsn_requirement value = do
  p ← as_object value
  target_url ← as_text (property "target_url" p)
  method ← is_http_method (property "method" p)
  conditions ← optional_array is_tlsn_condition (property "conditions" p)
  age ← optional_number (property "max_attestation_age_seconds" p)
  domain_hint ← optional_text (property "domain_hint" p)
  some (record {
    target_url = target_url;
    method = method;
    conditions = conditions;
    max_attestation_age_seconds = age;
    domain_hint = domain_hint;
  })

unfoldable pub is_tlsn_attestation : Option Json → Option TlsnAttestation
is_tlsn_attestation value = do
  p ← as_object value
  presentation ← as_text (property "presentation" p)
  some (record { presentation = presentation })

unfoldable pub is_tlsn_extension_result_entry : Option Json → Option TlsnExtensionResultEntry
is_tlsn_extension_result_entry value = do
  p ← as_object value
  type ← as_text (property "type" p)
  part ← as_text (property "part" p)
  text ← as_text (property "value" p)
  some (record { type = type; part = part; value = text })

-- `value.presentation !== undefined || value.results !== undefined`.
abbrev pub has_result {ℓ} : {A : Type ℓ} → Option String → Option A → Bool
has_result none none = false
has_result _ _ = true

unfoldable pub is_tlsn_extension_result : Option Json → Option TlsnExtensionResult
is_tlsn_extension_result value = do
  p ← as_object value
  presentation ← optional_text (property "presentation" p)
  results ← optional_array is_tlsn_extension_result_entry (property "results" p)
  require (has_result presentation results)
  some (record { presentation = presentation; results = results })
