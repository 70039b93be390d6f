-- ===== src/Proofs/Tlsn/Conditions.antt =====
-- `evaluateCondition` and `resolveDotPath` of packages/sdk/src/proofs/tlsn-validation.ts.
use anchr.Prelude.{
  ℕ, suc, String, Bool, true, false, not, ◌||◌, List, [], ◌∷◌, Option, none, some, ltb, codes,
  if◌then◌else◌, ◌==◌, Eq-string, decimal, includes, is_some,
}
use anchr.Prelude.Json.{Json, Elements, Numeral, property}
use anchr.Prelude.Chain.{◌>>=◌, ◌>>◌, require}
use anchr.Prelude.Text.{utf16_length}
use anchr.Protocol.Schema.{strip_prefix}
use anchr.Proofs.Tlsn.Types.{TlsnCondition, ConditionType}
use anchr.Proofs.Tlsn.Regex.{is_suspicious_regex}

-- The calls of the language: `JSON.parse`, `new RegExp(pattern).exec(body)?.[0]` and `String(value)`
-- (each `none` where it throws), and `path.split(".")`.
pub record Language : Type 0 where
  pub parse : String → Option Json
  pub exec : String → Option (String → Option String)
  pub string_of : Json → Option String
  pub split_dots : String → List String

pub record Evaluated : Type 0 where
  pub passed : Bool
  pub actual_value : Option String

-- `body.includes(part)`.
unfoldable pub has_part : List ℕ → List ℕ → Bool
unfolding strip_prefix
has_part part [] = is_some (strip_prefix part [])
has_part part (c ∷ rest) = is_some (strip_prefix part (c ∷ rest)) || has_part part rest

abbrev pub blocked_props : List String
blocked_props = "__proto__" ∷ "constructor" ∷ "prototype" ∷ []

unfoldable pub count : Elements → ℕ
count Elements.empty = 0
count (Elements.element value rest) = suc (count rest)

-- The element whose index prints as the part.
unfoldable pub element_at : ℕ → String → Elements → Option Json
element_at index part Elements.empty = none
element_at index part (Elements.element value rest) =
    let later = element_at (suc index) part rest in
    if decimal index == part then some value else later

-- The own property of an object or an array; anything else has none.
unfoldable pub own_property : Json → String → Option Json
own_property (Json.object p) part = property part p
own_property (Json.array xs) part =
    if part == "length"
    then some (Json.number (Numeral.natural (count xs)))
    else element_at 0 part xs
own_property _ part = none

unfoldable pub walk : List String → Json → Option Json
walk [] current = some current
walk (part ∷ rest) current = do
  require (not (includes blocked_props part))
  next ← own_property current part
  walk rest next

unfoldable pub resolve_dot_path : Language → Json → String → Option Json
resolve_dot_path language obj path = walk (language.split_dots path) obj

-- What follows the regular expression's compilation; `none` where the pattern is invalid.
unfoldable pub matched : Option (String → Option String) → String → Evaluated
matched none body = record { passed = false; actual_value = some "invalid regex pattern" }
matched (some exec) body = record { passed = is_some (exec body); actual_value = exec body }

unfoldable pub as_expected : Option String → String → Evaluated
as_expected none actual = record { passed = true; actual_value = some actual }
as_expected (some expected) actual = record {
  passed = actual == expected;
  actual_value = some actual;
}

unfoldable pub stringified : TlsnCondition → Option String → Evaluated
stringified condition none = record { passed = false; actual_value = some "invalid JSON" }
stringified condition (some actual) = as_expected condition.expected actual

unfoldable pub compared : Language → TlsnCondition → Option Json → Evaluated
compared language condition none = record { passed = false; actual_value = none }
compared language condition (some value) = stringified condition (language.string_of value)

unfoldable pub evaluate_jsonpath : Language → TlsnCondition → Option Json → Evaluated
evaluate_jsonpath language condition none = record {
  passed = false;
  actual_value = some "invalid JSON";
}
evaluate_jsonpath language condition (some obj) =
    compared language condition (resolve_dot_path language obj condition.expression)

unfoldable pub evaluate_regex : Language → String → String → Evaluated
evaluate_regex language pattern body =
    if ltb 500 (utf16_length (codes pattern))
    then record { passed = false; actual_value = some "regex pattern too long (max 500 chars)" }
    else if is_suspicious_regex pattern
    then record {
      passed = false;
      actual_value = some "regex rejected: potential ReDoS pattern detected";
    }
    else matched (language.exec pattern) body

unfoldable pub evaluate_contains : String → String → Evaluated
evaluate_contains expression body =
    let passed = has_part (codes expression) (codes body) in
    record { passed = passed; actual_value = if passed then some expression else none }

unfoldable pub evaluate : Language → ConditionType → TlsnCondition → String → Evaluated
evaluate language ConditionType.contains condition body =
    evaluate_contains condition.expression body
evaluate language ConditionType.regex condition body =
    evaluate_regex language condition.expression body
evaluate language ConditionType.jsonpath condition body =
    evaluate_jsonpath language condition (language.parse body)

abbrev pub evaluate_condition : Language → TlsnCondition → String → Evaluated
evaluate_condition language condition body = evaluate language condition.type condition body
