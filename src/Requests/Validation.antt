-- ===== src/Requests/Validation.antt =====
-- The checks of values, packages/sdk/src/requests/domain/value-objects.ts.
-- Each returns the error's text, or `none` if the value is valid.
use anchr.Prelude.{
  ℕ, ◌+◌, ◌-◌, String, Bool, false, not, ◌&&◌, ◌||◌, [], ◌∷◌, Option, none, some, leb, ltb, nat_eq,
  codes, if◌then◌else◌, truthy, all, template, decimal,
}
use anchr.Protocol.Schema.{UrlParser, is_schema_uri}
use anchr.Requests.Types.{Number, finite, infinite, nan, QueryInput, OfferInfo}

-- The code points that `trim` removes.
unfoldable pub is_space : ℕ → Bool
is_space c =
    (leb 9 c && leb c 13)
    || nat_eq c 32
    || nat_eq c 160
    || nat_eq c 5760
    || (leb 8192 c && leb c 8202)
    || nat_eq c 8232
    || nat_eq c 8233
    || nat_eq c 8239
    || nat_eq c 8287
    || nat_eq c 12288
    || nat_eq c 65279

-- `!s || s.trim().length === 0`: nothing is left of the text when all of it is white space.
unfoldable pub is_blank : String → Bool
unfolding is_space all
is_blank s = not (truthy s) || all is_space (codes s)

abbrev pub min_escrow_locktime_secs : ℕ
min_escrow_locktime_secs = 600

-- `${a - b}` for whole numbers, with its sign.
abbrev pub difference_text : ℕ → ℕ → String
difference_text a b = if leb b a then decimal (a - b) else template ("-" ∷ decimal (b - a) ∷ [])

-- `remaining < minSecs` of the source is `locktime < nowSecs + minSecs`, and nothing is truncated.
unfoldable pub validate_escrow_locktime : Number → ℕ → ℕ → Option String
validate_escrow_locktime (finite locktime) now_secs min_secs =
    if ltb locktime (now_secs + min_secs)
    then some (
        template (
          "escrow locktime must be at least "
          ∷ decimal min_secs
          ∷ "s in the future (got "
          ∷ difference_text locktime now_secs
          ∷ "s)"
          ∷ []))
    else none
validate_escrow_locktime infinite now_secs min_secs = some "locktime must be a finite number"
validate_escrow_locktime nan now_secs min_secs = some "locktime must be a finite number"

-- `input.schema !== undefined && !isSchemaUri(input.schema)`.
unfoldable pub has_bad_schema : UrlParser → Option String → Bool
has_bad_schema parse none = false
has_bad_schema parse (some uri) = not (is_schema_uri parse uri)

unfoldable pub validate_query_input : UrlParser → QueryInput → Option String
unfolding has_bad_schema
validate_query_input parse input =
    if is_blank input.description
    then some "description must not be empty"
    else if has_bad_schema parse input.schema
    then some "schema must be a valid Proof Schema URL"
    else none

unfoldable pub validate_offer_info : OfferInfo → Option String
validate_offer_info offer =
    if is_blank offer.provider_pubkey
    then some "provider_pubkey must not be empty"
    else if is_blank offer.offer_event_id
    then some "offer_event_id must not be empty"
    else none
