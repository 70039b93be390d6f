-- ===== src/Protocol/Schema.antt =====
-- Proof Schema URLs, packages/protocol/src/schema.ts. The platform's URL parser is a parameter.
use anchr.Prelude.{
  ℕ, String, Bool, true, false, ◌&&◌, ◌||◌, List, [], ◌∷◌, Option, none, some, leb, nat_eq, codes,
  if◌then◌else◌, ◌==◌, Eq-string,
}

-- The fields of a parsed URL that the check reads.
pub record Url : Type 0 where
  pub protocol : String
  pub username : String
  pub password : String
  pub search : String
  pub hash : String
  pub pathname : String

-- `new URL(text)`, `none` where it throws.
abbrev pub UrlParser : Type 0
UrlParser = String → Option Url

abbrev pub is_digit : ℕ → Bool
is_digit c = leb b'0' c && leb c b'9'

-- A character of the class `[a-z0-9-]`.
abbrev pub is_slug : ℕ → Bool
is_slug c = (leb b'a' c && leb c b'z') || (is_digit c || nat_eq c b'-')

-- What is left of a text after a fixed beginning.
unfoldable pub strip_prefix : List ℕ → List ℕ → Option (List ℕ)
strip_prefix [] cs = some cs
strip_prefix (p ∷ ps) [] = none
strip_prefix (p ∷ ps) (c ∷ cs) = if nat_eq p c then strip_prefix ps cs else none

-- `\d*$`.
unfoldable pub digits_to_end : List ℕ → Bool
digits_to_end [] = true
digits_to_end (c ∷ cs) = is_digit c && digits_to_end cs

-- `\d+$`.
unfoldable pub version_number : List ℕ → Bool
unfolding digits_to_end
version_number [] = false
version_number (c ∷ cs) = is_digit c && digits_to_end cs

-- `\/v\d+$`.
unfoldable pub version_part : List ℕ → Bool
unfolding strip_prefix version_number
version_part cs = elim (strip_prefix (codes "/v") cs) [
  | none ↦ false
  | some rest ↦ version_number rest
]

-- `[a-z0-9-]*\/v\d+$`: a slug character is no slash, so the run of them ends where `/v` begins.
unfoldable pub slug_rest : List ℕ → Bool
unfolding version_part
slug_rest [] = false
slug_rest (c ∷ cs) = if is_slug c then slug_rest cs else version_part (c ∷ cs)

-- `[a-z0-9-]+\/v\d+$`.
unfoldable pub slug_part : List ℕ → Bool
unfolding slug_rest
slug_part [] = false
slug_part (c ∷ cs) = is_slug c && slug_rest cs

-- `/^\/spec\/proof\/[a-z0-9-]+\/v\d+$/`.
unfoldable pub is_schema_path : String → Bool
unfolding strip_prefix slug_part
is_schema_path path = elim (strip_prefix (codes "/spec/proof/") (codes path)) [
  | none ↦ false
  | some rest ↦ slug_part rest
]

unfoldable pub is_schema_url : Url → Bool
unfolding is_schema_path
is_schema_url url =
    url.protocol == "https:"
    && (url.username == "" && url.password == "")
    && (url.search == "" && url.hash == "")
    && is_schema_path url.pathname

unfoldable pub is_schema_uri : UrlParser → String → Bool
unfolding is_schema_url
is_schema_uri parse value = elim (parse value) [ none ↦ false | some url ↦ is_schema_url url ]
