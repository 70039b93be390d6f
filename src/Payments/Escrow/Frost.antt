-- ===== src/Payments/Escrow/Frost.antt =====
-- `verifyLock` of the FROST escrow: packages/sdk/src/payments/cashu/frost-escrow-provider.ts.
use anchr.Prelude.{
  ℕ, String, Bool, true, false, not, ◌&&◌, ◌||◌, List, [], ◌∷◌, ◌++◌, Option, none, some, nat_eq,
  if◌then◌else◌, ◌==◌, Eq-string, codes, find, any, template,
}
use anchr.Prelude.Json.{Json, Elements, Members, property, as_object}
use anchr.Prelude.Text.{utf16_length}
use anchr.Prelude.Dict.{Dict, lookup}
use anchr.Protocol.Nostr.{is_key, second}
use anchr.Requests.Finalize.{LockCheck}
use anchr.Payments.Escrow.{TokenTools, text_of, fails, lock_result}

-- `text.slice(2)` of a text that begins with two ASCII characters.
abbrev pub drop_two : String → String
drop_two (String.◌∷◌ a (String.◌∷◌ b rest)) = rest
drop_two s = s

abbrev pub is_prefixed : List ℕ → Bool
is_prefixed (a ∷ b ∷ rest) = nat_eq a b'0' && (nat_eq b b'2' || nat_eq b b'3')
is_prefixed _ = false

unfoldable pub to_x_only : String → String
unfolding utf16_length
to_x_only pubkey =
    if nat_eq (utf16_length (codes pubkey)) 66 && is_prefixed (codes pubkey)
    then drop_two pubkey
    else pubkey

unfoldable pub same_x_only_pubkey : TokenTools → String → String → Bool
same_x_only_pubkey tools candidate expected =
    tools.to_lower (to_x_only candidate) == tools.to_lower (to_x_only expected)

abbrev pub with_first : Option String → Option (List String) → Option (List String)
with_first (some s) (some rest) = some (s ∷ rest)
with_first _ _ = none

-- An array of texts.
unfoldable pub texts : Elements → Option (List String)
texts Elements.empty = some []
texts (Elements.element value rest) = with_first (text_of value) (texts rest)

abbrev pub add_tag : Option (List String) → List (List String) → List (List String)
add_tag none rest = rest
add_tag (some tag) rest = tag ∷ rest

abbrev pub as_tag : Json → Option (List String)
as_tag (Json.array xs) = texts xs
as_tag _ = none

unfoldable pub string_tags : Elements → List (List String)
string_tags Elements.empty = []
string_tags (Elements.element value rest) = add_tag (as_tag value) (string_tags rest)

abbrev pub read_string_tags : Option Json → List (List String)
read_string_tags (some (Json.array xs)) = string_tags xs
read_string_tags _ = []

-- `pubkeys.slice(1)` where the tag was found.
abbrev pub after_key : Option (List String) → List String
after_key none = []
after_key (some []) = []
after_key (some (key ∷ rest)) = rest

abbrev pub data_key : Option Json → List String
data_key (some (Json.text s)) = s ∷ []
data_key _ = []

-- The keys that a P2PK secret lists.
unfoldable pub lock_pubkeys : Members → List String
lock_pubkeys body =
    data_key (property "data" body)
    ++ after_key (find (is_key "pubkeys") (read_string_tags (property "tags" body)))

abbrev pub is_second : Option String → String → Bool
is_second none wanted = false
is_second (some value) wanted = value == wanted

-- `tag?.[1] === "2"`.
abbrev pub has_second : Option (List String) → String → Bool
has_second none wanted = false
has_second (some tag) wanted = is_second (second tag) wanted

abbrev pub first_element : Elements → Option Json
first_element Elements.empty = none
first_element (Elements.element value rest) = some value

abbrev pub first_failure : Option String → Option String → Option String
first_failure none later = later
first_failure (some why) later = some why

abbrev pub is_none : List String → Bool
is_none [] = true
is_none (k ∷ ks) = false

module _ (tools : TokenTools) (group provider : String) where
  unfoldable pub check_body : Members → Option String
  check_body body =
      let keys = lock_pubkeys body in
      if is_none keys
      then some "No lock pubkeys in P2PK proof"
      else if not
          (has_second (find (is_key "n_sigs") (read_string_tags (property "tags" body))) "2")
      then some "FROST P2PK lock must require 2 signatures"
      else if not (any (λ pk. same_x_only_pubkey tools pk provider) keys)
      then some "Provider pubkey not in P2PK lock"
      else if not (any (λ pk. same_x_only_pubkey tools pk group) keys)
      then some "Group pubkey not in P2PK lock"
      else none

  abbrev pub check_record : Option Members → Option String
  check_record none = some "Malformed P2PK proof"
  check_record (some body) = check_body body

  unfoldable pub check_secret : Option Json → Option String
  check_secret (some (Json.array (Elements.element (Json.text kind) rest))) =
      if kind == "P2PK"
      then check_record (as_object (first_element rest))
      else some "Not a P2PK proof"
  check_secret (some _) = some "Not a P2PK proof"
  check_secret none = some (template ("P2PK verification failed: " ∷ tools.error_text ∷ []))

  unfoldable pub check_secrets : List String → Option String
  check_secrets [] = none
  check_secrets (s ∷ rest) =
      let later = check_secrets rest in first_failure (check_secret (tools.parse s)) later

  unfoldable pub check_token : Option (List String) → Option String
  check_token none = some (template ("P2PK verification failed: " ∷ tools.error_text ∷ []))
  check_token (some secrets) = check_secrets secrets

-- What the provider keeps of a token.
pub record FrostEntry : Type 0 where
  pub token : String
  pub customer_refund_pubkey : String
  pub locktime_seconds : ℕ

abbrev pub verify_entry_lock : TokenTools → String → String → Option FrostEntry → LockCheck
verify_entry_lock tools group provider none = fails "Unknown escrow reference"
verify_entry_lock tools group provider (some entry) =
    lock_result (check_token tools group provider (tools.secrets entry.token))

-- The hash of the payment is not read.
unfoldable pub verify_frost_lock :
    TokenTools → String → Dict String FrostEntry → String → String → String → LockCheck
unfolding lookup
verify_frost_lock tools group tokens ref hash provider =
    verify_entry_lock tools group provider (lookup ref tokens)
