-- ===== src/Protocol/Nostr.antt =====
-- The Nostr layer: packages/protocol/src/nostr.ts. Of nostr-tools and the platform it takes the calls
-- below as parameters: JSON, `finalizeEvent`, `getPublicKey`, NIP-44 and `btoa`.
use anchr.Prelude.{
  ℕ, String, Bool, false, List, [], ◌∷◌, Option, none, some, if◌then◌else◌, ◌==◌, Eq-string, ◌≡◌,
}
use anchr.Prelude.Json.{Json}
use anchr.Prelude.Chain.{◌>>=◌}

abbrev pub Bytes : Type 0
Bytes = List ℕ

abbrev pub kind_query_request : ℕ
kind_query_request = 5300

abbrev pub kind_query_response : ℕ
kind_query_response = 6300

abbrev pub kind_query_feedback : ℕ
kind_query_feedback = 7000

abbrev pub kind_direct_message : ℕ
kind_direct_message = 4

pub record EventTemplate : Type 0 where
  pub kind : ℕ
  pub created_at : ℕ
  pub content : String
  pub tags : List (List String)

pub record Event : Type 0 where
  pub id : String
  pub pubkey : String
  pub created_at : ℕ
  pub kind : ℕ
  pub tags : List (List String)
  pub content : String
  pub sig : String

pub record Keypair : Type 0 where
  pub secret_key : Bytes
  pub public_key : String

-- A call that may throw returns an `Option`. The nonce of NIP-44 is drawn at random by the library.
pub record Tools : Type 0 where
  pub stringify : Json → String
  pub parse : String → Option Json
  pub finalize_event : EventTemplate → Bytes → Event
  pub get_public_key : Bytes → String
  pub get_conversation_key : Bytes → String → Option String
  pub nip44_encrypt : String → String → String → Option String
  pub nip44_decrypt : String → String → Option String
  pub btoa : Bytes → String

-- A finalized event has the template's kind, content and tags, and the public key of the signer.
pub record Finalizes (tools : Tools) : Type 0 where
  pub same_kind : (t : EventTemplate) (sk : Bytes) → (tools.finalize_event t sk).kind ≡ t.kind
  pub same_content :
      (t : EventTemplate) (sk : Bytes) → (tools.finalize_event t sk).content ≡ t.content
  pub same_tags : (t : EventTemplate) (sk : Bytes) → (tools.finalize_event t sk).tags ≡ t.tags
  pub signed_by :
      (t : EventTemplate) (sk : Bytes)
      → (tools.finalize_event t sk).pubkey ≡ tools.get_public_key sk

unfoldable pub generate_keypair : Tools → Bytes → Keypair
generate_keypair tools random = record {
  secret_key = random;
  public_key = tools.get_public_key random;
}

unfoldable pub encrypt_nip44 : Tools → String → Bytes → String → String → Option String
encrypt_nip44 tools content sender recipient nonce = do
  key ← tools.get_conversation_key sender recipient
  tools.nip44_encrypt content key nonce

unfoldable pub decrypt_nip44 : Tools → String → Bytes → String → Option String
decrypt_nip44 tools ciphertext recipient sender = do
  key ← tools.get_conversation_key recipient sender
  tools.nip44_decrypt ciphertext key

abbrev pub sign_event : Tools → EventTemplate → Bytes → Event
sign_event tools t sk = tools.finalize_event t sk

-- `t[1]`.
abbrev pub second : List String → Option String
second (key ∷ value ∷ _) = some value
second _ = none

-- `t[0] === key`.
abbrev pub is_key : String → List String → Bool
is_key key [] = false
is_key key (k ∷ _) = k == key

-- `findTagValue`, over the tags of the event: the first tag with the key decides.
unfoldable pub find_tag_value : List (List String) → String → Option String
find_tag_value [] key = none
find_tag_value (t ∷ rest) key = if is_key key t then second t else find_tag_value rest key

abbrev pub collect_value : Option String → List String → List String
collect_value none out = out
collect_value (some value) out = value ∷ out

-- `findAllTagValues`.
unfoldable pub find_all_tag_values : List (List String) → String → List String
find_all_tag_values [] key = []
find_all_tag_values (t ∷ rest) key =
    let more = find_all_tag_values rest key in
    if is_key key t then collect_value (second t) more else more
