-- ===== src/Protocol/Events/Channel.antt =====
-- What the builders and parsers of encrypted payloads rely on, for one body.
use anchr.Prelude.{String, some, ◌≡◌, refl}
use anchr.Prelude.Json.{Json, Members}
use anchr.Protocol.Nostr.{Tools, Bytes, encrypt_nip44, decrypt_nip44}
use anchr.Protocol.Events.Payload.{parsed_object, decrypted_object}

-- Sender and recipient derive the same conversation key, NIP-44 takes a text of this size and
-- decrypts what it encrypted, and JSON reads back what it wrote.
pub record Carries (tools : Tools) (secret : Bytes) (recipient : String) (recipient_secret : Bytes)
    (sender : String) (nonce : String) (body : Json) : Type 0 where
  pub key : String
  pub ciphertext : String
  pub sent : tools.get_conversation_key secret recipient ≡ some key
  pub received : tools.get_conversation_key recipient_secret sender ≡ some key
  pub encrypted : tools.nip44_encrypt (tools.stringify body) key nonce ≡ some ciphertext
  pub decrypted : tools.nip44_decrypt ciphertext key ≡ some (tools.stringify body)
  pub parsed : tools.parse (tools.stringify body) ≡ some body

module _ {tools : Tools} {secret recipient_secret : Bytes} {recipient sender nonce : String} where
  pub encrypt-Carries :
      (body : Json) (c : Carries tools secret recipient recipient_secret sender nonce body)
      → encrypt_nip44 tools (tools.stringify body) secret recipient nonce ≡ some c.ciphertext
  unfolding encrypt_nip44
  encrypt-Carries body c = rw (c.sent) (c.encrypted)

  pub decrypted-Carries :
      (p : Members)
      (c : Carries tools secret recipient recipient_secret sender nonce (Json.object p))
      → decrypted_object tools c.ciphertext recipient_secret sender ≡ some p
  unfolding decrypted_object decrypt_nip44 parsed_object
  decrypted-Carries p c = rw (c.received, c.decrypted, c.parsed) refl
