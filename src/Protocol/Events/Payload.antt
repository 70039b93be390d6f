-- ===== src/Protocol/Events/Payload.antt =====
-- What the builders and the parsers of packages/protocol/src/events.ts share.
use anchr.Prelude.{ℕ, String, Bool, Option, Eq-string}
use anchr.Prelude.Json.{Json, Members, Numeral, property, as_object, is_natural}
use anchr.Prelude.Chain.{◌>>=◌}
use anchr.Protocol.Nostr.{Tools, Bytes, decrypt_nip44}

-- Each `..._VERSION` of the source.
abbrev pub payload_version : ℕ
payload_version = 0

-- `{ ...payload, version }`: the version comes last.
unfoldable pub with_version : Members → ℕ → Members
with_version Members.bare version =
    Members.member "version" (Json.number (Numeral.natural version)) Members.bare
with_version (Members.member key value rest) version =
    Members.member key value (with_version rest version)

unfoldable pub stringify_payload : Tools → Members → ℕ → String
stringify_payload tools payload version =
    tools.stringify (Json.object (with_version payload version))

unfoldable pub has_version : Members → ℕ → Bool
has_version payload version = is_natural version (property "version" payload)

-- `JSON.parse(content)` and the test that it is an object.
unfoldable pub parsed_object : Tools → String → Option Members
parsed_object tools content = as_object (tools.parse content)

-- The same after decryption; `decryptDmJson` after its test of the kind.
unfoldable pub decrypted_object : Tools → String → Bytes → String → Option Members
decrypted_object tools ciphertext recipient sender = do
  plaintext ← decrypt_nip44 tools ciphertext recipient sender
  parsed_object tools plaintext
