-- ===== src/Payments/Escrow.antt =====
-- The escrow providers over Cashu tokens: packages/sdk/src/payments/cashu/cashu-escrow-provider.ts
-- (Htlc) and frost-escrow-provider.ts (Frost).
pub mod Frost
pub mod Htlc
pub mod FrostLock
pub mod HtlcLock
pub mod Signatures
use anchr.Prelude.{String, Bool, true, false, List, Option, none, some, ◌≡◌}
use anchr.Prelude.Json.{Json}
use anchr.Requests.Finalize.{LockCheck}

-- What the library and the language do: `getDecodedToken`, which gives the secrets of the proofs or
-- throws with a message, `JSON.parse`, and `toLowerCase`.
pub record TokenTools : Type 0 where
  pub secrets : String → Option (List String)
  pub parse : String → Option Json
  pub to_lower : String → String
  -- The text of the error where one of the calls throws.
  pub error_text : String

-- `typeof item === "string"` on an element of an array.
abbrev pub text_of : Json → Option String
text_of (Json.text s) = some s
text_of _ = none

abbrev pub passes : LockCheck
passes = record { ok = true; message = none }

abbrev pub fails : String → LockCheck
fails why = record { ok = false; message = some why }

-- The first failure, if any.
abbrev pub lock_result : Option String → LockCheck
lock_result none = passes
lock_result (some why) = fails why
