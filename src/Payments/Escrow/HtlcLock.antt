-- ===== src/Payments/Escrow/HtlcLock.antt =====
-- What a confirmed lock of the HTLC escrow says about the token.
use anchr.Prelude.{
  String, Bool, true, false, ◌||◌, List, [], ◌∷◌, Option, none, some, All, ◌≡◌, refl, arith, ap,
  ◌∙◌, Eq-string,
}
use anchr.Prelude.Json.{Json, Elements, Members, property, as_object, is_text}
use anchr.Prelude.Dict.{Dict, lookup}
use anchr.Requests.Finalize.{LockCheck}
use anchr.Payments.Escrow.{TokenTools}
use anchr.Payments.Escrow.Frost.{first_element}
use anchr.Payments.Escrow.Htlc.{
  Outcome, proper, improper, crashes, Found, keys, missing, not_a_tag, pubkey_tag, includes_text,
  provider_hex, check_keys, then_check, check_htlc_body, check_htlc_secret, check_htlc_secrets,
  check_htlc_token, verify_htlc_entry, verify_htlc_lock,
}

module _ (tools : TokenTools) (hash provider : String) where
  -- The body has the hash, and its first `pubkeys` tag lists the provider's key.
  abbrev pub ToProvider : Members → Type 0
  ToProvider body =
      (is_text hash (property "data" body) ≡ true)
      × ((locked : Elements) × (pubkey_tag (property "tags" body) ≡ keys locked)
          × ((includes_text locked provider || includes_text locked (provider_hex provider))
              ≡ true))

  abbrev pub HtlcLocked : String → Type 0
  HtlcLocked s =
      (rest : Elements) × (body : Members) × (tools.parse s
        ≡ some (Json.array (Elements.element (Json.text "HTLC") rest)))
      × (as_object (first_element rest) ≡ some body)
      × ToProvider body

  check_keys-listed :
      (found : Found)
      → check_keys tools hash provider found ≡ proper
      → (locked : Elements) × (found ≡ keys locked)
        × ((includes_text locked provider || includes_text locked (provider_hex provider)) ≡ true)
  check_keys-listed missing h = ground arith
  check_keys-listed not_a_tag h = ground arith
  check_keys-listed (keys locked) h = (locked, refl, ground arith)

  check_htlc_body-ToProvider :
      (found : Option Members)
      → check_htlc_body tools hash provider found ≡ proper
      → (body : Members) × (found ≡ some body) × ToProvider body
  unfolding check_htlc_body
  check_htlc_body-ToProvider none h = ground arith
  check_htlc_body-ToProvider (some body) h = (
    body,
    refl,
    (ground arith, check_keys-listed (pubkey_tag (property "tags" body)) (ground arith)),
  )

  check_htlc_secret-HtlcLocked :
      (s : String) (parsed : Option Json)
      → tools.parse s ≡ parsed
      → check_htlc_secret tools hash provider parsed ≡ proper
      → HtlcLocked s
  unfolding check_htlc_secret
  check_htlc_secret-HtlcLocked s none same h = ground arith
  check_htlc_secret-HtlcLocked s (some (Json.array (Elements.element (Json.text kind) rest))) same
        h =
      let htlc : kind ≡ "HTLC" = ground (arith, Eq-string.beq_iff kind "HTLC") in
      let found =
        check_htlc_body-ToProvider (as_object (first_element rest))
          (ground (arith, Eq-string.beq_iff kind "HTLC")) in
      (
        rest,
        found.0,
        same ∙ ap (λ k. some (Json.array (Elements.element (Json.text k) rest))) htlc,
        found.1,
        found.2,
      )
  check_htlc_secret-HtlcLocked s (some _) same h = ground arith

  -- The check ended well.
  abbrev pub Confirms : Option LockCheck → Type 0
  Confirms result = (check : LockCheck) × (result ≡ some check) × (check.ok ≡ true)

  first_proper :
      (outcome : Outcome) (later : Option LockCheck)
      → Confirms (then_check tools hash provider outcome later)
      → (outcome ≡ proper) × Confirms later
  first_proper proper later h = (refl, h)
  first_proper (improper why) later h = ground arith
  first_proper crashes later h = ground arith

  check_htlc_secrets-HtlcLocked :
      (checked : Bool) (secrets : List String)
      → Confirms (check_htlc_secrets tools hash provider checked secrets)
      → All HtlcLocked secrets
  unfolding check_htlc_secrets
  check_htlc_secrets-HtlcLocked checked [] h = tt
  check_htlc_secrets-HtlcLocked checked (s ∷ rest) h =
      let both =
        first_proper (check_htlc_secret tools hash provider (tools.parse s))
          (check_htlc_secrets tools hash provider true rest) h in
      (
        check_htlc_secret-HtlcLocked s (tools.parse s) refl both.0,
        check_htlc_secrets-HtlcLocked true rest both.1,
      )

  no_proofs : Confirms (check_htlc_secrets tools hash provider false []) → ⊥
  unfolding check_htlc_secrets
  no_proofs h = ground arith

  -- The token decodes to proofs, at least one, that are all locked to the hash and the provider.
  abbrev pub TokenLocked : String → Type 0
  TokenLocked token =
      (s : String) × (rest : List String) × (tools.secrets token ≡ some (s ∷ rest))
      × All HtlcLocked (s ∷ rest)

  decoded-TokenLocked :
      (token : String) (decoded : Option (List String))
      → tools.secrets token ≡ decoded
      → Confirms (check_htlc_token tools hash provider decoded)
      → TokenLocked token
  unfolding check_htlc_token
  decoded-TokenLocked token none same h = ground arith
  decoded-TokenLocked token (some []) same h = absurd (no_proofs h)
  decoded-TokenLocked token (some (s ∷ rest)) same h =
      (s, rest, same, check_htlc_secrets-HtlcLocked false (s ∷ rest) h)

  entry-TokenLocked :
      (found : Option String)
      → Confirms (verify_htlc_entry tools hash provider found)
      → (token : String) × (found ≡ some token) × TokenLocked token
  entry-TokenLocked none h = ground arith
  entry-TokenLocked (some token) h =
      (token, refl, decoded-TokenLocked token (tools.secrets token) refl h)

  -- A lock is confirmed only for a known token with at least one proof, all of whose proofs are HTLC
  -- proofs with the hash that list the provider's key.
  pub verify_htlc_lock-TokenLocked :
      (tokens : Dict String String) (ref : String) (check : LockCheck)
      → verify_htlc_lock tools tokens ref hash provider ≡ some check
      → check.ok ≡ true
      → (token : String) × (lookup ref tokens ≡ some token) × TokenLocked token
  unfolding verify_htlc_lock
  verify_htlc_lock-TokenLocked tokens ref check h fine =
      entry-TokenLocked (lookup ref tokens) (check, h, fine)
