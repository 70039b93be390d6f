-- ===== src/Payments/Escrow/FrostLock.antt =====
-- What a confirmed lock of the FROST escrow says about the token.
use anchr.Prelude.{
  String, Bool, true, false, List, [], ◌∷◌, Option, none, some, All, any, find, ◌≡◌, refl, arith,
  ap, ◌∙◌, ◌↔◌, Eq-string,
}
use anchr.Prelude.Json.{Json, Elements, Members, property, as_object}
use anchr.Prelude.Dict.{Dict, lookup}
use anchr.Protocol.Nostr.{is_key}
use anchr.Payments.Escrow.{TokenTools, lock_result}
use anchr.Payments.Escrow.Frost.{
  FrostEntry, same_x_only_pubkey, lock_pubkeys, read_string_tags, has_second, first_element,
  check_body, check_record, check_secret, check_secrets, check_token, verify_frost_lock,
  verify_entry_lock, is_none,
}

module _ (tools : TokenTools) (group provider : String) where
  -- The body asks for two signatures and lists the keys of the provider and of the group.
  abbrev pub Shared : Members → Type 0
  Shared body =
      (has_second (find (is_key "n_sigs") (read_string_tags (property "tags" body))) "2" ≡ true)
      × (any (λ pk. same_x_only_pubkey tools pk provider) (lock_pubkeys body) ≡ true)
      × (any (λ pk. same_x_only_pubkey tools pk group) (lock_pubkeys body) ≡ true)

  -- A P2PK secret with such a body.
  abbrev pub Locked : String → Type 0
  Locked s =
      (rest : Elements) × (body : Members) × (tools.parse s
        ≡ some (Json.array (Elements.element (Json.text "P2PK") rest)))
      × (as_object (first_element rest) ≡ some body)
      × Shared body

  check_body-Shared : (body : Members) → check_body tools group provider body ≡ none → Shared body
  unfolding check_body
  check_body-Shared body h = ground arith

  any-nonempty :
      (test : String → Bool) (keys : List String) → any test keys ≡ true → is_none keys ≡ false
  unfolding any
  any-nonempty test [] h = ground arith
  any-nonempty test (k ∷ ks) h = refl

  Shared-check_body : (body : Members) → Shared body → check_body tools group provider body ≡ none
  unfolding check_body
  Shared-check_body body (two, mine, ours) =
      rw (any-nonempty _ (lock_pubkeys body) mine, two, mine, ours) refl

  check_record-Shared :
      (found : Option Members)
      → check_record tools group provider found ≡ none
      → (body : Members) × (found ≡ some body) × Shared body
  check_record-Shared none h = ground arith
  check_record-Shared (some body) h = (body, refl, check_body-Shared body h)

  check_secret-Locked :
      (s : String) (parsed : Option Json)
      → tools.parse s ≡ parsed
      → check_secret tools group provider parsed ≡ none
      → Locked s
  unfolding check_secret
  check_secret-Locked s none same h = ground arith
  check_secret-Locked s (some (Json.array (Elements.element (Json.text kind) rest))) same h =
      let p2pk : kind ≡ "P2PK" = ground (arith, Eq-string.beq_iff kind "P2PK") in
      let found =
        check_record-Shared (as_object (first_element rest))
          (ground (arith, Eq-string.beq_iff kind "P2PK")) in
      (
        rest,
        found.0,
        same ∙ ap (λ k. some (Json.array (Elements.element (Json.text k) rest))) p2pk,
        found.1,
        found.2,
      )
  check_secret-Locked s (some _) same h = ground arith

  Locked-check_secret :
      (s : String) → Locked s → check_secret tools group provider (tools.parse s) ≡ none
  unfolding check_secret
  Locked-check_secret s (rest, body, parsed, found, shared) =
      rw (parsed, found, Shared-check_body body shared) refl

  check_secrets-Locked :
      (secrets : List String)
      → check_secrets tools group provider secrets ≡ none
      → All Locked secrets
  unfolding check_secrets
  check_secrets-Locked [] h = tt
  check_secrets-Locked (s ∷ rest) h =
      let first : check_secret tools group provider (tools.parse s) ≡ none = ground arith in
      let later : check_secrets tools group provider rest ≡ none = ground arith in
      (check_secret-Locked s (tools.parse s) refl first, check_secrets-Locked rest later)

  Locked-check_secrets :
      (secrets : List String)
      → All Locked secrets
      → check_secrets tools group provider secrets ≡ none
  unfolding check_secrets
  Locked-check_secrets [] h = refl
  Locked-check_secrets (s ∷ rest) h =
      rw (Locked-check_secret s h.0, Locked-check_secrets rest h.1) refl

  -- The token of an entry decodes to proofs that are all locked so.
  abbrev pub EntryLocked : FrostEntry → Type 0
  EntryLocked entry =
      (secrets : List String) × (tools.secrets entry.token ≡ some secrets) × All Locked secrets

  token-Locked :
      (decoded : Option (List String))
      → (lock_result (check_token tools group provider decoded)).ok ≡ true
      → (secrets : List String) × (decoded ≡ some secrets) × All Locked secrets
  unfolding check_token
  token-Locked none h = ground arith
  token-Locked (some secrets) h = (secrets, refl, check_secrets-Locked secrets (ground arith))

  entry-Locked :
      (found : Option FrostEntry)
      → (verify_entry_lock tools group provider found).ok ≡ true
      → (entry : FrostEntry) × (found ≡ some entry) × EntryLocked entry
  entry-Locked none h = ground arith
  entry-Locked (some entry) h = (entry, refl, token-Locked (tools.secrets entry.token) h)

  -- The lock of a token is confirmed exactly if every one of its proofs is a P2PK proof that asks for
  -- two signatures and lists the keys of the provider and of the group: whatever other keys it
  -- lists, whatever its lock time, and also if it has no proof at all.
  pub verify_frost_lock_iff :
      (tokens : Dict String FrostEntry) (ref hash : String)
      → ((verify_frost_lock tools group tokens ref hash provider).ok ≡ true)
        ↔ ((entry : FrostEntry) × (lookup ref tokens ≡ some entry) × EntryLocked entry)
  unfolding verify_frost_lock check_token
  verify_frost_lock_iff tokens ref hash = (
    λ h. entry-Locked (lookup ref tokens) h,
    λ held. rw (held.1, held.2.1, Locked-check_secrets held.2.0 held.2.2) refl,
  )
