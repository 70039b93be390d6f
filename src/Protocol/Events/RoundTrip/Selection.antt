-- ===== src/Protocol/Events/RoundTrip/Selection.antt =====
-- Round trips of packages/protocol/src/events.ts: selections.
use anchr.Prelude.{
  ℕ, String, Bool, true, false, Option, none, some, if◌then◌else◌, Eq-string, is_some, ◌≡◌, refl,
  ap,
}
use anchr.Prelude.Dict.{==_refl}
use anchr.Prelude.Json.{Json, Numeral, property}
use anchr.Prelude.Chain.{◌>>=◌}
use anchr.Protocol.Nostr.{Tools, Bytes, Keypair, Finalizes, find_tag_value}
use anchr.Protocol.Events.Payload.{payload_version, stringify_payload, with_version, has_version}
use anchr.Protocol.Events.Selection.{
  SelectionFeedbackPayload, SelectionExecutionPayload, selection_members, object_or_none,
  execution_members, build_selection_feedback_event, parse_selection_feedback_event, read_execution,
}
use anchr.Protocol.Events.Channel.{Carries, encrypt-Carries, decrypted-Carries}

-- The execution context is read back if it has a predicate.
read_execution-members :
    (schema mint : String) (most amount locktime : Numeral) (predicate : Option Json)
    (description : Option String) (context : Option Json)
    → object_or_none context ≡ context
    → (let e : SelectionExecutionPayload = record {
      schema = schema;
      predicate = predicate;
      description = description;
      context = context;
      mint_url = mint;
      max_amount_sats = most;
      amount_sats = amount;
      locktime_seconds = locktime;
    } in
        read_execution (execution_members e) ≡ (if is_some predicate then some e else none))
unfolding read_execution property
read_execution-members s m a b l none none none same = refl
read_execution-members s m a b l none (some d) none same = refl
read_execution-members s m a b l none none (some c) same = refl
read_execution-members s m a b l none (some d) (some c) same = refl
read_execution-members s m a b l (some p) none none same = refl
read_execution-members s m a b l (some p) (some d) none same = refl
read_execution-members s m a b l (some p) none (some c) same = rw same refl
read_execution-members s m a b l (some p) (some d) (some c) same = rw same refl

-- A test before the last step.
if->>= {ℓ κ} :
    {A : Type ℓ} {B : Type κ} (next : A → Option B) (a : A) (given : Bool)
    → ((if given then some a else none) >>= next) ≡ (if given then next a else none)
if->>= next a true = refl
if->>= next a false = refl

module _ (tools : Tools) (laws : Finalizes tools) (now : ℕ) (nonce : String) (identity : Keypair)
    (recipient : Bytes) where
  -- A selection can be built, and the chosen provider then reads it as it was built if it has a
  -- predicate; one without a predicate can be built too, and the chosen provider cannot read it. Its
  -- context is an object or absent, and NIP-44 and JSON carry its text.
  pub parse-build_selection_feedback :
      (request : String) (payload : SelectionFeedbackPayload)
      → object_or_none payload.execution.context ≡ payload.execution.context
      → Carries tools identity.secret_key payload.selected_provider_pubkey recipient
          identity.public_key nonce
          (Json.object (with_version (selection_members payload) payload_version))
      → (build_selection_feedback_event tools now nonce identity request payload >>= λ event.
          some (parse_selection_feedback_event tools event recipient identity.public_key))
        ≡ some (if is_some payload.execution.predicate then some payload else none)
  unfolding parse_selection_feedback_event build_selection_feedback_event stringify_payload
      has_version with_version property find_tag_value
  parse-build_selection_feedback request payload same c =
      let e = payload.execution in
      rw
        (
          encrypt-Carries _ c,
          laws.same_kind,
          laws.same_content,
          laws.same_tags,
          decrypted-Carries _ c,
          read_execution-members e.schema e.mint_url e.max_amount_sats e.amount_sats
              e.locktime_seconds e.predicate e.description e.context same,
          ==_refl payload.selected_provider_pubkey,
        )
        (ap some (if->>= (λ x. some (record payload { execution = x })) e (is_some e.predicate)))
