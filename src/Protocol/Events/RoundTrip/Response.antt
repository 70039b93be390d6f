-- ===== src/Protocol/Events/RoundTrip/Response.antt =====
-- Round trips of packages/protocol/src/events.ts: results.
use anchr.Prelude.{
  ℕ, String, true, Option, none, some, if◌then◌else◌, Eq-string, truthy, is_some, find, ◌≡◌, refl,
}
use anchr.Prelude.Json.{Json, Members, property}
use anchr.Prelude.Chain.{◌>>=◌}
use anchr.Protocol.Nostr.{Tools, Bytes, Event, Keypair, Finalizes}
use anchr.Protocol.Events.Payload.{has_version}
use anchr.Protocol.Events.Offer.{bound_value}
use anchr.Protocol.Events.Response.{
  QueryResponsePayload, OracleQueryResponsePayload, ResponseInput, ProofInput, response_members,
  read_query_response, read_oracle_query_response, oracle_members, oracle_tags, proof_for_json,
  id_or, build_query_response_event, parse_query_response_event, parse_oracle_query_response_event,
}
use anchr.Protocol.Events.Channel.{Carries, encrypt-Carries, decrypted-Carries}

-- Both bodies of a result are read back if they have data.
read_query_response-members :
    (tools : Tools) (schema : String) (value : Option Json) (proof : ProofInput)
    → (let payload : ResponseInput = record {
      schema = schema;
      data_value = value;
      proof = proof;
    } in
        read_query_response (response_members tools payload Members.bare) ≡ (
          if is_some value
          then some
              (record { schema = schema; data_value = value; proof = proof_for_json tools proof })
          else none))
unfolding read_query_response response_members property has_version
read_query_response-members tools schema none proof = refl
read_query_response-members tools schema (some v) proof = refl

read_oracle_query_response-members :
    (tools : Tools) (schema : String) (value : Option Json) (proof : ProofInput)
    (query_id : Option String) (request : String)
    → (let payload : ResponseInput = record {
      schema = schema;
      data_value = value;
      proof = proof;
    } in
        read_oracle_query_response
          (response_members tools payload (oracle_members query_id request))
        ≡ (if is_some value
            then some (record {
              schema = schema;
              data_value = value;
              proof = proof_for_json tools proof;
              query_id = id_or query_id request;
              request_event_id = request;
            })
            else none))
unfolding read_oracle_query_response response_members property has_version
read_oracle_query_response-members tools schema none proof query_id request = refl
read_oracle_query_response-members tools schema (some v) proof query_id request = refl

-- What the customer and the oracle read from one event.
abbrev pub readings :
    Tools
    → Bytes
    → Bytes
    → String
    → Event
    → Option QueryResponsePayload × Option OracleQueryResponsePayload
readings tools customer oracle sender event = (
  parse_query_response_event tools event customer sender,
  parse_oracle_query_response_event tools event oracle sender,
)

module _ (tools : Tools) (laws : Finalizes tools) (now : ℕ) (nonce : String) (identity : Keypair)
    (recipient : Bytes) where
  -- From one result event the customer reads the result, and the oracle its copy with the ids of
  -- the query and the request, both with the proof encoded, if the result has data; a result
  -- without data can be sent, and neither of them can read it.
  pub parse-build_query_response :
      (oracle_nonce oracle customer request : String) (oracle_secret : Bytes)
      (payload : ResponseInput) (query_id : Option String)
      → Carries tools identity.secret_key customer recipient identity.public_key nonce
          (Json.object (response_members tools payload Members.bare))
      → (copy : Carries tools identity.secret_key oracle oracle_secret identity.public_key
          oracle_nonce
          (Json.object (response_members tools payload (oracle_members query_id request))))
      → truthy copy.ciphertext ≡ true
      → (build_query_response_event tools now nonce oracle_nonce identity request customer payload
            (some oracle)
            query_id
          >>= λ event. some (readings tools recipient oracle_secret identity.public_key event))
        ≡ some (
          if is_some payload.data_value
              then some (record {
                schema = payload.schema;
                data_value = payload.data_value;
                proof = proof_for_json tools payload.proof;
              })
              else none,
          if is_some payload.data_value
              then some (record {
                schema = payload.schema;
                data_value = payload.data_value;
                proof = proof_for_json tools payload.proof;
                query_id = id_or query_id request;
                request_event_id = request;
              })
              else none,
        )
  unfolding parse_query_response_event parse_oracle_query_response_event build_query_response_event
      oracle_tags bound_value find
  parse-build_query_response oracle_nonce oracle customer request oracle_secret payload query_id c
        copy full =
      rw
        (
          encrypt-Carries _ c,
          encrypt-Carries _ copy,
          laws.same_kind,
          laws.same_content,
          laws.same_tags,
          full,
          decrypted-Carries _ c,
          decrypted-Carries _ copy,
          read_query_response-members tools payload.schema payload.data_value payload.proof,
          read_oracle_query_response-members tools payload.schema payload.data_value payload.proof
              query_id request,
        )
        refl
