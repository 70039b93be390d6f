-- ===== src/Requests/EscrowFlow/Submit.antt =====
-- The submission of a result to a query with an escrow: `doSubmitEscrowResult` of
-- packages/sdk/src/requests/application/escrow-flow-methods.ts.
use anchr.Prelude.{
  ℕ, String, Bool, true, false, not, List, [], ◌∷◌, Option, none, some, if◌then◌else◌, is_some,
  template, join, Eq-string,
}
use anchr.Requests.Types.{Query, QueryResult, htlc, p2pk_frost, BlossomKeyMap}
use anchr.Requests.Aggregate.{ok, err, record_result}
use anchr.Requests.Store.{QueryStore, get, set}
use anchr.Requests.Finalize.{
  ServiceDeps, Finalized, normalize, verify_and_finalize, try_reveal_preimage,
}
use anchr.Payments.Preimage.{PreimageStore}
use anchr.Requests.EscrowFlow.{payment_hash}

pub record EscrowSubmitOutcome : Type 0 where
  pub ok : Bool
  pub query : Option Query
  pub message : String
  pub preimage : Option String
  pub frost_signature : Option (List String)

-- What an escrow submission is after its first part: it has an outcome, or waits for the
-- verification of the query that it stored, with the query as it was read and the result.
pub data EscrowSubmission : Type 0 where
  settled : EscrowSubmitOutcome → EscrowSubmission
  waits : Query → Query → QueryResult → EscrowSubmission

abbrev pub refused : Option Query → String → EscrowSubmission
refused query message = settled (record {
  ok = false;
  query = query;
  message = message;
  preimage = none;
  frost_signature = none;
})

-- `doSubmitEscrowResult` up to its first `await`.
unfoldable pub start_escrow_submit :
    ServiceDeps
    → QueryStore
    → String
    → QueryResult
    → String
    → Option BlossomKeyMap
    → ℕ
    → QueryStore × EscrowSubmission
start_escrow_submit deps store id result provider blossom_keys now = elim (get store id) [
  | none ↦ (store, refused none "Query not found")
  | some query ↦
      if not (is_some query.escrow)
      then (store, refused (some query) "Not an escrow query")
      else elim (record_result query (normalize deps result) provider blossom_keys now) [
        | err error ↦ (store, refused (some query) error)
        | ok verifying ↦ (set store id verifying, waits query verifying (normalize deps result))
      ]
]

-- The group signature that is requested for a FROST escrow, if there is a port for it.
abbrev pub frost_request :
    ServiceDeps → Query → Query → QueryResult → Option BlossomKeyMap → Option (List String)
frost_request deps query verifying normalized blossom_keys = elim (query.escrow) [
  | none ↦ none
  | some e ↦ elim (e.lock) [
    | htlc hash ↦ none
    | p2pk_frost group ↦ elim (deps.frost_signature) [
      | none ↦ none
      | some request ↦ request verifying normalized blossom_keys
    ]
  ]
]

-- What `doSubmitEscrowResult` returns once the updated query is stored: the settlement artifact of
-- the escrow's type, if the verification passed and there is one.
unfoldable pub deliver :
    ServiceDeps
    → Option PreimageStore
    → Query
    → Query
    → QueryResult
    → Finalized
    → Option BlossomKeyMap
    → Option PreimageStore × EscrowSubmitOutcome
unfolding try_reveal_preimage
deliver deps preimages query verifying normalized final blossom_keys =
    let (preimages', preimage) = try_reveal_preimage preimages (payment_hash query) final.passed in
    let signature = frost_request deps query verifying normalized blossom_keys in
    if not final.passed
    then (
      preimages,
      record {
        ok = false;
        query = some (final.updated);
        message = template ("Verification failed: " ∷ join ", " final.verification.failures ∷ []);
        preimage = none;
        frost_signature = none;
      },
    )
    else elim preimage [
      | some p ↦ (
        preimages',
        record {
          ok = true;
          query = some (final.updated);
          message = "Verification passed. Preimage revealed for HTLC redemption.";
          preimage = some p;
          frost_signature = none;
        },
      )
      | none ↦ elim signature [
        | some s ↦ (
          preimages',
          record {
            ok = true;
            query = some (final.updated);
            message = "Verification passed. FROST group signature delivered for P2PK redemption.";
            preimage = none;
            frost_signature = some s;
          },
        )
        | none ↦ (
          preimages',
          record {
            ok = true;
            query = some (final.updated);
            message = "Verification passed.";
            preimage = none;
            frost_signature = none;
          },
        )
      ]
    ]

-- The write of `doSubmitEscrowResult` after the verification, on the store as it is then.
unfoldable pub store_verdict : QueryStore → String → Finalized → QueryStore
store_verdict store id final = set store id (final.updated)

-- `doSubmitEscrowResult` where nothing else runs during the verification.
unfoldable pub do_submit_escrow_result :
    ServiceDeps
    → QueryStore
    → Option PreimageStore
    → String
    → QueryResult
    → String
    → Option String
    → Option BlossomKeyMap
    → ℕ
    → QueryStore × Option PreimageStore × EscrowSubmitOutcome
unfolding start_escrow_submit deliver store_verdict
do_submit_escrow_result deps store preimages id result provider oracle_id blossom_keys now =
    let (store', submission) = start_escrow_submit deps store id result provider blossom_keys now in
    elim submission [
      | settled outcome ↦ (store', preimages, outcome)
      | waits query verifying normalized ↦
          let final = verify_and_finalize verifying normalized deps blossom_keys oracle_id in
          let (preimages', outcome) =
            deliver deps preimages query verifying normalized final blossom_keys in
          (store_verdict store' id final, preimages', outcome)
    ]
