-- ===== src/Requests/Aggregate/Operations.antt =====
-- The aggregate's operations as data, for statements about all of them and about their sequences:
-- packages/sdk/src/requests/domain/query-aggregate.ts.
use anchr.Prelude.{ℕ, String, Bool, List, [], ◌∷◌, Option}
use anchr.Requests.Types.{
  Query, QueryResult, OfferInfo, SubmissionMeta, VerificationDetail, OracleAttestationRecord,
  BlossomKeyMap,
}
use anchr.Requests.Aggregate.{
  TransitionResult, ok, err, EscrowSelectionUpdates, submit_result, expire_query, cancel_query,
  add_offer, select_provider, begin_work, record_result, complete_verification,
}

pub data Operation : Type 0 where
  submits :
      QueryResult
      → VerificationDetail
      → SubmissionMeta
      → Option String
      → Option (List OracleAttestationRecord)
      → Option BlossomKeyMap
      → ℕ
      → Operation
  expires : ℕ → Operation
  cancels : Operation
  offers : OfferInfo → Operation
  selects : String → EscrowSelectionUpdates → Operation
  begins : Operation
  records : QueryResult → String → Option BlossomKeyMap → ℕ → Operation
  completes :
      Bool
      → Option VerificationDetail
      → Option String
      → Option (List OracleAttestationRecord)
      → Operation

unfoldable pub apply : Query → Operation → TransitionResult
apply q (submits result verification meta oracle attestations keys now) =
    submit_result q result verification meta oracle attestations keys now
apply q (expires now) = expire_query q now
apply q cancels = cancel_query q
apply q (offers offer) = add_offer q offer
apply q (selects provider updates) = select_provider q provider updates
apply q begins = begin_work q
apply q (records result provider keys now) = record_result q result provider keys now
apply q (completes passed verification oracle attestations) =
    complete_verification q passed verification oracle attestations

-- An operation that is refused leaves the query as it was.
abbrev pub after : Query → TransitionResult → Query
after q (ok q') = q'
after q (err e) = q

unfoldable pub run : Query → List Operation → Query
run q [] = q
run q (op ∷ ops) = run (after q (apply q op)) ops
