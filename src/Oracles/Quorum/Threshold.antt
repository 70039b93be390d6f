-- ===== src/Oracles/Quorum/Threshold.antt =====
-- When a verification passes: packages/sdk/src/requests/application/query-verification.ts.
use anchr.Prelude.{
  ℕ, suc, ◌+◌, ◌≤◌, String, true, false, List, [], ◌∷◌, map, Option, none, some, length,
  if◌then◌else◌, keep, ◌≡◌, refl, ◌⊎◌, inl, inr, ◌↔◌, arith, Option-cases,
}
use anchr.Requests.Types.{Query, QueryResult, BlossomKeyMap, OracleAttestationRecord, QuorumConfig}
use anchr.Oracles.Registry.{Oracle, OracleRegistry, restricts, resolve}
use anchr.Oracles.Registry.Laws.{WellKeyed, Accepted, resolve-Accepted}
use anchr.Oracles.Quorum.{
  OracleResolver, MultiOracleResolver, verify_with_quorum, verify_quorum, verify_single_oracle,
  effective_oracle_id, tally, pass_count, to_attestation_record,
}

-- How many of the oracles approve the result.
abbrev pub approvals : Query → QueryResult → Option BlossomKeyMap → List Oracle → ℕ
approvals query result keys [] = 0
approvals query result keys (o ∷ os) =
    let rest = approvals query result keys os in
    if (o.verify query result keys).passed then suc rest else rest

abbrev attest :
    Query → QueryResult → Option BlossomKeyMap → List Oracle → List OracleAttestationRecord
attest query result keys = map (λ o. to_attestation_record (o.verify query result keys))

pass_count-attest :
    (query : Query) (result : QueryResult) (keys : Option BlossomKeyMap) (os : List Oracle)
    → pass_count (attest query result keys os) ≡ approvals query result keys os
unfolding pass_count keep to_attestation_record
pass_count-attest query result keys [] = refl
pass_count-attest query result keys (o ∷ os) =
    ground (arith, pass_count-attest query result keys os)

approvals-le :
    (query : Query) (result : QueryResult) (keys : Option BlossomKeyMap) (os : List Oracle)
    → approvals query result keys os ≤ length os
approvals-le query result keys [] = omega arith
approvals-le query result keys (o ∷ os) = ground (arith, approvals-le query result keys os)

verify_quorum_iff :
    (query : Query) (result : QueryResult) (n : ℕ) (multiple : MultiOracleResolver)
    (keys : Option BlossomKeyMap)
    → ((verify_quorum query result n (some multiple) keys).passed ≡ true)
      ↔ (n ≤ approvals query result keys (multiple query.oracle_ids (n + 2)))
unfolding verify_quorum tally
verify_quorum_iff query result n multiple keys =
    let os = multiple query.oracle_ids (n + 2) in
    ground (arith, pass_count-attest query result keys os, approvals-le query result keys os)

-- A query with a quorum passes exactly when at least `min_approvals` of the oracles that the
-- resolver returns for its list of acceptable oracles approve the result.
pub quorum_iff :
    (query : Query) (result : QueryResult) (quorum : QuorumConfig) (single : OracleResolver)
    (multiple : MultiOracleResolver) (keys : Option BlossomKeyMap) (asked : Option String)
    → query.quorum ≡ some quorum
    → ((verify_with_quorum query result single (some multiple) keys asked).passed ≡ true) ↔ (
        quorum.min_approvals
        ≤ approvals query result keys (multiple query.oracle_ids (quorum.min_approvals + 2)))
unfolding verify_with_quorum
quorum_iff query result quorum single multiple keys asked e =
    simp (e, verify_with_quorum) (verify_quorum_iff query result quorum.min_approvals multiple keys)

-- A query that lists no acceptable oracles, or that has a quorum, gets the same verification
-- whatever oracle id the provider supplies.
asked_id_ignored :
    (query : Query) (result : QueryResult) (single : OracleResolver)
    (multiple : Option MultiOracleResolver) (keys : Option BlossomKeyMap)
    (asked other : Option String)
    → (restricts query.oracle_ids ≡ false) ⊎ ((c : QuorumConfig) × (query.quorum ≡ some c))
    → verify_with_quorum query result single multiple keys asked
      ≡ verify_with_quorum query result single multiple keys other
unfolding verify_with_quorum effective_oracle_id
asked_id_ignored query result single multiple keys asked other h = ground arith

-- A query without a quorum that passes over a registry was approved by a registered oracle, and one
-- that the customer accepts where the query lists acceptable oracles.
single-Accepted :
    (oracles : OracleRegistry) (query : Query) (result : QueryResult)
    (multiple : Option MultiOracleResolver) (keys : Option BlossomKeyMap) (asked : Option String)
    → WellKeyed oracles
    → query.quorum ≡ none
    → (verify_with_quorum query result (resolve oracles) multiple keys asked).passed ≡ true
    → (o : Oracle) × Accepted oracles query.oracle_ids o
      × ((o.verify query result keys).passed ≡ true)
unfolding verify_with_quorum verify_single_oracle
single-Accepted oracles query result multiple keys asked keyed free passed =
    elim (Option-cases (resolve oracles (effective_oracle_id query asked) query.oracle_ids)) [
      | inl missing ↦ absurd (ground arith)
      | inr (o, found) ↦ (
        o,
        (resolve-Accepted oracles (effective_oracle_id query asked) query.oracle_ids o keyed
            found).0,
        ground arith,
      )
    ]
