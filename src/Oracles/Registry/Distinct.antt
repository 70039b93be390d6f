-- ===== src/Oracles/Registry/Distinct.antt =====
-- Whether the oracles of a quorum are different ones: packages/sdk/src/adapters/oracle-client/registry.ts
-- (`resolveMultiple`) and packages/sdk/src/requests/application/query-verification.ts.
use mathlib.Core.Path.{subst}
use native.Mathlib.Nat.{suc-add}
use anchr.Prelude.{
  ℕ, zero, suc, ◌+◌, ◌≤◌, String, true, false, List, [], ◌∷◌, map, Option, some, Eq-string,
  includes, take, ◌≡◌, refl, sym, arith, Option-cases, Distinct, ap, ◌∙◌, take-nil, inl, inr,
}
use anchr.Requests.Types.{Query, QueryResult, BlossomKeyMap}
use anchr.Oracles.Registry.{Oracle, OracleRegistry, get, resolve_multiple, restricts, ids_of}
use anchr.Oracles.Registry.Laws.{WellKeyed, named, id-get, resolve_multiple-take}
use anchr.Oracles.Quorum.{verify_with_quorum, OracleResolver}
use anchr.Oracles.Quorum.Threshold.{approvals, quorum_iff}

abbrev pub oracle_ids : List Oracle → List String
oracle_ids = map (λ o. o.info.id)

not_named :
    (oracles : OracleRegistry) (ids : List String) (j : String)
    → WellKeyed oracles
    → includes ids j ≡ false
    → includes (oracle_ids (named oracles ids)) j ≡ false
unfolding includes
not_named oracles [] j keyed h = refl
not_named oracles (id ∷ ids) j keyed h = elim (Option-cases (get oracles id)) [
  | inl missing ↦ rw (missing, named) (not_named oracles ids j keyed (ground arith))
  | inr (o, found) ↦
      rw (found, named)
        (ground (arith, id-get oracles id keyed found, not_named oracles ids j keyed))
]

Distinct-named :
    (oracles : OracleRegistry) (ids : List String)
    → WellKeyed oracles
    → Distinct ids
    → Distinct (oracle_ids (named oracles ids))
Distinct-named oracles [] keyed h = tt
Distinct-named oracles (id ∷ ids) keyed h = elim (Option-cases (get oracles id)) [
  | inl missing ↦ rw (missing, named) (Distinct-named oracles ids keyed h.1)
  | inr (o, found) ↦
      rw (found, named)
        (
          subst (λ k. includes (oracle_ids (named oracles ids)) k ≡ false)
              (sym (id-get oracles id keyed found)) (not_named oracles ids id keyed h.0),
          Distinct-named oracles ids keyed h.1,
        )
]

includes-take :
    (n : ℕ) (os : List Oracle) (j : String)
    → includes (oracle_ids os) j ≡ false
    → includes (oracle_ids (take n os)) j ≡ false
unfolding includes take
includes-take zero os j h = refl
includes-take (suc n) [] j h = refl
includes-take (suc n) (o ∷ os) j h = ground (arith, includes-take n os j)

Distinct-take :
    (n : ℕ) (os : List Oracle) → Distinct (oracle_ids os) → Distinct (oracle_ids (take n os))
unfolding take
Distinct-take zero os h = tt
Distinct-take (suc n) [] h = tt
Distinct-take (suc n) (o ∷ os) h = (includes-take n os o.info.id h.0, Distinct-take n os h.1)

-- If the acceptable ids are given and are pairwise different, so are the oracles that are consulted.
resolve_multiple-Distinct :
    (oracles : OracleRegistry) (acceptable : Option (List String)) (count : ℕ)
    → WellKeyed oracles
    → restricts acceptable ≡ true
    → Distinct (ids_of acceptable)
    → Distinct (oracle_ids (resolve_multiple oracles acceptable count))
resolve_multiple-Distinct oracles acceptable count keyed listed distinct =
    rw (resolve_multiple-take oracles acceptable count, listed)
      (Distinct-take count (named oracles (ids_of acceptable))
        (Distinct-named oracles (ids_of acceptable) keyed distinct))

abbrev pub replicate {ℓ} : {A : Type ℓ} → ℕ → A → List A
replicate zero a = []
replicate (suc n) a = a ∷ replicate n a

named-replicate :
    (oracles : OracleRegistry) (id : String) (o : Oracle) (n : ℕ)
    → get oracles id ≡ some o
    → named oracles (replicate n id) ≡ replicate n o
named-replicate oracles id o zero found = refl
named-replicate oracles id o (suc n) found =
    rw (found, named) (ap (λ os. o ∷ os) (named-replicate oracles id o n found))

take-replicate {ℓ} : {A : Type ℓ} (n k : ℕ) (a : A) → take (n + k) (replicate n a) ≡ replicate n a
unfolding take
take-replicate zero k a = take-nil (0 + k)
take-replicate (suc n) k a = rw suc-add (ap (λ xs. a ∷ xs) (take-replicate n k a))

approvals-replicate :
    (query : Query) (result : QueryResult) (keys : Option BlossomKeyMap) (o : Oracle) (n : ℕ)
    → (o.verify query result keys).passed ≡ true
    → approvals query result keys (replicate n o) ≡ n
approvals-replicate query result keys o zero h = refl
approvals-replicate query result keys o (suc n) h =
    ground (arith, approvals-replicate query result keys o n h)

consulted-replicate :
    (oracles : OracleRegistry) (id : String) (o : Oracle) (n : ℕ)
    → get oracles id ≡ some o
    → resolve_multiple oracles (some (replicate (suc n) id)) (suc n + 2) ≡ replicate (suc n) o
consulted-replicate oracles id o n found =
    resolve_multiple-take oracles (some (replicate (suc n) id)) (suc n + 2)
    ∙ ap (take (suc n + 2)) (named-replicate oracles id o (suc n) found)
    ∙ take-replicate (suc n) 2 o

-- One approving oracle meets any quorum alone, if its id stands that many times in the list of
-- acceptable oracles.
pub repeated_oracle_meets_quorum :
    (oracles : OracleRegistry) (query : Query) (result : QueryResult) (single : OracleResolver)
    (keys : Option BlossomKeyMap) (asked : Option String) (id : String) (o : Oracle) (n : ℕ)
    → get oracles id ≡ some o
    → (o.verify query result keys).passed ≡ true
    → query.oracle_ids ≡ some (replicate (suc n) id)
    → query.quorum ≡ some (record { min_approvals = suc n })
    → (verify_with_quorum query result single (some (resolve_multiple oracles)) keys asked).passed
      ≡ true
repeated_oracle_meets_quorum oracles query result single keys asked id o n found approves ids q =
    (quorum_iff query result (record { min_approvals = suc n }) single (resolve_multiple oracles)
        keys asked q).1
      (subst (λ a. suc n ≤ approvals query result keys (resolve_multiple oracles a (suc n + 2)))
        (sym ids)
        (omega (
          arith,
          ap (approvals query result keys) (consulted-replicate oracles id o n found),
          approvals-replicate query result keys o (suc n) approves,
        )))
