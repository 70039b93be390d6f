-- ===== src/Oracles/Registry.antt =====
-- The oracle registry, packages/sdk/src/adapters/oracle-client/registry.ts (`createOracleRegistry`),
-- with the `Oracle` and `OracleInfo` of requests/domain/oracle-types.ts.
pub mod Laws
pub mod Distinct
use anchr.Prelude.{
  ℕ, String, Bool, true, false, not, ◌&&◌, List, [], ◌∷◌, ◌++◌, map, Option, none, some, leb,
  nat_eq, length, if◌then◌else◌, Eq-string, includes, truthy,
}
use anchr.Prelude.Dict.{Dict, lookup, insert, values}
use anchr.Requests.Types.{Query, QueryResult, BlossomKeyMap, OracleAttestation}

pub data PaymentLockType : Type 0 where
  htlc_lock p2pk_frost_lock : PaymentLockType

pub record OracleInfo : Type 0 where
  pub id : String
  pub name : String
  pub endpoint : Option String
  pub fee_ppm : ℕ
  pub supported_schemas : Option (List String)
  pub supported_payment_lock_types : Option (List PaymentLockType)
  pub min_amount_sats : Option ℕ
  pub max_amount_sats : Option ℕ
  pub description : Option String

-- `verify` is the attestation that the oracle's promise resolves to. Where a promise is rejected the
-- verification throws, and gives no verdict: the event `rejects` of Requests/Service.
pub record Oracle : Type 0 where
  pub info : OracleInfo
  pub verify : Query → QueryResult → Option BlossomKeyMap → OracleAttestation

abbrev pub OracleRegistry : Type 0
OracleRegistry = Dict String Oracle

abbrev pub empty_registry : OracleRegistry
empty_registry = []

unfoldable pub get : OracleRegistry → String → Option Oracle
unfolding lookup
get oracles id = lookup id oracles

unfoldable pub list : OracleRegistry → List OracleInfo
list oracles = map (λ o. o.info) (values oracles)

unfoldable pub register : OracleRegistry → Oracle → OracleRegistry
unfolding insert
register oracles oracle = insert oracle.info.id oracle oracles

-- `acceptableIds?.length`, as a test.
abbrev pub restricts : Option (List String) → Bool
restricts none = false
restricts (some []) = false
restricts (some (id ∷ ids)) = true

abbrev pub ids_of : Option (List String) → List String
ids_of none = []
ids_of (some ids) = ids

-- `acceptableIds?.length === 1` decides the oracle where none is asked for.
unfoldable pub resolve_only : OracleRegistry → Option (List String) → Option Oracle
unfolding get
resolve_only oracles (some (id ∷ [])) = get oracles id
resolve_only oracles _ = none

unfoldable pub resolve_asked : OracleRegistry → String → Option (List String) → Option Oracle
unfolding get includes
resolve_asked oracles id acceptable =
    if restricts acceptable && not (includes (ids_of acceptable) id) then none else get oracles id

unfoldable pub resolve : OracleRegistry → Option String → Option (List String) → Option Oracle
unfolding resolve_only resolve_asked
resolve oracles none acceptable = resolve_only oracles acceptable
resolve oracles (some id) acceptable =
    if truthy id then resolve_asked oracles id acceptable else resolve_only oracles acceptable

-- The loop over the acceptable ids.
unfoldable pub resolve_ids : OracleRegistry → List Oracle → ℕ → List String → List Oracle
unfolding get
resolve_ids oracles found count [] = found
resolve_ids oracles found count (id ∷ ids) =
    let more =
      resolve_ids oracles (elim (get oracles id) [ none ↦ found | some o ↦ found ++ o ∷ [] ]) count
        ids in
    if leb count (length found) then found else more

-- The loop over every registered oracle.
unfoldable pub resolve_any : List Oracle → ℕ → List Oracle → List Oracle
resolve_any found count [] = found
resolve_any found count (o ∷ os) =
    let more = resolve_any (found ++ o ∷ []) count os in
    if leb count (length found) then found else more

unfoldable pub resolve_multiple : OracleRegistry → Option (List String) → ℕ → List Oracle
unfolding resolve_ids resolve_any
resolve_multiple oracles acceptable count =
    if restricts acceptable
    then resolve_ids oracles [] count (ids_of acceptable)
    else resolve_any [] count (values oracles)
