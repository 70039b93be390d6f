-- ===== src/Oracles/Registry/Laws.antt =====
-- What the registry hands out: packages/sdk/src/adapters/oracle-client/registry.ts.
use mathlib.Core.List.{append-nil}
use mathlib.Core.Path.{subst}
use anchr.Prelude.{
  ℕ, ◌-◌, String, true, List, [], ◌∷◌, ◌++◌, Option, none, some, leb, length, if◌then◌else◌,
  Eq-string, includes, truthy, take, take-nil, append-take_done, append-take_more, leb→le, All, ◌≡◌,
  refl, sym, ◌∙◌, inl, inr, arith, Bool-cases, Option-cases,
}
use anchr.Prelude.Dict.{lookup, insert, values, ==_refl}
use anchr.Oracles.Registry.{
  Oracle, OracleRegistry, get, register, resolve, resolve_only, resolve_asked, resolve_ids,
  resolve_any, resolve_multiple, restricts, ids_of,
}

-- Every oracle is stored under its own id.
abbrev pub WellKeyed : OracleRegistry → Type 0
WellKeyed oracles = All (λ p. p.0 ≡ p.1.info.id) oracles

-- Registering keeps every oracle under its own id.
pub register-WellKeyed :
    (oracles : OracleRegistry) (o : Oracle) → WellKeyed oracles → WellKeyed (register oracles o)
unfolding register insert
register-WellKeyed [] o h = (refl, tt)
register-WellKeyed ((k, p) ∷ rest) o h =
    ground (arith, register-WellKeyed rest o h.1, (Eq-string.beq_iff k o.info.id).0)

pub id-get :
    (oracles : OracleRegistry) (id : String) {o : Oracle}
    → WellKeyed oracles
    → get oracles id ≡ some o
    → o.info.id ≡ id
unfolding get lookup
id-get [] id h e = ground arith
id-get ((k, p) ∷ rest) id {o} h e =
    ground (arith, id-get rest id {o = o} h.1, (Eq-string.beq_iff k id).0)

get_own :
    (oracles : OracleRegistry) (id : String) {o : Oracle}
    → WellKeyed oracles
    → get oracles id ≡ some o
    → get oracles o.info.id ≡ some o
get_own oracles id {o} h e = subst (λ k. get oracles k ≡ some o) (sym (id-get oracles id h e)) e

-- The oracle is registered, and is one of those that are accepted where there is such a list.
abbrev pub Accepted : OracleRegistry → Option (List String) → Oracle → Type 0
Accepted oracles acceptable o =
    (get oracles o.info.id ≡ some o)
    × (restricts acceptable ≡ true → includes (ids_of acceptable) o.info.id ≡ true)

resolve_only-Accepted :
    (oracles : OracleRegistry) (acceptable : Option (List String)) (o : Oracle)
    → WellKeyed oracles
    → resolve_only oracles acceptable ≡ some o
    → Accepted oracles acceptable o
unfolding resolve_only includes
resolve_only-Accepted oracles none o h e = ground arith
resolve_only-Accepted oracles (some []) o h e = ground arith
resolve_only-Accepted oracles (some (id ∷ [])) o h e =
    (get_own oracles id h e, λ _. rw (id-get oracles id h e) (ground (arith, ==_refl id)))
resolve_only-Accepted oracles (some (id ∷ j ∷ ids)) o h e = ground arith

resolve_asked-Accepted :
    (oracles : OracleRegistry) (id : String) (acceptable : Option (List String)) (o : Oracle)
    → WellKeyed oracles
    → resolve_asked oracles id acceptable ≡ some o
    → (o.info.id ≡ id) × (Accepted oracles acceptable o)
unfolding resolve_asked
resolve_asked-Accepted oracles id acceptable o h e =
    let found : get oracles id ≡ some o = ground arith in
    let own = id-get oracles id h found in
    (own, (get_own oracles id h found, λ r. rw own (ground arith)))

-- The oracle that `resolve` returns is registered and accepted, and is the one that was asked for
-- where a non-empty id was given.
pub resolve-Accepted :
    (oracles : OracleRegistry) (asked : Option String) (acceptable : Option (List String))
    (o : Oracle)
    → WellKeyed oracles
    → resolve oracles asked acceptable ≡ some o
    → Accepted oracles acceptable o
      × ((id : String) → asked ≡ some id → truthy id ≡ true → o.info.id ≡ id)
unfolding resolve
resolve-Accepted oracles none acceptable o h e =
    (resolve_only-Accepted oracles acceptable o h e, λ id eq t. cc)
resolve-Accepted oracles (some id) acceptable o h e = elim (Bool-cases (truthy id)) [
  | inl t ↦
      let found = resolve_asked-Accepted oracles id acceptable o h (rw t at e) in
      (found.1, λ j eq _. ground arith)
  | inr f ↦ (resolve_only-Accepted oracles acceptable o h (rw f at e), λ j eq t. ground arith)
]

-- The registered oracles that a list of ids names, in order.
abbrev pub named : OracleRegistry → List String → List Oracle
named oracles [] = []
named oracles (id ∷ ids) =
    let rest = named oracles ids in elim (get oracles id) [ none ↦ rest | some o ↦ o ∷ rest ]

resolve_any-take :
    (found : List Oracle) (count : ℕ) (os : List Oracle)
    → resolve_any found count os ≡ found ++ take (count - length found) os
unfolding resolve_any
resolve_any-take found count [] = rw (take-nil (count - length found)) (sym (append-nil found))
resolve_any-take found count (o ∷ os) = elim (Bool-cases (leb count (length found))) [
  | inl full ↦ rw full (sym (append-take_done count found (o ∷ os) (leb→le _ _ full)))
  | inr room ↦ rw room (
      resolve_any-take (found ++ o ∷ []) count os
      ∙ append-take_more count found o os (ground arith))
]

resolve_ids-take :
    (oracles : OracleRegistry) (found : List Oracle) (count : ℕ) (ids : List String)
    → resolve_ids oracles found count ids ≡ found ++ take (count - length found) (named oracles ids)
unfolding resolve_ids
resolve_ids-take oracles found count [] =
    rw (take-nil (count - length found)) (sym (append-nil found))
resolve_ids-take oracles found count (id ∷ ids) = elim (Bool-cases (leb count (length found))) [
  | inl full ↦ rw full (sym (append-take_done count found _ (leb→le _ _ full)))
  | inr room ↦ elim (Option-cases (get oracles id)) [
    | inl missing ↦ rw (room, missing, named) (resolve_ids-take oracles found count ids)
    | inr (o, is_there) ↦
        rw (room, is_there, named)
          (resolve_ids-take oracles (found ++ o ∷ []) count ids
            ∙ append-take_more count found o (named oracles ids) (ground arith))
  ]
]

-- `resolve_multiple` returns the first `count` of the oracles that the acceptable ids name, in their
-- order, or the first `count` registered oracles where no ids are given.
pub resolve_multiple-take :
    (oracles : OracleRegistry) (acceptable : Option (List String)) (count : ℕ)
    → resolve_multiple oracles acceptable count
      ≡ take count
          (if restricts acceptable then named oracles (ids_of acceptable) else values oracles)
unfolding resolve_multiple
resolve_multiple-take oracles acceptable count =
    let whole : count - 0 ≡ count = omega arith in
    elim (Bool-cases (restricts acceptable)) [
      | inl listed ↦ rw listed (rw whole at (resolve_ids-take oracles [] count (ids_of acceptable)))
      | inr free ↦ rw free (rw whole at (resolve_any-take [] count (values oracles)))
    ]
