-- ===== src/Requests/Store/Laws.antt =====
-- Reading a query store after a write, and the invariant of its keys:
-- packages/sdk/src/requests/domain/query-store.ts.
use anchr.Prelude.{
  String, Option, none, some, List, [], ◌∷◌, map, Eq-string, ◌==◌, ◌≡◌, refl, arith, if◌then◌else◌,
  Distinct, All,
}
use anchr.Prelude.Dict.{
  lookup, insert, delete, lookup-insert, lookup-delete, keys, insert-Distinct, delete-Distinct,
}
use anchr.Requests.Types.{Query}
use anchr.Requests.Store.{QueryStore, get, set, remove, values, empty}

pub get-set :
    (store : QueryStore) (id : String) (q : Query) (j : String)
    → get (set store id q) j ≡ (if id == j then some q else get store j)
unfolding get set
get-set store id q j = lookup-insert id j q store

pub get-remove :
    (store : QueryStore) (id j : String)
    → get (remove store id) j ≡ (if id == j then none else get store j)
unfolding get remove
get-remove store id j = lookup-delete id j store

-- Every query is stored once, under its own id.
pub record Keyed (store : QueryStore) : Type 0 where
  pub own_ids : All (λ p. p.0 ≡ p.1.id) store
  pub once : Distinct (keys store)

pub empty-Keyed : Keyed empty
unfolding empty
empty-Keyed = record { own_ids = tt; once = tt }

insert_own_ids :
    (store : QueryStore) (id : String) (q : Query)
    → id ≡ q.id
    → All (λ p. p.0 ≡ p.1.id) store
    → All (λ p. p.0 ≡ p.1.id) (insert id q store)
unfolding insert
insert_own_ids [] id q e h = (e, tt)
insert_own_ids ((j, r) ∷ store) id q e h = ground (arith, insert_own_ids store id q e h.1)

delete_own_ids :
    (store : QueryStore) (id : String)
    → All (λ p. p.0 ≡ p.1.id) store
    → All (λ p. p.0 ≡ p.1.id) (delete id store)
unfolding delete
delete_own_ids [] id h = tt
delete_own_ids ((j, r) ∷ store) id h = ground (arith, delete_own_ids store id h.1)

pub set-Keyed :
    (store : QueryStore) (id : String) (q : Query)
    → id ≡ q.id
    → Keyed store
    → Keyed (set store id q)
unfolding set
set-Keyed store id q e h = record {
  own_ids = insert_own_ids store id q e h.own_ids;
  once = insert-Distinct id q store h.once;
}

pub remove-Keyed : (store : QueryStore) (id : String) → Keyed store → Keyed (remove store id)
unfolding remove
remove-Keyed store id h = record {
  own_ids = delete_own_ids store id h.own_ids;
  once = delete-Distinct id store h.once;
}

lookup_own_id :
    (store : QueryStore) (id : String) (q : Query)
    → All (λ p. p.0 ≡ p.1.id) store
    → lookup id store ≡ some q
    → id ≡ q.id
unfolding lookup
lookup_own_id [] id q h e = ground arith
lookup_own_id ((j, r) ∷ store) id q h e =
    ground (arith, lookup_own_id store id q h.1, (Eq-string.beq_iff j id).0)

pub id-get :
    (store : QueryStore) (id : String) (q : Query) → Keyed store → get store id ≡ some q → id ≡ q.id
unfolding get
id-get store id q h e = lookup_own_id store id q h.own_ids e

-- The first query of a list with the id.
abbrev pub find_id : String → List Query → Option Query
find_id id [] = none
find_id id (q ∷ qs) = if q.id == id then some q else find_id id qs

abbrev pub ids : List Query → List String
ids = map (λ q. q.id)

find_id-values :
    (store : QueryStore) (id : String)
    → All (λ p. p.0 ≡ p.1.id) store
    → find_id id (values store) ≡ get store id
unfolding values get lookup
find_id-values [] id h = refl
find_id-values ((k, q) ∷ store) id h = ground (arith, find_id-values store id h.1)

ids-values : (store : QueryStore) → All (λ p. p.0 ≡ p.1.id) store → ids (values store) ≡ keys store
unfolding values
ids-values [] h = refl
ids-values ((k, q) ∷ store) h = ground (arith, ids-values store h.1)

-- The values of a keyed store are its queries, each found by its id.
pub values_by_id :
    (store : QueryStore)
    → Keyed store
    → Distinct (ids (values store)) × ((id : String) → find_id id (values store) ≡ get store id)
values_by_id store h =
    (rw (ids-values store h.own_ids) (h.once), λ id. find_id-values store id h.own_ids)
