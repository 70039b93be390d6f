-- ===== src/Requests/Store.antt =====
-- The query store, packages/sdk/src/requests/domain/query-store.ts: a map from ids to queries.
pub mod Laws
use anchr.Prelude.{String, Option, none, some, List, [], Eq-string}
use anchr.Prelude.Dict.{Dict, lookup, insert, delete, values as dict_values}
use anchr.Requests.Types.{Query}

abbrev pub QueryStore : Type 0
QueryStore = Dict String Query

unfoldable pub empty : QueryStore
empty = []

unfoldable pub get : QueryStore → String → Option Query
unfolding lookup
get store id = lookup id store

unfoldable pub set : QueryStore → String → Query → QueryStore
unfolding insert
set store id query = insert id query store

unfoldable pub values : QueryStore → List Query
values store = dict_values store

unfoldable pub remove : QueryStore → String → QueryStore
unfolding delete
remove store id = delete id store

unfoldable pub clear : QueryStore → QueryStore
clear store = []
