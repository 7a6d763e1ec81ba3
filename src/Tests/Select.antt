-- ===== src/Tests/Select.antt =====
-- services/query-service at a concrete query, over a database that answers one row and counts.
use analytics_system.Prelude.{ℕ, suc, ◌≤◌, ◌≡◌, ◌⊎◌, List, [], ◌∷◌, Option, some, err, length}
use analytics_system.Prelude.Text.{Text, codes}
use analytics_system.Query.{QueryError, Rows, prepare_query, run_query, execute_query}
use analytics_system.Query.Laws.{IsSelect, execute_query_lem}

abbrev db_query : Text → List Text → ℕ → Option Rows × ℕ
db_query sql args n = (some (record { columns = sql ∷ []; rows = some args ∷ [] }), suc n)

abbrev raw : Text
raw = codes "SELECT a FROM t WHERE b = :b"

abbrev params : List (Text × Text)
params = (codes "b", codes "7") ∷ []

execute_query_lem_example :
    ((e : QueryError) × (execute_query db_query raw params 0 ≡ (err e, 0)))
    ⊎ (IsSelect raw
        × (length (prepare_query raw params).1 ≤ 25)
        × (execute_query db_query raw params 0 ≡ run_query db_query (prepare_query raw params) 0))
execute_query_lem_example = execute_query_lem db_query raw params 0
