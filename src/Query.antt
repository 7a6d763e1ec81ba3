-- ===== src/Query.antt =====
-- services/query-service: usecase/handler.go and storage/timescaledb/repo.go. The database is a
-- parameter.
pub mod Laws
use Prim.Native.String.{String}
use analytics_system.Prelude.{
  ℕ, suc, zero, ◌+◌, ◌-◌, ◌/◌, ◌%◌, Bool, true, false, List, [], ◌∷◌, ◌++◌, Option, none, some,
  Result, ok, err, any, length, ltb, not, if◌then◌else◌,
}
use analytics_system.Prelude.Text.{
  Text, codes, is_empty, has_prefix, contains, to_lower, trim_space,
}

-- The words that `isSafeSelect` refuses.
abbrev pub illegal : List Text
illegal =
    codes "insert"
    ∷ codes "update"
    ∷ codes "delete"
    ∷ codes "drop"
    ∷ codes "alter"
    ∷ codes "create"
    ∷ codes ";"
    ∷ codes "--"
    ∷ []

abbrev pub normal_query : Text → Text
normal_query q = to_lower (trim_space q)

-- `isSafeSelect`
unfoldable pub is_safe_select : Text → Bool
unfolding has_prefix contains
is_safe_select q =
    if not (has_prefix (normal_query q) (codes "select"))
    then false
    else not (any (λ kw. contains (normal_query q) kw) illegal)

-- `strings.ReplaceAll(s, old, new)` for a text `old` that is not empty; `skip` bytes belong to an
-- occurrence that is replaced already.
unfoldable pub replace_from : Text → Text → ℕ → Text → Text
unfolding has_prefix
replace_from old new skip [] = []
replace_from old new (suc skip) (c ∷ s) = replace_from old new skip s
replace_from old new zero (c ∷ s) =
    let after = replace_from old new (length old - 1) s in
    let next = replace_from old new 0 s in if has_prefix (c ∷ s) old then new ++ after else c ∷ next

-- The decimal digits of a number, before `acc`; the number itself is fuel enough, as each step
-- divides it by ten.
unfoldable pub digits_onto : ℕ → ℕ → Text → Text
digits_onto zero n acc = (48 + n % 10) ∷ acc
digits_onto (suc fuel) n acc =
    let more = digits_onto fuel (n / 10) ((48 + n % 10) ∷ acc) in
    if ltb n 10 then (48 + n) ∷ acc else more

-- `fmt.Sprintf("$%d", idx)`
abbrev pub position : ℕ → Text
position idx = codes "$" ++ digits_onto idx idx []

-- The loop of `prepareQuery` over the parameters, in the order in which the map is visited.
unfoldable pub prepare_loop : List (Text × Text) → Text → List Text → ℕ → Text × List Text
unfolding contains replace_from digits_onto
prepare_loop [] sql args idx = (sql, args)
prepare_loop ((key, val) ∷ params) sql args idx =
    let placeholder = codes ":" ++ key in
    let found = contains sql placeholder in
    prepare_loop params (if found then replace_from placeholder (position idx) 0 sql else sql)
      (if found then args ++ val ∷ [] else args) (if found then idx + 1 else idx)

-- `prepareQuery`
unfoldable pub prepare_query : Text → List (Text × Text) → Text × List Text
unfolding prepare_loop
prepare_query raw params = prepare_loop params raw [] 1

pub data QueryError : Type 0 where
  empty_query too_many_parameters only_select query_failed scan_failed : QueryError

-- What the database answers to a query: the names of the columns, and the rows, each of which may
-- fail to be read.
pub record Rows : Type 0 where
  pub columns : List Text
  pub rows : List (Option (List Text))

-- The loop over the rows.
unfoldable pub read_rows : List (Option (List Text)) → Result QueryError (List (List Text))
read_rows [] = ok []
read_rows (row ∷ rest) =
    let more = read_rows rest in
    elim row [
      | none ↦ err scan_failed
      | some vals ↦ elim more [ ok rows ↦ ok (vals ∷ rows) | err e ↦ err e ]
    ]

abbrev pub table_of : Rows → Result QueryError (List Text × List (List Text))
table_of r = elim (read_rows r.rows) [ ok rows ↦ ok (r.columns, rows) | err e ↦ err e ]

module _ {W : Type 0} (db_query : Text → List Text → W → Option Rows × W) where
  -- The query is sent, and its rows are read.
  unfoldable pub run_query :
      Text × List Text → W → Result QueryError (List Text × List (List Text)) × W
  unfolding read_rows
  run_query (sql, args) w =
      let (found, w') = db_query sql args w in
      (elim found [ none ↦ err query_failed | some r ↦ table_of r ], w')

  -- `repo.ExecuteSQL`
  unfoldable pub execute_sql :
      Text → List (Text × Text) → W → Result QueryError (List Text × List (List Text)) × W
  unfolding is_safe_select prepare_query run_query
  execute_sql raw params w =
      if not (is_safe_select raw)
      then (err only_select, w)
      else run_query (prepare_query raw params) w

  -- `handler.Execute`
  unfoldable pub execute_query :
      Text → List (Text × Text) → W → Result QueryError (List Text × List (List Text)) × W
  unfolding execute_sql
  execute_query raw params w =
      if is_empty (trim_space raw)
      then (err empty_query, w)
      else (if ltb 25 (length params)
          then (err too_many_parameters, w)
          else execute_sql raw params w)
