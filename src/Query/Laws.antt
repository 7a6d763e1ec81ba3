-- ===== src/Query/Laws.antt =====
-- Which statements services/query-service sends to its database.
use analytics_system.Prelude.{
  ℕ, ◌+◌, ◌≤◌, ◌≡◌, refl, ◌⊎◌, inl, inr, Bool, true, false, List, [], ◌∷◌, ◌++◌, Option, err, any,
  All, length, length-append, ltb, not, if◌then◌else◌, arith, Bool-cases,
}
use analytics_system.Prelude.Text.{Text, codes, is_empty, has_prefix, contains, trim_space}
use analytics_system.Query.{
  illegal, normal_query, is_safe_select, prepare_loop, position, replace_from, prepare_query,
  QueryError, empty_query, too_many_parameters, only_select, Rows, run_query, execute_sql,
  execute_query,
}

-- The statement starts with `select` and has none of the refused words in it.
abbrev pub IsSelect : Text → Type 0
IsSelect raw =
    (has_prefix (normal_query raw) (codes "select") ≡ true)
    × All (λ kw. contains (normal_query raw) kw ≡ false) illegal

none_of : (p : Text → Bool) (kws : List Text) → any p kws ≡ false → All (λ kw. p kw ≡ false) kws
none_of p [] h = tt
none_of p (k ∷ kws) h = (ground arith, none_of p kws (ground arith))

safe_words :
    (p : Bool) (q : Bool) → (if not p then false else not q) ≡ true → (p ≡ true) × (q ≡ false)
safe_words p q h = ground arith

is_safe_select-IsSelect : (raw : Text) → is_safe_select raw ≡ true → IsSelect raw
unfolding is_safe_select
is_safe_select-IsSelect raw h =
    let (selects, clean) =
      safe_words (has_prefix (normal_query raw) (codes "select"))
        (any (λ kw. contains (normal_query raw) kw) illegal) h in
    (selects, none_of (λ kw. contains (normal_query raw) kw) illegal clean)

length-if_snoc :
    (b : Bool) (args : List Text) (v : Text)
    → length (if b then args ++ v ∷ [] else args) ≤ length args + 1
length-if_snoc true args v = omega (arith, length-append args (v ∷ []))
length-if_snoc false args v = omega arith

prepare_loop-args :
    (params : List (Text × Text)) (sql : Text) (args : List Text) (idx : ℕ)
    → length (prepare_loop params sql args idx).1 ≤ length args + length params
unfolding prepare_loop
prepare_loop-args [] sql args idx = omega arith
prepare_loop-args ((k, v) ∷ params) sql args idx =
    let found = contains sql (codes ":" ++ k) in
    omega (
      arith,
      length-if_snoc found args v,
      prepare_loop-args params
          (if found then replace_from (codes ":" ++ k) (position idx) 0 sql else sql)
          (if found then args ++ v ∷ [] else args) (if found then idx + 1 else idx),
    )

prepare_query-args :
    (raw : Text) (params : List (Text × Text))
    → ltb 25 (length params) ≡ false
    → length (prepare_query raw params).1 ≤ 25
unfolding prepare_query
prepare_query-args raw params few =
    let bound : length params ≤ 25 = ground arith in
    omega (arith, bound, prepare_loop-args params raw [] 1)

-- `Execute` fails without a query to the database, or the text starts with `select`, has none of
-- the refused words in it, and is sent with at most 25 arguments.
pub execute_query_lem :
    {W : Type 0} (db_query : Text → List Text → W → Option Rows × W) (raw : Text)
    (params : List (Text × Text)) (w : W)
    → ((e : QueryError) × (execute_query db_query raw params w ≡ (err e, w)))
      ⊎ (IsSelect raw
          × (length (prepare_query raw params).1 ≤ 25)
          × (execute_query db_query raw params w ≡ run_query db_query (prepare_query raw params) w))
unfolding execute_query execute_sql
execute_query_lem db_query raw params w = elim (Bool-cases (is_empty (trim_space raw))) [
  | inl blank ↦ inl (empty_query, rw blank refl)
  | inr filled ↦ elim (Bool-cases (ltb 25 (length params))) [
    | inl many ↦ inl (too_many_parameters, rw filled (rw many refl))
    | inr few ↦ elim (Bool-cases (is_safe_select raw)) [
      | inr unsafe ↦ inl (only_select, rw filled (rw few (rw unsafe refl)))
      | inl safe ↦ inr (
        is_safe_select-IsSelect raw safe,
        prepare_query-args raw params few,
        rw filled (rw few (rw safe refl)),
      )
    ]
  ]
]
