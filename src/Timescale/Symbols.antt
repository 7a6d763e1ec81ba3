-- ===== src/Timescale/Symbols.antt =====
-- `ListSymbols` of services/analytics-api/internal/storage/timescaledb/reader.go.
use analytics_system.Prelude.{
  filter, ℕ, suc, ◌<◌, ◌≡◌, refl, ap, subst, ◌∙◌, ◌++◌, zero, inl, inr, Bool-cases, lt→ltb, map,
  arith, Bool, false, not, List, [], ◌∷◌, Option, none, some, Result, ok, err, ltb, if◌then◌else◌,
  take, drop, length, length-append, take-append, drop-append, ℤ, pos, negsuc,
}
use analytics_system.Prelude.Text.{Text, is_empty}
use analytics_system.Timescale.{Pagination, size_or}
use analytics_system.Timescale.Ascending.{IsOrder, IsAscending, behind_next}

-- The statement: with the condition on the symbol or without it. The limit is `$2` in both.
pub data SymbolsQuery : Type 0 where
  all_symbols symbols_after : SymbolsQuery

pub data Argument : Type 0 where
  text : Text → Argument
  number : ℤ → Argument

-- What the rows give: a row is `none` if `Scan` cannot read it, and `broken` is `rows.Err()`.
pub record SymbolRows : Type 0 where
  pub entries : List (Option Text)
  pub broken : Bool

pub data SymbolsError : Type 0 where
  query_symbols scan_symbol rows_broken : SymbolsError

-- One more, as an `int32`.
unfoldable pub next_int32 : ℕ → ℤ
next_int32 n = if ltb n 2147483647 then pos (suc n) else negsuc 2147483647

-- The statement and its arguments.
unfoldable pub symbols_query : Option Pagination → SymbolsQuery × List Argument
unfolding size_or next_int32
symbols_query none = (SymbolsQuery.all_symbols, number (next_int32 (size_or 100 none)) ∷ [])
symbols_query (some page) =
    let limit = number (next_int32 (size_or 100 (some page))) in
    if not (is_empty page.page_token)
    then (SymbolsQuery.symbols_after, text page.page_token ∷ limit ∷ [])
    else (SymbolsQuery.all_symbols, limit ∷ [])

unfoldable pub scan_symbols : List (Option Text) → Option (List Text)
scan_symbols [] = some []
scan_symbols (none ∷ rest) = none
scan_symbols (some s ∷ rest) = elim (scan_symbols rest) [ none ↦ none | some ss ↦ some (s ∷ ss) ]

abbrev head_or_empty : List Text → Text
head_or_empty [] = []
head_or_empty (s ∷ ss) = s

-- The page and the token of the next one: with more symbols than the size, that behind the page.
unfoldable pub cut_symbols : ℕ → List Text → List Text × Text
cut_symbols size found =
    if ltb size (length found)
    then (take size found, head_or_empty (drop size found))
    else (found, [])

-- `timescaleRepo.ListSymbols`, where `run` is the answer of the server.
unfoldable pub list_symbols :
    (SymbolsQuery → List Argument → Option SymbolRows)
    → Option Pagination
    → Result SymbolsError (List Text × Text)
unfolding symbols_query scan_symbols cut_symbols size_or
list_symbols run page =
    let (query, args) = symbols_query page in
    elim (run query args) [
      | none ↦ err SymbolsError.query_symbols
      | some rows ↦ elim (scan_symbols rows.entries) [
        | none ↦ err SymbolsError.scan_symbol
        | some found ↦
            if rows.broken
            then err SymbolsError.rows_broken
            else ok (cut_symbols (size_or 100 page) found)
      ]
    ]

scan_symbols-map : (found : List Text) → scan_symbols (map some found) ≡ some found
unfolding scan_symbols
scan_symbols-map [] = refl
scan_symbols-map (s ∷ found) = rw (scan_symbols-map found) refl

-- What one more than the size leaves, against the whole.
module _ {A : Type 0} where
  ltb-length-take : (n : ℕ) (xs : List A) → ltb n (length (take (suc n) xs)) ≡ ltb n (length xs)
  ltb-length-take n [] = refl
  ltb-length-take zero (x ∷ xs) = ground arith
  ltb-length-take (suc n) (x ∷ xs) = ground (arith, ltb-length-take n xs)

  take-take : (n : ℕ) (xs : List A) → take n (take (suc n) xs) ≡ take n xs
  take-take zero xs = refl
  take-take (suc n) [] = refl
  take-take (suc n) (x ∷ xs) = ap (λ r. x ∷ r) (take-take n xs)

  take_all : (n : ℕ) (xs : List A) → ltb n (length xs) ≡ false → take (suc n) xs ≡ xs
  take_all n [] short = refl
  take_all zero (x ∷ xs) short = ground (arith, short)
  take_all (suc n) (x ∷ xs) short = ap (λ r. x ∷ r) (take_all n xs (ground (arith, short)))

head-drop-take :
    (n : ℕ) (xs : List Text) → head_or_empty (drop n (take (suc n) xs)) ≡ head_or_empty (drop n xs)
head-drop-take zero [] = refl
head-drop-take zero (x ∷ xs) = refl
head-drop-take (suc n) [] = refl
head-drop-take (suc n) (x ∷ xs) = head-drop-take n xs

-- A limit of one more than the size is enough for the page and its token.
cut_symbols-take :
    (size : ℕ) (found : List Text)
    → cut_symbols size (take (suc size) found) ≡ cut_symbols size found
unfolding cut_symbols
cut_symbols-take size found = elim (Bool-cases (ltb size (length found))) [
  | inl more ↦
      rw (ltb-length-take size found, more, take-take size found, head-drop-take size found) refl
  | inr short ↦ rw (take_all size found short) refl
]

-- A page with its token, where more is left.
cut_symbols-append :
    (before rest : List Text) (next : Text)
    → cut_symbols (length before) (before ++ next ∷ rest) ≡ (before, next)
unfolding cut_symbols
cut_symbols-append before rest next =
    rw
      (
        lt→ltb (length before) (length (before ++ next ∷ rest))
            (omega (arith, length-append before (next ∷ rest))),
        take-append before (next ∷ rest),
        drop-append before (next ∷ rest),
      )
      refl

abbrev pub page_of_symbols : ℕ → Text → Pagination
page_of_symbols n token = record { page_size = pos n; page_token = token }

symbols_query_after :
    (size : ℕ) (token : Text)
    → suc size < 2147483647
    → is_empty token ≡ false
    → symbols_query (some (page_of_symbols (suc size) token))
      ≡ (SymbolsQuery.symbols_after, text token ∷ number (pos (suc (suc size))) ∷ [])
unfolding symbols_query size_or next_int32
symbols_query_after size token small given = rw (given, lt→ltb (suc size) 2147483647 small) refl

-- The server, on a table whose symbols ascend: a statement with fewer arguments than it names fails,
-- and `symbol > $1` selects the symbols above the first argument, in order, up to the limit.
module _ (run : SymbolsQuery → List Argument → Option SymbolRows) (less : Text → Text → Bool)
    (order : IsOrder less) (symbols : List Text) (ascending : IsAscending less symbols)
    (too_few : (query : SymbolsQuery) (a : Argument) → run query (a ∷ []) ≡ none)
    (in_order : (token : Text) (limit : ℕ)
      → run SymbolsQuery.symbols_after (text token ∷ number (pos limit) ∷ [])
        ≡ some (record {
          entries = map some (take limit (filter (less token) symbols));
          broken = false;
        })) where
  list_symbols_answer :
      (page : Option Pagination) (found : List Text)
      → (let (query, args) = symbols_query page in
          run query args ≡ some (record { entries = map some found; broken = false }))
      → list_symbols run page ≡ ok (cut_symbols (size_or 100 page) found)
  unfolding list_symbols
  list_symbols_answer page found got = rw (list_symbols, got, scan_symbols-map found) refl

  list_symbols_after :
      (size : ℕ) (token : Text)
      → suc size < 2147483647
      → is_empty token ≡ false
      → list_symbols run (some (page_of_symbols (suc size) token))
        ≡ ok (cut_symbols (suc size) (filter (less token) symbols))
  unfolding size_or cut_symbols
  list_symbols_after size token small given =
      list_symbols_answer (some (page_of_symbols (suc size) token))
        (take (suc (suc size)) (filter (less token) symbols))
        (rw (symbols_query_after size token small given) (in_order token (suc (suc size))))
      ∙ ap ok (cut_symbols-take (suc size) (filter (less token) symbols))

  -- Where the server refuses a statement with fewer arguments than it names, and `symbol > $1` selects
  -- the symbols of the table above the token, which ascend: without a token the first page fails, also
  -- where the token is empty; a page behind which more is left, of a positive size below the largest
  -- `int32`, names the next symbol as its token, though that symbol is not on it, and the page of that
  -- token is cut from what comes behind that symbol.
  pub list_symbols_lem :
      (size n : ℕ) (token next : Text) (before rest : List Text)
      → suc size < 2147483647
      → is_empty token ≡ false
      → is_empty next ≡ false
      → filter (less token) symbols ≡ before ++ next ∷ rest
      → length before ≡ suc size
      → (list_symbols run none ≡ err SymbolsError.query_symbols)
        × (list_symbols run (some (page_of_symbols n [])) ≡ err SymbolsError.query_symbols)
        × (list_symbols run (some (page_of_symbols (suc size) token)) ≡ ok (before, next))
        × (list_symbols run (some (page_of_symbols (suc size) next))
            ≡ ok (cut_symbols (suc size) rest))
  unfolding list_symbols symbols_query
  list_symbols_lem size n token next before rest small given given' more long = (
    rw (list_symbols, too_few SymbolsQuery.all_symbols (number (next_int32 (size_or 100 none))))
        refl,
    rw
        (
          list_symbols,
          too_few SymbolsQuery.all_symbols
              (number (next_int32 (size_or 100 (some (page_of_symbols n []))))),
        )
        refl,
    list_symbols_after size token small given
        ∙ ap ok (
            ap (cut_symbols (suc size)) more
            ∙ subst (λ k. cut_symbols k (before ++ next ∷ rest) ≡ (before, next)) long
                (cut_symbols-append before rest next)),
    list_symbols_after size next small given'
        ∙ ap (λ l. ok (cut_symbols (suc size) l))
            (behind_next less order token next symbols before rest ascending more),
  )
