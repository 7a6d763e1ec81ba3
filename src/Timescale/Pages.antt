-- ===== src/Timescale/Pages.antt =====
-- `QueryCandles` page after page, against the rows of the table.
use analytics_system.Prelude.{
  ℕ, suc, zero, ◌≡◌, ◌<◌, ◌≤◌, refl, sym, subst, ap, ◌∙◌, true, false, List, [], ◌∷◌, ◌++◌, map,
  Option, none, some, Result, ok, err, if◌then◌else◌, filter, All, arith, take, drop, length, ℤ,
  is_positive, nat_of, pos, negsuc, is_nil,
}
use analytics_system.Prelude.Text.{Text, is_empty}
use analytics_system.Interval.{duration}
use analytics_system.Storage.Adapter.{PbCandle}
use analytics_system.Timescale.{
  Row, Table, Pagination, TimeFormat, ReadError, size_or, page_start, candle_of_row, read_candles,
  query_candles, selected, sort_by_time, select_candles,
}
use analytics_system.Timescale.Table.{
  IsKeyed, IsStrict, after, sorted-IsStrict, All-sort_by_time, All-filter,
}
use analytics_system.Timescale.Order.{sorted_later, last_time, filter-drop}

-- What the package `time` promises of the two formats: a time that is printed is read back, and no
-- time prints as the empty text.
pub record IsTimeFormat (tf : TimeFormat) : Type 0 where
  pub round_trip : (t : ℕ) → tf.parse (tf.format t) ≡ some t
  pub not_empty : (t : ℕ) → is_empty (tf.format t) ≡ false

-- The server answers the SELECT from the table.
abbrev pub answers :
    {F : Type 0} → Table F → Text → Text → ℕ → ℕ → ℕ → Option (List (Option (Row F)))
answers rows symbol iv start end limit =
    some (map some (select_candles rows symbol iv start end limit))

-- A client that asks for page after page, with the token that it got, until a page is empty. It
-- gives up, with `none`, when the fuel is used up.
unfoldable pub all_pages :
    {F : Type 0}
    → (Text → Result ReadError (List (PbCandle F) × Text))
    → ℕ
    → Text
    → Result ReadError (Option (List (PbCandle F)))
all_pages query zero token = ok none
all_pages query (suc fuel) token = elim (query token) [
  | err e ↦ err e
  | ok page ↦
      let rest = all_pages query fuel page.1 in
      if is_nil page.0
      then ok (some [])
      else elim rest [ err e ↦ err e | ok none ↦ ok none | ok (some cs) ↦ ok (some (page.0 ++ cs)) ]
]

module _ {F : Type 0} (tf : TimeFormat) where
  last_token : Text → List (Row F) → Text
  last_token token [] = token
  last_token token (r ∷ rows) = last_token (tf.format r.time) rows

  read_candles_lem :
      (symbol : Text) (dur : ℕ) (token : Text) (rows : List (Row F))
      → read_candles tf.format symbol dur token (map some rows)
        ≡ ok (map (candle_of_row symbol dur) rows, last_token token rows)
  unfolding read_candles last_token
  read_candles_lem symbol dur token [] = refl
  read_candles_lem symbol dur token (r ∷ rows) =
      rw (read_candles_lem symbol dur (tf.format r.time) rows, read_candles) refl

  last_token_time :
      (t : ℕ) (rows : List (Row F)) → last_token (tf.format t) rows ≡ tf.format (last_time t rows)
  unfolding last_token
  last_token_time t [] = refl
  last_token_time t (r ∷ rows) = last_token_time r.time rows

-- The size of the pages that a request with a page size gets.
abbrev pub page_length : ℤ → ℕ
page_length n = if is_positive n then nat_of n else 500

abbrev pub page_of : ℤ → Text → Pagination
page_of n token = record { page_size = n; page_token = token }

page_length_suc : (n : ℤ) → (k : ℕ) × (page_length n ≡ suc k)
page_length_suc (pos zero) = (499, refl)
page_length_suc (pos (suc n)) = (n, refl)
page_length_suc (negsuc n) = (499, refl)

module _ {A : Type 0} where
  take_nil : (n : ℕ) → take {A = A} n [] ≡ []
  take_nil zero = refl
  take_nil (suc n) = refl

  length-drop : (n : ℕ) (xs : List A) → length (drop n xs) ≤ length xs
  length-drop zero xs = omega arith
  length-drop (suc n) [] = omega arith
  length-drop (suc n) (x ∷ xs) = omega (arith, length-drop n xs)

  map_pages :
      {B : Type 0} (f : A → B) (n : ℕ) (xs : List A)
      → map f (take n xs) ++ map f (drop n xs) ≡ map f xs
  map_pages f zero xs = refl
  map_pages f (suc n) [] = refl
  map_pages f (suc n) (x ∷ xs) = ap (◌∷◌ (f x)) (map_pages f n xs)

module _ {F : Type 0} where
  All-selected :
      (symbol iv : Text) (end t : ℕ) (rows : List (Row F))
      → All (λ q. selected symbol iv t end q ≡ true → t < q.time) rows
  All-selected symbol iv end t [] = tt
  All-selected symbol iv end t (r ∷ rows) =
      (λ h. ground (arith, h), All-selected symbol iv end t rows)

module _ {F : Type 0} (tf : TimeFormat) (times : IsTimeFormat tf) (rows : Table F)
    (keyed : IsKeyed rows) (symbol iv : Text) (dur : ℕ) (known : duration iv ≡ ok dur)
    (start end : ℕ) (n : ℤ) where
  -- The rows from a time on, in order.
  abbrev rows_from : ℕ → List (Row F)
  rows_from t = sort_by_time (filter (selected symbol iv t end) rows)

  rows_from_late : (t : ℕ) → All (λ q. t < q.time) (rows_from t)
  rows_from_late t =
      All-sort_by_time (λ q. t < q.time) (filter (selected symbol iv t end) rows)
        (All-filter (λ q. t < q.time) (selected symbol iv t end) rows
          (All-selected symbol iv end t rows))

  abbrev query : Text → Result ReadError (List (PbCandle F) × Text)
  query token = query_candles tf (answers rows) symbol iv start end (some (page_of n token))

  query_page :
      (token : Text) (t : ℕ)
      → page_start tf start (some (page_of n token)) ≡ ok t
      → query token
        ≡ ok (
          map (candle_of_row symbol dur) (take (page_length n) (rows_from t)),
          last_token tf [] (take (page_length n) (rows_from t)),
        )
  unfolding query_candles size_or select_candles
  query_page token t from =
      rw (known, from, query_candles)
        (read_candles_lem tf symbol dur [] (take (page_length n) (rows_from t)))

  first_start : (t : ℕ) → page_start tf t (some (page_of n [])) ≡ ok t
  unfolding page_start
  first_start t = refl

  next_start : (t : ℕ) → start ≤ t → page_start tf start (some (page_of n (tf.format t))) ≡ ok t
  unfolding page_start
  next_start t low = ground (arith, low, times.round_trip t, times.not_empty t)

  one_more :
      (fuel : ℕ) (token : Text) (t : ℕ) (r : Row F) (rest : List (Row F))
      → query token ≡ ok (map (candle_of_row symbol dur) (r ∷ rest), tf.format t)
      → (cs : List (PbCandle F)) → all_pages query fuel (tf.format t) ≡ ok (some cs)
      → all_pages query (suc fuel) token
        ≡ ok (some (map (candle_of_row symbol dur) (r ∷ rest) ++ cs))
  unfolding all_pages
  one_more fuel token t r rest got cs more = rw (got, all_pages) (rw more refl)

  last_page :
      (fuel : ℕ) (token token' : Text)
      → query token ≡ ok ([], token')
      → all_pages query (suc fuel) token ≡ ok (some [])
  unfolding all_pages
  last_page fuel token token' got = rw (got, all_pages) refl

  found_page :
      (token : Text) (t : ℕ) (found : List (Row F))
      → found ≡ rows_from t
      → page_start tf start (some (page_of n token)) ≡ ok t
      → query token
        ≡ ok (
          map (candle_of_row symbol dur) (take (page_length n) found),
          last_token tf [] (take (page_length n) found),
        )
  found_page token t found same from = rw same (query_page token t from)

  -- What the table has after the last row of a page.
  rows_left :
      (k t : ℕ) (r : Row F) (found : List (Row F))
      → (r ∷ found) ≡ rows_from t
      → let t' = last_time r.time (take k found) in (t ≤ t') × (drop k found ≡ rows_from t')
  rows_left k t r found same =
      let strict : IsStrict (r ∷ found) =
        subst IsStrict (sym same) (sorted-IsStrict symbol iv t end rows keyed) in
      let late : All (λ q. t < q.time) (r ∷ found) =
        subst (All (λ q. t < q.time)) (sym same) (rows_from_late t) in
      let (later, left) = filter-drop r.time k found strict.0 strict.1 in
      let low : t ≤ last_time r.time (take k found) = omega (arith, late.0, later) in
      let passed : after (last_time r.time (take k found)) r ≡ false = ground (arith, later) in
      (
        low,
        sym left
            ∙ sym (rw (passed, filter) refl)
            ∙ ap (filter (after (last_time r.time (take k found)))) same
            ∙ sym (sorted_later symbol iv t (last_time r.time (take k found)) end rows low),
      )

  pages_from :
      (fuel : ℕ) (token : Text) (t : ℕ) (found : List (Row F))
      → found ≡ rows_from t
      → page_start tf start (some (page_of n token)) ≡ ok t
      → start ≤ t
      → length found < fuel
      → all_pages query fuel token ≡ ok (some (map (candle_of_row symbol dur) found))
  unfolding page_length_suc last_token
  pages_from zero token t found same from low enough = absurd (ground (arith, enough))
  pages_from (suc fuel) token t [] same from low enough =
      last_page fuel token (last_token {F = F} tf [] (take (page_length n) []))
        (found_page token t [] same from ∙ rw (take_nil (page_length n)) refl)
  pages_from (suc fuel) token t (r ∷ found) same from low enough =
      let (k, size) = page_length_suc n in
      let t' = last_time r.time (take k found) in
      let (later, left) = rows_left k t r found same in
      let got : query token ≡ ok (map (candle_of_row symbol dur) (r ∷ take k found), tf.format t') =
        found_page token t (r ∷ found) same from
        ∙ rw size (
            ap (λ x. ok (map (candle_of_row symbol dur) (r ∷ take k found), x))
              (last_token_time tf r.time (take k found))) in
      let more =
        pages_from fuel (tf.format t') t' (drop k found) left
          (next_start t' (omega (arith, low, later))) (omega (arith, low, later))
          (omega (arith, enough, length-drop k found)) in
      one_more fuel token t' r (take k found) got (map (candle_of_row symbol dur) (drop k found))
        more
      ∙ ap (λ x. ok (some (candle_of_row symbol dur r ∷ x)))
          (map_pages (candle_of_row symbol dur) k found)

  -- A client that follows the page tokens from the first page on, whatever page size it asks for,
  -- gets each stored candle of the symbol and the interval that opens after the one time and before
  -- the other, at neither of them, exactly once, in the order of the time, with at most one request
  -- more than there are candles.
  pub all_pages-candles :
      (fuel : ℕ)
      → length (rows_from start) < fuel
      → all_pages query fuel [] ≡ ok (some (map (candle_of_row symbol dur) (rows_from start)))
  all_pages-candles fuel enough =
      pages_from fuel [] start (rows_from start) refl (first_start start) (omega arith) enough
