-- ===== src/Timescale/Flushed.antt =====
-- What `FlushCandle` of timescale.go has written, as `QueryCandles` of reader.go reads it.
use analytics_system.Prelude.{
  ℕ, ◌+◌, ◌≡◌, ◌<◌, refl, ap, ◌∙◌, true, false, ◌&&◌, List, [], ◌∷◌, ◌++◌, map, Option, none, some,
  ok, inl, inr, Bool-cases, Option-cases, ◌==◌, leb, filter, All, arith, length, ℤ, any,
}
use analytics_system.Prelude.Text.{Text, text_eq, text_eq_refl}
use analytics_system.Interval.{duration}
use analytics_system.Aggregator.Candle.{Candle}
use analytics_system.Storage.Adapter.{PbCandle}
use analytics_system.Timescale.{
  Row, Table, TimeFormat, row_of, conflicts, insert_row, insert_candle, candle_of_row,
  query_candles, selected, insert_by_time, sort_by_time,
}
use analytics_system.Timescale.Table.{IsKeyed, insert_candle-IsKeyed}
use analytics_system.Timescale.Pages.{IsTimeFormat, answers, all_pages, page_of, all_pages-candles}

map-append : {A B : Type 0} (f : A → B) (a b : List A) → map f (a ++ b) ≡ map f a ++ map f b
map-append f [] b = refl
map-append f (x ∷ a) b = ap (◌∷◌ (f x)) (map-append f a b)

module _ {F : Type 0} where
  -- The rows have no candle of a symbol, an interval and a time.
  abbrev pub Lacks : Text → Text → ℕ → Table F → Type 0
  Lacks symbol iv t rows =
      All (λ q. (text_eq q.symbol symbol && (text_eq q.interval iv && q.time == t)) ≡ false) rows

  Lacks-conflicts :
      (c : Candle F) (rows : Table F)
      → Lacks c.symbol c.interval c.start rows
      → any (conflicts (row_of c)) rows ≡ false
  Lacks-conflicts c [] h = refl
  Lacks-conflicts c (q ∷ rows) h = ground (arith, h.0, Lacks-conflicts c rows h.1)

  insert_splits :
      (r : Row F) (rows : List (Row F))
      → (before : List (Row F)) × (after : List (Row F)) × (insert_by_time r rows
          ≡ before ++ r ∷ after)
  insert_splits r [] = ([], [], refl)
  insert_splits r (q ∷ rows) = elim (Bool-cases (leb r.time q.time)) [
    | inl low ↦ ([], q ∷ rows, rw low refl)
    | inr high ↦
        let (before, after, split) = insert_splits r rows in
        (q ∷ before, after, rw high (ap (◌∷◌ q) split))
  ]

  flushed_table :
      (refuses : Table F → Option Text) (c : Candle F) (rows : Table F)
      → Lacks c.symbol c.interval c.start rows
      → (insert_candle refuses c rows).0 ≡ none
      → (insert_candle refuses c rows).1 ≡ row_of c ∷ rows
  unfolding insert_candle
  flushed_table refuses c rows lacks done = elim (Option-cases (refuses rows)) [
    | inl taken ↦ rw (taken, insert_candle, insert_row, Lacks-conflicts c rows lacks) refl
    | inr (e, refused) ↦ ground (arith, refused, done)
  ]

  -- A candle of a known interval that `FlushCandle` writes without an error, to a table of which no
  -- two rows conflict and none has its symbol, interval and start, is given to a client that follows
  -- the pages, with one request more than there are candles, over a stretch of time strictly in which
  -- it opens, with the prices, the volume and the start of the candle and the end that its interval
  -- gives; if a time that is printed is read back.
  pub flushed_candle-read :
      (tf : TimeFormat) (times : IsTimeFormat tf) (refuses : Table F → Option Text) (c : Candle F)
      (rows : Table F) (dur start end fuel : ℕ) (n : ℤ)
      → IsKeyed rows
      → Lacks c.symbol c.interval c.start rows
      → (insert_candle refuses c rows).0 ≡ none
      → duration c.interval ≡ ok dur
      → start < c.start
      → c.start < end
      → (let rows' = (insert_candle refuses c rows).1 in
          length (sort_by_time (filter (selected c.symbol c.interval start end) rows')) < fuel)
      → (before : List (PbCandle F)) × (after : List (PbCandle F)) × (all_pages
            (λ token.
              query_candles tf
                (answers (insert_candle refuses c rows).1)
                c.symbol
                c.interval
                start
                end
                (some (page_of n token)))
            fuel
            []
          ≡ ok (
              some (
                before
                ++ record {
                  symbol = c.symbol;
                  open_price = c.open_price;
                  high = c.high;
                  low = c.low;
                  close = c.close;
                  volume = c.volume;
                  open_time = c.start;
                  close_time = c.start + dur;
                }
                  ∷ after)))
  flushed_candle-read tf times refuses c rows dur start end fuel n keyed lacks done known late early
        enough =
      let rows' = (insert_candle refuses c rows).1 in
      let keyed' : IsKeyed rows' = (insert_candle-IsKeyed refuses c rows keyed).0 in
      let written = flushed_table refuses c rows lacks done in
      let here : selected c.symbol c.interval start end (row_of c) ≡ true =
        ground (arith, late, early, text_eq_refl c.symbol, text_eq_refl c.interval) in
      let rest = sort_by_time (filter (selected c.symbol c.interval start end) rows) in
      let (before, after, split) = insert_splits (row_of c) rest in
      let found : sort_by_time (filter (selected c.symbol c.interval start end) rows')
          ≡ before ++ row_of c ∷ after =
        ap (λ t. sort_by_time (filter (selected c.symbol c.interval start end) t)) written
        ∙ rw (here, filter) split in
      let f = candle_of_row {F = F} c.symbol dur in
      (
        map f before,
        map f after,
        all_pages-candles tf times rows' keyed' c.symbol c.interval dur known start end n fuel
              enough
            ∙ ap (λ l. ok (some l)) (ap (map f) found ∙ map-append f before (row_of c ∷ after)),
      )
