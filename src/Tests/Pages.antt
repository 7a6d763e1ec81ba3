-- ===== src/Tests/Pages.antt =====
-- The table of candles at concrete inputs.
use analytics_system.Prelude.{
  Bool, ltb, ℕ, ◌*◌, ◌<◌, ◌≡◌, ◌+◌, ◌++◌, refl, true, [], ◌∷◌, map, none, some, ok, length, pos,
  filter, arith, take, List, Option, err, false, ◌∷◌,
}
use analytics_system.Prelude.Text.{Text, codes, text_eq}
use analytics_system.Interval.{minute, interval_1m, duration}
use analytics_system.Aggregator.Candle.{Candle}
use analytics_system.Timescale.{
  Row, Table, TimeFormat, insert_candle, insert_row, candle_of_row, query_candles, selected,
  sort_by_time,
}
use analytics_system.Timescale.Symbols.{
  SymbolsQuery, Argument, SymbolRows, SymbolsError, text, number, list_symbols, cut_symbols,
  page_of_symbols, list_symbols_lem,
}
use analytics_system.Timescale.Table.{IsKeyed}
use analytics_system.Timescale.Ascending.{IsOrder}
use analytics_system.Timescale.Flushed.{Lacks, flushed_candle-read}
use analytics_system.Storage.Adapter.{PbCandle}
use analytics_system.Timescale.Pages.{IsTimeFormat, answers, all_pages, page_of, all_pages-candles}

abbrev stored_row : ℕ → Row ℕ
stored_row t = record {
  time = t;
  symbol = codes "BTC";
  interval = interval_1m;
  open_price = 3;
  high = 5;
  low = 2;
  close = 4;
  volume = 10;
}

abbrev stored : Table ℕ
stored = stored_row (9 * minute) ∷ stored_row (8 * minute) ∷ stored_row (7 * minute) ∷ []

stored-IsKeyed : IsKeyed stored
unfolding text_eq
stored-IsKeyed = (refl, (refl, (refl, tt)))

abbrev plain_times : TimeFormat
plain_times = record { parse = λ s. elim s [ [] ↦ none | t ∷ rest ↦ some t ]; format = λ t. t ∷ [] }

plain_times-IsTimeFormat : IsTimeFormat plain_times
plain_times-IsTimeFormat = record { round_trip = λ t. refl; not_empty = λ t. refl }

one_minute_long : duration interval_1m ≡ ok minute
unfolding duration
one_minute_long = ground arith

abbrev bar : Candle ℕ
bar = record {
  symbol = codes "BTC";
  interval = interval_1m;
  start = 7 * minute;
  end = 8 * minute;
  open_price = 3;
  high = 6;
  low = 2;
  close = 4;
  volume = 10;
  complete = true;
}

-- The bar before those that are stored.
abbrev fresh_bar : Candle ℕ
fresh_bar = record bar { start = 6 * minute; end = 7 * minute }

stored-Lacks : Lacks (codes "BTC") interval_1m (6 * minute) stored
unfolding text_eq
stored-Lacks = (refl, (refl, (refl, tt)))

abbrev rows_flushed : Table ℕ
rows_flushed = (insert_candle (λ rows. none) fresh_bar stored).1

four_rows :
    length
      (sort_by_time (filter (selected (codes "BTC") interval_1m minute (10 * minute)) rows_flushed))
    < 5
unfolding text_eq insert_candle insert_row
four_rows = omega arith

flushed_well : (insert_candle (λ rows. none) fresh_bar stored).0 ≡ none
unfolding insert_candle
flushed_well = refl

flushed_candle-read_example :
    (before : List (PbCandle ℕ)) × (after : List (PbCandle ℕ)) × (all_pages
        (λ token.
          query_candles plain_times
            (answers rows_flushed)
            (codes "BTC")
            interval_1m
            minute
            (10 * minute)
            (some (page_of (pos 2) token)))
        5
        []
      ≡ ok (
          some (
            before
            ++ record {
              symbol = codes "BTC";
              open_price = 3;
              high = 6;
              low = 2;
              close = 4;
              volume = 10;
              open_time = 6 * minute;
              close_time = 6 * minute + minute;
            }
              ∷ after)))
flushed_candle-read_example =
    flushed_candle-read plain_times plain_times-IsTimeFormat (λ rows. none) fresh_bar stored minute
      minute (10 * minute) 5 (pos 2) stored-IsKeyed stored-Lacks flushed_well one_minute_long
      (omega arith) (omega arith) four_rows

three_rows :
    length (sort_by_time (filter (selected (codes "BTC") interval_1m minute (10 * minute)) stored))
    < 4
unfolding text_eq
three_rows = omega arith

all_pages-candles_example :
    all_pages
      (λ token.
        query_candles plain_times
          (answers stored)
          (codes "BTC")
          interval_1m
          minute
          (10 * minute)
          (some (page_of (pos 2) token)))
      4
      []
    ≡ ok (
        some (
          map (candle_of_row (codes "BTC") minute) (
            sort_by_time
              (filter (selected (codes "BTC") interval_1m minute (10 * minute)) stored))))
all_pages-candles_example =
    all_pages-candles plain_times plain_times-IsTimeFormat stored stored-IsKeyed (codes "BTC")
      interval_1m minute one_minute_long minute (10 * minute) (pos 2) 4 three_rows

abbrev three_symbols : List Text
three_symbols = (2 ∷ []) ∷ (3 ∷ []) ∷ (4 ∷ []) ∷ []

-- The order of the first bytes.
abbrev first_byte : Text → ℕ
first_byte [] = 0
first_byte (b ∷ bs) = b

abbrev byte_less : Text → Text → Bool
byte_less a b = ltb (first_byte a) (first_byte b)

byte_less-IsOrder : IsOrder byte_less
byte_less-IsOrder = record { irrefl = λ a. ground arith; trans = λ a b c h k. ground (arith, h, k) }

abbrev symbols_server : SymbolsQuery → List Argument → Option SymbolRows
symbols_server SymbolsQuery.symbols_after (text token ∷ number (pos limit) ∷ []) = some (record {
  entries = map some (take limit (filter (byte_less token) three_symbols));
  broken = false;
})
symbols_server query args = none

one_argument_fails : (query : SymbolsQuery) (a : Argument) → symbols_server query (a ∷ []) ≡ none
one_argument_fails SymbolsQuery.all_symbols a = refl
one_argument_fails SymbolsQuery.symbols_after (text t) = refl
one_argument_fails SymbolsQuery.symbols_after (number n) = refl

list_symbols_lem_example :
    (list_symbols symbols_server none ≡ err SymbolsError.query_symbols)
    × (list_symbols symbols_server (some (page_of_symbols 5 [])) ≡ err SymbolsError.query_symbols)
    × (list_symbols symbols_server (some (page_of_symbols 1 (1 ∷ []))) ≡ ok ((2 ∷ []) ∷ [], 3 ∷ []))
    × (list_symbols symbols_server (some (page_of_symbols 1 (3 ∷ [])))
        ≡ ok (cut_symbols 1 ((4 ∷ []) ∷ [])))
list_symbols_lem_example =
    list_symbols_lem symbols_server byte_less byte_less-IsOrder three_symbols
      ((refl, (refl, tt)), ((refl, tt), (tt, tt))) one_argument_fails (λ token limit. refl) 0 5
      (1 ∷ []) (3 ∷ []) ((2 ∷ []) ∷ []) ((4 ∷ []) ∷ []) (omega arith) refl refl refl refl
