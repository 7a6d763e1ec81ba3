-- ===== src/Timescale.antt =====
-- The table `candles` of TimescaleDB: services/preprocessor/internal/storage/timescaledb/timescale.go
-- writes it, and services/analytics-api/internal/storage/timescaledb/reader.go reads it. The server
-- is a parameter where it may fail.
pub mod Table
pub mod Order
pub mod Pages
pub mod Flushed
pub mod Ascending
pub mod Symbols
use analytics_system.Prelude.{
  ℕ, ◌+◌, Bool, true, false, ◌&&◌, not, List, [], ◌∷◌, ◌++◌, Option, none, some, Result, ok, err,
  ltb, leb, ◌==◌, if◌then◌else◌, filter, take, ℤ, is_positive, nat_of, any,
}
use analytics_system.Prelude.Text.{Text, codes, text_eq, is_empty}
use analytics_system.Interval.{IntervalError, duration}
use analytics_system.Aggregator.Candle.{Candle}
use analytics_system.Storage.Adapter.{PbCandle}

-- A row of the table.
pub record Row (F : Type 0) : Type 0 where
  pub time : ℕ
  pub symbol : Text
  pub interval : Text
  pub open_price : F
  pub high : F
  pub low : F
  pub close : F
  pub volume : F

abbrev pub Table : Type 0 → Type 0
Table F = List (Row F)

-- The arguments of the INSERT of `FlushCandle`.
abbrev pub row_of : {F : Type 0} → Candle F → Row F
row_of c = record {
  time = c.start;
  symbol = c.symbol;
  interval = c.interval;
  open_price = c.open_price;
  high = c.high;
  low = c.low;
  close = c.close;
  volume = c.volume;
}

-- The test of `ON CONFLICT (symbol, interval, time)`.
abbrev pub conflicts : {F : Type 0} → Row F → Row F → Bool
conflicts r q = text_eq q.symbol r.symbol && (text_eq q.interval r.interval && q.time == r.time)

-- `INSERT ... ON CONFLICT DO NOTHING`
unfoldable pub insert_row : {F : Type 0} → Row F → Table F → Table F
unfolding text_eq
insert_row r rows = if any (conflicts r) rows then rows else r ∷ rows

-- `TimescaleWriter.FlushCandle`; the server may refuse the statement.
unfoldable pub insert_candle :
    {F : Type 0} → (Table F → Option Text) → Candle F → Table F → Option Text × Table F
unfolding insert_row
insert_candle refuses c rows = elim (refuses rows) [
  | some e ↦ (some (codes "timescaledb insert: " ++ e), rows)
  | none ↦ (none, insert_row (row_of c) rows)
]

-- `commonpb.Pagination`
pub record Pagination : Type 0 where
  pub page_size : ℤ
  pub page_token : Text

-- `time.Parse` and `Format` with `time.RFC3339Nano`.
pub record TimeFormat : Type 0 where
  pub parse : Text → Option ℕ
  pub format : ℕ → Text

pub data ReadError : Type 0 where
  invalid_interval : IntervalError → ReadError
  invalid_page_token query_failed scan_failed : ReadError

-- The size of a page: that of the request, if it is positive.
unfoldable pub size_or : ℕ → Option Pagination → ℕ
size_or default none = default
size_or default (some page) = if is_positive page.page_size then nat_of page.page_size else default

-- Where the page starts: at the token, if there is one that is later than the start.
unfoldable pub page_start : TimeFormat → ℕ → Option Pagination → Result ReadError ℕ
page_start tf start none = ok start
page_start tf start (some page) =
    if is_empty page.page_token then ok start else elim (tf.parse page.page_token) [
      | none ↦ err ReadError.invalid_page_token
      | some t ↦ ok (if ltb start t then t else start)
    ]

abbrev pub candle_of_row : {F : Type 0} → Text → ℕ → Row F → PbCandle F
candle_of_row symbol dur r = record {
  symbol = symbol;
  open_price = r.open_price;
  high = r.high;
  low = r.low;
  close = r.close;
  volume = r.volume;
  open_time = r.time;
  close_time = r.time + dur;
}

-- The loop over the rows: `none` is a row that `Scan` cannot read.
unfoldable pub read_candles :
    {F : Type 0}
    → (ℕ → Text)
    → Text
    → ℕ
    → Text
    → List (Option (Row F))
    → Result ReadError (List (PbCandle F) × Text)
read_candles format symbol dur token [] = ok ([], token)
read_candles format symbol dur token (none ∷ rest) = err ReadError.scan_failed
read_candles format symbol dur token (some r ∷ rest) =
    elim (read_candles format symbol dur (format r.time) rest) [
      | err e ↦ err e
      | ok (cs, next) ↦ ok (candle_of_row symbol dur r ∷ cs, next)
    ]

-- `timescaleRepo.QueryCandles`, where `run` is the answer of the server to the SELECT.
unfoldable pub query_candles :
    {F : Type 0}
    → TimeFormat
    → (Text → Text → ℕ → ℕ → ℕ → Option (List (Option (Row F))))
    → Text
    → Text
    → ℕ
    → ℕ
    → Option Pagination
    → Result ReadError (List (PbCandle F) × Text)
unfolding duration size_or page_start read_candles
query_candles tf run symbol iv start end page = elim (duration iv) [
  | err e ↦ err (ReadError.invalid_interval e)
  | ok dur ↦ elim (page_start tf start page) [
    | err e ↦ err e
    | ok start' ↦ elim (run symbol iv start' end (size_or 500 page)) [
      | none ↦ err ReadError.query_failed
      | some rows ↦ read_candles tf.format symbol dur [] rows
    ]
  ]
]

-- What the SELECT means: the rows of the symbol and the interval strictly between the times, in the
-- order of the time, up to the limit.
abbrev pub selected : {F : Type 0} → Text → Text → ℕ → ℕ → Row F → Bool
selected symbol iv start end r =
    text_eq r.symbol symbol && (text_eq r.interval iv && (ltb start r.time && ltb r.time end))

abbrev pub insert_by_time : {F : Type 0} → Row F → List (Row F) → List (Row F)
insert_by_time r [] = r ∷ []
insert_by_time r (q ∷ rows) =
    let rest = insert_by_time r rows in if leb r.time q.time then r ∷ q ∷ rows else q ∷ rest

abbrev pub sort_by_time : {F : Type 0} → List (Row F) → List (Row F)
sort_by_time [] = []
sort_by_time (r ∷ rows) = insert_by_time r (sort_by_time rows)

unfoldable pub select_candles : {F : Type 0} → Table F → Text → Text → ℕ → ℕ → ℕ → List (Row F)
unfolding text_eq
select_candles rows symbol iv start end limit =
    take limit (sort_by_time (filter (selected symbol iv start end) rows))
