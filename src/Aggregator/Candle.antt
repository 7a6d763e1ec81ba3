-- ===== src/Aggregator/Candle.antt =====
-- candle.go and types.go of services/preprocessor/internal/aggregator. Times are nanoseconds since
-- Go's zero time.
pub mod Update
use analytics_system.Prelude.{
  arith, ℕ, ◌+◌, ◌≡◌, Bool, true, false, not, ok, err, Outcome, returns, panics, ltb, if◌then◌else◌,
}
use analytics_system.Prelude.Text.{Text}
use analytics_system.Interval.{duration, align_to_interval, truncate}
use analytics_system.Aggregator.Float.{FloatOps}

pub record Candle (F : Type 0) : Type 0 where
  pub symbol : Text
  pub interval : Text
  pub start : ℕ
  pub end : ℕ
  pub open_price : F
  pub high : F
  pub low : F
  pub close : F
  pub volume : F
  pub complete : Bool

pub record CandleState (F : Type 0) : Type 0 where
  pub candle : Candle F
  pub updated_at : ℕ

-- `candleState.shouldFlush`: not before the end of the bar.
unfoldable pub should_flush : {F : Type 0} → CandleState F → ℕ → Bool
should_flush cs now = not (ltb now cs.candle.end)

-- `newCandleState`: an interval that is not known panics.
unfoldable pub new_candle_state : {F : Type 0} → Text → Text → ℕ → F → F → Outcome (CandleState F)
unfolding align_to_interval
new_candle_state symbol iv ts price volume = elim (align_to_interval ts iv) [
  | err e ↦ panics
  | ok start ↦ elim (duration iv) [
    | err e ↦ panics
    | ok dur ↦ returns (record {
      candle = record {
        symbol = symbol;
        interval = iv;
        start = start;
        end = start + dur;
        open_price = price;
        high = price;
        low = price;
        close = price;
        volume = volume;
        complete = false;
      };
      updated_at = ts;
    })
  ]
]

module _ {F : Type 0} (o : FloatOps F) where
  -- `candleState.update`
  unfoldable pub update : CandleState F → ℕ → F → F → CandleState F
  update cs ts price volume =
      let c = cs.candle in
      let top = (if o.less c.high price then price else c.high) in
      let bottom = (if o.less price c.low then price else c.low) in
      record {
        candle = record c {
          high = top;
          low = bottom;
          close = price;
          volume = o.plus c.volume volume;
        };
        updated_at = ts;
      }

-- The bar that a tick opens on an interval of length `dur`.
abbrev pub opened : {F : Type 0} → Text → Text → ℕ → ℕ → F → F → CandleState F
opened symbol iv ts dur price volume = record {
  candle = record {
    symbol = symbol;
    interval = iv;
    start = truncate ts dur;
    end = truncate ts dur + dur;
    open_price = price;
    high = price;
    low = price;
    close = price;
    volume = volume;
    complete = false;
  };
  updated_at = ts;
}

-- On an interval of a known length a new bar covers the aligned stretch that holds the tick.
pub new_candle_state_lem :
    {F : Type 0} (symbol iv : Text) (ts dur : ℕ) (price volume : F)
    → duration iv ≡ ok dur
    → new_candle_state symbol iv ts price volume ≡ returns (opened symbol iv ts dur price volume)
unfolding new_candle_state
new_candle_state_lem symbol iv ts dur price volume h = ground arith
