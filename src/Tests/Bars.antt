-- ===== src/Tests/Bars.antt =====
-- services/preprocessor/internal/aggregator at concrete inputs, with whole numbers for prices.
use analytics_system.Prelude.{
  ℕ, ◌+◌, ◌*◌, ◌%◌, ◌≤◌, ◌<◌, ◌≡◌, refl, false, List, [], ◌∷◌, none, some, ok, returns, map, All,
  arith, if◌then◌else◌,
}
use analytics_system.Prelude.Text.{Text, codes}
use analytics_system.Prelude.Map.{lookup, insert, IsDistinct}
use analytics_system.Interval.{duration, minute, interval_1m}
use analytics_system.Aggregator.Float.{natural_floats, IsNatural, natural_floats-IsOrdered}
use analytics_system.Aggregator.Candle.{CandleState, should_flush, opened, update, new_candle_state}
use analytics_system.Aggregator.Candle.Update.{
  Tick, update_all, sum_volumes, last_price, prices_onto, Spans, bar_of_ticks,
}
use analytics_system.Aggregator.Manager.{
  MarketData, Bucket, Buckets, Manager, new_manager, process, process_interval, flush_all,
  flush_expired,
}
use analytics_system.Aggregator.Manager.Safety.{
  IsReady, Restores, new_manager-IsReady, process_returns,
}
use analytics_system.Aggregator.Manager.Trace.{
  Event, reads_clock, saves, Oracle, traced, flushed, completed, process_interval_conserves,
}
use analytics_system.Aggregator.Manager.Flush.{
  all_completed_onto, unless_due, all_due_onto, flush_all-empties, flush_expired_lem,
}

abbrev symbol : Text
symbol = codes "BTC"

known : duration interval_1m ≡ ok minute
unfolding duration
known = ground arith

abbrev ticks : List (Tick ℕ)
ticks = record { ts = 70; price = 9; volume = 1 } ∷ record { ts = 80; price = 4; volume = 2 } ∷ []

bar_of_ticks_example :
    (cs : CandleState ℕ) × (new_candle_state symbol interval_1m 60 7 5 ≡ returns cs)
    × (let c = (update_all natural_floats cs ticks).candle in
        Spans natural_floats IsNatural natural_floats-IsOrdered
          (prices_onto natural_floats (7 ∷ []) ticks)
          c
        × (c.open_price ≡ 7)
        × (c.close ≡ last_price natural_floats 7 ticks)
        × (c.volume ≡ sum_volumes natural_floats 5 ticks)
        × (c.symbol ≡ symbol)
        × (c.interval ≡ interval_1m)
        × (c.start ≤ 60)
        × (60 < c.end)
        × (c.end ≡ c.start + minute)
        × (c.start % minute ≡ 0))
bar_of_ticks_example =
    bar_of_ticks natural_floats IsNatural natural_floats-IsOrdered symbol interval_1m 60 minute 7 5
      ticks known tt (tt, (tt, tt))

abbrev manager : Manager ℕ
manager = record { buckets = (interval_1m, []) ∷ []; intervals = interval_1m ∷ [] }

made : new_manager {F = ℕ} (interval_1m ∷ []) ≡ ok manager
unfolding new_manager duration insert lookup
made = ground arith

new_manager-IsReady_example : IsReady manager × (manager.intervals ≡ interval_1m ∷ [])
new_manager-IsReady_example = new_manager-IsReady (interval_1m ∷ []) manager made

-- The storage has nothing, the sink takes everything, and two minutes have passed.
abbrev oracle : Oracle ℕ
oracle = record { loaded = λ w. (none, false); sink_error = λ w. none; clock = λ w. 2 * minute }

restores : Restores natural_floats (traced oracle)
restores symbol iv ts w c e = absurd (ground arith)

abbrev tick : MarketData ℕ
tick = record { symbol = symbol; price = 7; volume = 5; timestamp = 130 * 1000000000 }

process_returns_example :
    (r : Manager ℕ × List (Event ℕ)) × (process natural_floats (traced oracle) tick manager []
      ≡ returns r)
    × IsReady r.0
    × (r.0.intervals ≡ interval_1m ∷ [])
process_returns_example =
    process_returns natural_floats (traced oracle) restores tick manager []
      (new_manager-IsReady (interval_1m ∷ []) manager made).0

abbrev held : CandleState ℕ
held = opened symbol interval_1m 60 minute 3 1

abbrev bucket : Bucket ℕ
bucket = (symbol, held) ∷ []

abbrev buckets : Buckets ℕ
buckets = (interval_1m, bucket) ∷ []

has_bucket : lookup interval_1m buckets ≡ some bucket
unfolding lookup
has_bucket = ground arith

has_bar : lookup symbol bucket ≡ some held
unfolding lookup
has_bar = ground arith

process_interval_conserves_example :
    (next : CandleState ℕ) × (w' : List (Event ℕ)) × (process_interval natural_floats
        (traced oracle)
        tick
        interval_1m
        buckets
        []
      ≡ returns (insert interval_1m (insert symbol next bucket) buckets, saves next.candle ∷ w'))
    × (if should_flush held (oracle.clock (reads_clock ∷ []))
        then (next ≡ opened symbol interval_1m tick.timestamp minute 7 5)
          × (flushed w' ≡ completed held ∷ flushed [])
        else (next ≡ update natural_floats held tick.timestamp 7 5) × (flushed w' ≡ flushed []))
process_interval_conserves_example =
    process_interval_conserves natural_floats oracle tick interval_1m minute buckets bucket held []
      known has_bucket has_bar

abbrev restoring : Oracle ℕ
restoring = record {
  loaded = λ w. (some held.candle, false);
  sink_error = λ w. none;
  clock = λ w. 0;
}

abbrev fresh : Buckets ℕ
fresh = (interval_1m, []) ∷ []

has_fresh : lookup interval_1m fresh ≡ some []
unfolding lookup
has_fresh = ground arith

no_bar : lookup {V = CandleState ℕ} symbol [] ≡ none
unfolding lookup
no_bar = refl

abbrev busy : Manager ℕ
busy = record { buckets = buckets; intervals = interval_1m ∷ [] }

flush_all-empties_example :
    let (errs, m', w') = flush_all natural_floats (traced oracle) busy [] in
    (m'.buckets ≡ map (λ e. (e.0, [])) buckets)
    × (m'.intervals ≡ interval_1m ∷ [])
    × (flushed w' ≡ all_completed_onto buckets (flushed []))
flush_all-empties_example = flush_all-empties natural_floats oracle busy []

distinct : All (λ (e : Text × Bucket ℕ). IsDistinct e.1) buckets
unfolding lookup
distinct = ((refl, tt), tt)

flush_expired_lem_example :
    let now = oracle.clock (reads_clock ∷ []) in
    let (m', w') = flush_expired natural_floats (traced oracle) busy [] in
    ((iv : Text) (b : Bucket ℕ)
      → lookup iv buckets ≡ some b
      → (b' : Bucket ℕ) × (lookup iv m'.buckets ≡ some b')
        × ((k : Text) → lookup k b' ≡ unless_due now (lookup k b)))
    × (m'.intervals ≡ interval_1m ∷ [])
    × (flushed w' ≡ all_due_onto now buckets (flushed []))
flush_expired_lem_example = flush_expired_lem natural_floats oracle busy [] distinct
