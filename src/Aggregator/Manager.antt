-- ===== src/Aggregator/Manager.antt =====
-- manager.go of services/preprocessor/internal/aggregator: the bars in progress, one for each
-- interval and symbol. The sink, the storage and the clock act on a state `W` of their own.
pub mod Trace
pub mod Safety
pub mod Flush
use analytics_system.Prelude.{
  ℕ, ◌≡◌, refl, Bool, true, false, List, [], ◌∷◌, ◌++◌, Option, none, some, Result, ok, err,
  Outcome, returns, panics, ◌>>=◌, if◌then◌else◌,
}
use analytics_system.Prelude.Text.{Text}
use analytics_system.Prelude.Map.{Map, lookup, insert, erase}
use analytics_system.Interval.{IntervalError, duration}
use analytics_system.Aggregator.Float.{FloatOps}
use analytics_system.Aggregator.Candle.{Candle, CandleState, should_flush, new_candle_state, update}

-- The interfaces `FlushSink` and `PartialBarStorage` as far as the manager calls them, and its
-- clock `now`. An error is the text that `errors.Join` gathers.
pub record Env (F W : Type 0) : Type 0 where
  -- `storage.LoadAt(symbol, interval, ts)`: the candle, which may be nil, and whether it failed
  pub load_at : Text → Text → ℕ → W → Option (Candle F) × Bool × W
  -- `storage.Save(candle)`, whose error the manager drops
  pub save : Candle F → W → W
  -- `storage.DeleteAt(symbol, interval, start)`, whose error is only logged
  pub delete_at : Text → Text → ℕ → W → W
  -- `sink.FlushCandle(candle)`
  pub flush_candle : Candle F → W → Option Text × W
  -- `now()`
  pub read_clock : W → ℕ × W

-- `marketdatapb.MarketData`, the fields that `Process` reads.
pub record MarketData (F : Type 0) : Type 0 where
  pub symbol : Text
  pub price : F
  pub volume : F
  pub timestamp : ℕ

abbrev pub Bucket : Type 0 → Type 0
Bucket F = Map (CandleState F)

abbrev pub Buckets : Type 0 → Type 0
Buckets F = Map (Bucket F)

pub record Manager (F : Type 0) : Type 0 where
  pub buckets : Buckets F
  pub intervals : List Text

abbrev with_buckets :
    {F : Type 0} → List Text → Buckets F → List Text → Result IntervalError (Manager F)
with_buckets all buckets [] = ok (record { buckets = buckets; intervals = all })
with_buckets all buckets (iv ∷ rest) =
    let more = with_buckets all (insert iv [] buckets) rest in
    elim (duration iv) [ err e ↦ err e | ok d ↦ more ]

-- `NewManager`, which refuses an interval of no known length.
unfoldable pub new_manager : {F : Type 0} → List Text → Result IntervalError (Manager F)
unfolding insert duration
new_manager intervals = with_buckets intervals [] intervals

module _ {F W : Type 0} (o : FloatOps F) (env : Env F W) where
  -- `Manager.flushOne`: the candle is marked complete before it goes to the sink.
  unfoldable pub flush_one : Text → Text → CandleState F → W → Option Text × W
  flush_one iv symbol state w =
      let (failed, w') = env.flush_candle (record (state.candle) { complete = true }) w in
      elim failed [
        | some e ↦ (some e, w')
        | none ↦ (none, env.delete_at symbol iv state.candle.start w')
      ]

  -- One round of the loop of `Process`: the state that takes the place in the bucket.
  unfoldable pub next_state :
      Text → MarketData F → Option (CandleState F) → W → Outcome (CandleState F × W)
  unfolding flush_one new_candle_state update should_flush
  next_state iv tick none w =
      let (existing, failed, w') = env.load_at tick.symbol iv tick.timestamp w in
      elim existing [
        | some c ↦ returns (record { candle = c; updated_at = tick.timestamp }, w')
        | none ↦ do
          state ← new_candle_state tick.symbol iv tick.timestamp tick.price tick.volume
          returns (state, w')
      ]
  next_state iv tick (some state) w =
      let (now, w') = env.read_clock w in
      if should_flush state now
      then (let (failed, w'') = flush_one iv tick.symbol state w' in
          do
            fresh ← new_candle_state tick.symbol iv tick.timestamp tick.price tick.volume
            returns (fresh, w''))
      else returns (update o state tick.timestamp tick.price tick.volume, w')

  -- The round with its bucket and the call of `Save`; a write to the nil map of an interval that
  -- has no bucket panics.
  unfoldable pub process_interval : MarketData F → Text → Buckets F → W → Outcome (Buckets F × W)
  unfolding next_state lookup insert
  process_interval tick iv buckets w = elim (lookup iv buckets) [
    | none ↦ panics
    | some bucket ↦ do
      (state, w') ← next_state iv tick (lookup tick.symbol bucket) w
      returns (insert iv (insert tick.symbol state bucket) buckets, env.save state.candle w')
  ]

  unfoldable pub process_intervals :
      MarketData F → List Text → Buckets F → W → Outcome (Buckets F × W)
  unfolding process_interval
  process_intervals tick [] buckets w = returns (buckets, w)
  process_intervals tick (iv ∷ rest) buckets w = do
    (buckets', w') ← process_interval tick iv buckets w
    process_intervals tick rest buckets' w'

  -- `Manager.Process`
  unfoldable pub process : MarketData F → Manager F → W → Outcome (Manager F × W)
  unfolding process_intervals
  process tick m w = do
    (buckets, w') ← process_intervals tick m.intervals m.buckets w
    returns (record m { buckets = buckets }, w')

  -- The inner loop of `FlushAll`, over the entries of one bucket; what is left of the bucket.
  unfoldable pub flush_bucket : Text → Bucket F → Bucket F → W → List Text × Bucket F × W
  unfolding flush_one erase
  flush_bucket iv [] bucket w = ([], bucket, w)
  flush_bucket iv ((symbol, state) ∷ rest) bucket w =
      let (failed, w') = flush_one iv symbol state w in
      let (errs, bucket', w'') = flush_bucket iv rest (erase symbol bucket) w' in
      (elim failed [ some e ↦ e ∷ errs | none ↦ errs ], bucket', w'')

  unfoldable pub flush_buckets : Buckets F → W → List Text × Buckets F × W
  unfolding flush_bucket
  flush_buckets [] w = ([], [], w)
  flush_buckets ((iv, bucket) ∷ rest) w =
      let (errs, bucket', w') = flush_bucket iv bucket bucket w in
      let (errs', rest', w'') = flush_buckets rest w' in (errs ++ errs', (iv, bucket') ∷ rest', w'')

  -- `Manager.FlushAll`, with the errors that it joins. `Close` runs it last.
  unfoldable pub flush_all : Manager F → W → List Text × Manager F × W
  unfolding flush_buckets
  flush_all m w =
      let (errs, buckets, w') = flush_buckets m.buckets w in
      (errs, record m { buckets = buckets }, w')

  unfoldable pub expire_bucket : Text → ℕ → Bucket F → Bucket F → W → Bucket F × W
  unfolding flush_one erase should_flush
  expire_bucket iv now [] bucket w = (bucket, w)
  expire_bucket iv now ((symbol, state) ∷ rest) bucket w =
      let flushed = flush_one iv symbol state w in
      let due = should_flush state now in
      expire_bucket iv now rest (if due then erase symbol bucket else bucket)
        (if due then flushed.1 else w)

  unfoldable pub expire_buckets : ℕ → Buckets F → W → Buckets F × W
  unfolding expire_bucket
  expire_buckets now [] w = ([], w)
  expire_buckets now ((iv, bucket) ∷ rest) w =
      let (bucket', w') = expire_bucket iv now bucket bucket w in
      let (rest', w'') = expire_buckets now rest w' in ((iv, bucket') ∷ rest', w'')

  -- `Manager.flushExpired`, which reads the clock once.
  unfoldable pub flush_expired : Manager F → W → Manager F × W
  unfolding expire_buckets
  flush_expired m w =
      let (now, w') = env.read_clock w in
      let (buckets, w'') = expire_buckets now m.buckets w' in (record m { buckets = buckets }, w'')
