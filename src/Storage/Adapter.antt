-- ===== src/Storage/Adapter.antt =====
-- storage/redis/adapter.go of services/preprocessor, over the client of common/redis, and `ToProto`
-- of aggregator/types.go. The protobuf codec and the format of times are parameters.
pub mod Keys
pub mod Shelf
pub mod Steps
pub mod Refinement
pub mod Success
use analytics_system.Prelude.{
  ℕ, ◌*◌, Bool, false, List, [], ◌∷◌, ◌++◌, Option, none, some, Result, ok, err,
}
use analytics_system.Prelude.Text.{Text, codes}
use analytics_system.Interval.{IntervalError, duration, align_to_interval}
use analytics_system.Backoff.{RetryNotify, ErrMaxRetries}
use analytics_system.Aggregator.Candle.{Candle}
use analytics_system.Redis.{Rdb, State, get, set, del}

-- `analyticspb.Candle`, of the fields that are used; the timestamps are instants.
pub record PbCandle (F : Type 0) : Type 0 where
  pub symbol : Text
  pub open_price : F
  pub high : F
  pub low : F
  pub close : F
  pub volume : F
  pub open_time : ℕ
  pub close_time : ℕ

-- `proto.Marshal` and `proto.Unmarshal`, which may fail, and the format `time.RFC3339` in UTC.
pub record Codec (F : Type 0) : Type 0 where
  pub marshal : PbCandle F → Option Text
  pub unmarshal : Text → Option (PbCandle F)
  pub format : ℕ → Text

pub data AdapterError (E : Type 0) : Type 0 where
  not_marshalled not_unmarshalled : AdapterError E
  no_interval : IntervalError → AdapterError E
  redis_failed : ErrMaxRetries E → AdapterError E

-- `Candle.ToProto`, which drops the interval and whether the bar is complete.
unfoldable pub candle_to_proto : {F : Type 0} → Candle F → PbCandle F
candle_to_proto c = record {
  symbol = c.symbol;
  open_price = c.open_price;
  high = c.high;
  low = c.low;
  close = c.close;
  volume = c.volume;
  open_time = c.start;
  close_time = c.end;
}

-- The candle that `LoadAt` builds.
unfoldable pub candle_of_proto : {F : Type 0} → Text → PbCandle F → Candle F
candle_of_proto iv pb = record {
  symbol = pb.symbol;
  interval = iv;
  start = pb.open_time;
  end = pb.close_time;
  open_price = pb.open_price;
  high = pb.high;
  low = pb.low;
  close = pb.close;
  volume = pb.volume;
  complete = false;
}

-- The key "ohlcv:symbol:interval:start"
unfoldable pub candle_key : (ℕ → Text) → Text → Text → ℕ → Text
candle_key format symbol iv start =
    codes "ohlcv:" ++ (symbol ++ (codes ":" ++ (iv ++ (codes ":" ++ format start))))

-- What `LoadAt` makes of the text that the key holds.
unfoldable pub decode_raw :
    {E F : Type 0} → Codec F → Text → Text → Result (AdapterError E) (Option (Candle F))
unfolding candle_of_proto
decode_raw codec iv [] = ok none
decode_raw codec iv (c ∷ cs) = elim (codec.unmarshal (c ∷ cs)) [
  | none ↦ err AdapterError.not_unmarshalled
  | some pb ↦ ok (some (candle_of_proto iv pb))
]

module _ {E F W : Type 0} {cancelled : E → Type 0} (codec : Codec F) (rdb : Rdb E W)
    (lib : (S : Type 0) → RetryNotify E cancelled S) (per_attempt_timeout : ℕ) where
  -- `Adapter.Save`, which keeps a bar for two of its lengths.
  unfoldable pub save : Candle F → State W → Option (AdapterError E) × State W
  unfolding candle_key candle_to_proto duration
  save c s =
      let key = candle_key codec.format c.symbol c.interval c.start in
      elim (codec.marshal (candle_to_proto c)) [
        | none ↦ (some AdapterError.not_marshalled, s)
        | some raw ↦ elim (duration c.interval) [
          | err e ↦ (some (AdapterError.no_interval e), s)
          | ok dur ↦
              let (r, s') = set rdb lib per_attempt_timeout key raw (2 * dur) s in
              (elim r [ none ↦ none | some e ↦ some (AdapterError.redis_failed e) ], s')
        ]
      ]

  -- `Adapter.LoadAt`; no candle is a nil pointer.
  unfoldable pub load_at :
      Text → Text → ℕ → State W → Result (AdapterError E) (Option (Candle F)) × State W
  unfolding candle_key decode_raw align_to_interval
  load_at symbol iv ts s = elim (align_to_interval ts iv) [
    | err e ↦ (err (AdapterError.no_interval e), s)
    | ok start ↦
        let (r, s') = get rdb lib per_attempt_timeout (candle_key codec.format symbol iv start) s in
        (
          elim r [ err e ↦ err (AdapterError.redis_failed e) | ok raw ↦ decode_raw codec iv raw ],
          s',
        )
  ]

  -- `Adapter.DeleteAt`
  unfoldable pub delete_at : Text → Text → ℕ → State W → Option (AdapterError E) × State W
  unfolding candle_key align_to_interval
  delete_at symbol iv ts s = elim (align_to_interval ts iv) [
    | err e ↦ (some (AdapterError.no_interval e), s)
    | ok start ↦
        let (r, s') =
          del rdb lib per_attempt_timeout (candle_key codec.format symbol iv start ∷ []) s in
        (elim r [ err e ↦ some (AdapterError.redis_failed e) | ok n ↦ none ], s')
  ]

  -- `Adapter.Load` and `Adapter.Delete`, at what `time.Now` gives.
  unfoldable pub load :
      Text → Text → ℕ → State W → Result (AdapterError E) (Option (Candle F)) × State W
  unfolding load_at
  load symbol iv now s = load_at symbol iv now s

  unfoldable pub delete : Text → Text → ℕ → State W → Option (AdapterError E) × State W
  unfolding delete_at
  delete symbol iv now s = delete_at symbol iv now s
