-- ===== src/Interval.antt =====
-- common/interval/interval.go: the aggregation intervals, their protobuf values and their lengths.
-- A length is in nanoseconds, as in Go's `time.Duration`.
pub mod Laws
pub mod Align
use analytics_system.Prelude.{ℕ, ◌*◌, ◌-◌, ◌%◌, Option, none, some, [], ◌∷◌, Result, ok, err}
use analytics_system.Prelude.Text.{Text, codes}
use analytics_system.Prelude.Map.{Map, lookup}

-- `commonpb.AggregationInterval`: a protobuf enum is open, `other n` is a number that has no name.
pub data AggregationInterval : Type 0 where
  unspecified minute_1 minutes_5 minutes_15 hour_1 hours_4 day_1 : AggregationInterval
  other : ℕ → AggregationInterval

abbrev pub interval_1m : Text
interval_1m = codes "1m"

abbrev pub interval_5m : Text
interval_5m = codes "5m"

abbrev pub interval_15m : Text
interval_15m = codes "15m"

abbrev pub interval_1h : Text
interval_1h = codes "1h"

abbrev pub interval_4h : Text
interval_4h = codes "4h"

abbrev pub interval_1d : Text
interval_1d = codes "1d"

abbrev pub second : ℕ
second = 1_000_000_000

abbrev pub minute : ℕ
minute = 60 * second

abbrev pub hour : ℕ
hour = 60 * minute

pub data IntervalError : Type 0 where
  unknown_proto : AggregationInterval → IntervalError
  unknown_interval : Text → IntervalError

-- `protoToInternal`
unfoldable pub proto_to_internal : AggregationInterval → Option Text
proto_to_internal AggregationInterval.unspecified = none
proto_to_internal AggregationInterval.minute_1 = some interval_1m
proto_to_internal AggregationInterval.minutes_5 = some interval_5m
proto_to_internal AggregationInterval.minutes_15 = some interval_15m
proto_to_internal AggregationInterval.hour_1 = some interval_1h
proto_to_internal AggregationInterval.hours_4 = some interval_4h
proto_to_internal AggregationInterval.day_1 = some interval_1d
proto_to_internal (AggregationInterval.other n) = none

-- `internalToProto`
abbrev pub internal_to_proto : Map AggregationInterval
internal_to_proto =
    (interval_1m, AggregationInterval.minute_1)
    ∷ (interval_5m, AggregationInterval.minutes_5)
    ∷ (interval_15m, AggregationInterval.minutes_15)
    ∷ (interval_1h, AggregationInterval.hour_1)
    ∷ (interval_4h, AggregationInterval.hours_4)
    ∷ (interval_1d, AggregationInterval.day_1)
    ∷ []

-- `intervalDurations`
abbrev pub interval_durations : Map ℕ
interval_durations =
    (interval_1m, minute)
    ∷ (interval_5m, 5 * minute)
    ∷ (interval_15m, 15 * minute)
    ∷ (interval_1h, hour)
    ∷ (interval_4h, 4 * hour)
    ∷ (interval_1d, 24 * hour)
    ∷ []

unfoldable pub from_proto : AggregationInterval → Result IntervalError Text
unfolding proto_to_internal
from_proto i = elim (proto_to_internal i) [
  | some val ↦ ok val
  | none ↦ err (IntervalError.unknown_proto i)
]

unfoldable pub to_proto : Text → Result IntervalError AggregationInterval
unfolding lookup
to_proto i = elim (lookup i internal_to_proto) [
  | some val ↦ ok val
  | none ↦ err (IntervalError.unknown_interval i)
]

unfoldable pub duration : Text → Result IntervalError ℕ
unfolding lookup
duration i = elim (lookup i interval_durations) [
  | some d ↦ ok d
  | none ↦ err (IntervalError.unknown_interval i)
]

-- `time.Time.Truncate`: the time is in nanoseconds since Go's zero time, and a step of 0 keeps it.
unfoldable pub truncate : ℕ → ℕ → ℕ
truncate ts d = ts - ts % d

-- services/preprocessor/internal/aggregator/types.go, `AlignToInterval`
unfoldable pub align_to_interval : ℕ → Text → Result IntervalError ℕ
unfolding duration truncate
align_to_interval ts iv = elim (duration iv) [ ok dur ↦ ok (truncate ts dur) | err e ↦ err e ]
