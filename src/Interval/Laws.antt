-- ===== src/Interval/Laws.antt =====
-- The tables of common/interval/interval.go against one another.
use Prim.Native.Nat.{ℕ}
use analytics_system.Prelude.{◌≡◌, ◌<◌, ◌%◌, ◌*◌, ◌↔◌, ok, arith, is_ok}
use analytics_system.Prelude.Text.{Text, text_eq_iff}
use analytics_system.Interval.{
  AggregationInterval, from_proto, to_proto, duration, minute, interval_1m, interval_5m,
  interval_15m, interval_1h, interval_4h, interval_1d,
}

to_proto→from_proto : (i : Text) (p : AggregationInterval) → to_proto i ≡ ok p → from_proto p ≡ ok i
unfolding to_proto from_proto
to_proto→from_proto i p h = ground (
  arith,
  text_eq_iff interval_1m i,
  text_eq_iff interval_5m i,
  text_eq_iff interval_15m i,
  text_eq_iff interval_1h i,
  text_eq_iff interval_4h i,
  text_eq_iff interval_1d i,
)

from_proto→to_proto : (p : AggregationInterval) (i : Text) → from_proto p ≡ ok i → to_proto i ≡ ok p
unfolding to_proto from_proto
from_proto→to_proto AggregationInterval.unspecified i h = cc
from_proto→to_proto AggregationInterval.minute_1 i h = ground arith
from_proto→to_proto AggregationInterval.minutes_5 i h = ground arith
from_proto→to_proto AggregationInterval.minutes_15 i h = ground arith
from_proto→to_proto AggregationInterval.hour_1 i h = ground arith
from_proto→to_proto AggregationInterval.hours_4 i h = ground arith
from_proto→to_proto AggregationInterval.day_1 i h = ground arith
from_proto→to_proto (AggregationInterval.other n) i h = cc

-- `ToProto` gives a value for an interval exactly when `FromProto` gives the interval for the value.
pub to_proto_iff_from_proto :
    (i : Text) (p : AggregationInterval) → (to_proto i ≡ ok p) ↔ (from_proto p ≡ ok i)
to_proto_iff_from_proto i p = (to_proto→from_proto i p, from_proto→to_proto p i)

-- `Duration` knows exactly the intervals that `ToProto` knows.
pub duration-to_proto : (i : Text) → is_ok (duration i) ≡ is_ok (to_proto i)
unfolding duration to_proto
duration-to_proto i = ground arith

-- Every known length is positive, and a day holds a whole number of bars of that length.
pub duration_divides_day :
    (i : Text) {d : ℕ} → duration i ≡ ok d → (0 < d) × (24 * 60 * minute % d ≡ 0)
unfolding duration
duration_divides_day i h = ground arith
