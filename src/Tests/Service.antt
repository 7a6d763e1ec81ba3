-- ===== src/Tests/Service.antt =====
-- services/analytics-api and the configuration of services/preprocessor at concrete inputs.
use analytics_system.Prelude.{
  Bool, true, Result, ok, ℕ, ◌≡◌, refl, false, List, [], ◌∷◌, is_ok, all, ltb, leb, arith,
}
use analytics_system.Prelude.Text.{Text, codes}
use analytics_system.Interval.{AggregationInterval}
use analytics_system.Analytics.{Code, CandleEvent}
use analytics_system.Analytics.Subscription.{Input, Phase, Subscribed}
use analytics_system.Settings.{FloatTests}
use analytics_system.Settings.Load.{PreprocessorConfig, required, loader_defaults, load, load-is_ok}

abbrev some_name : AggregationInterval → Text
some_name i = codes "AGG_INTERVAL_1_MINUTE"

abbrev unsubscribed : Subscribed ℕ
unsubscribed = record {
  started = false;
  ack_count = 0;
  sent_count = 0;
  subscriptions = [];
  out = [];
  taken = 0;
  phase = Phase.idle;
  returned = false;
}

abbrev lost : CandleEvent ℕ
lost = CandleEvent.failure Code.internal []

abbrev inputs : List (Input ℕ)
inputs =
    Input.stream_event lost
    ∷ Input.subscribe (codes "BTC") AggregationInterval.minute_1
    ∷ Input.subscribe (codes "ETH") AggregationInterval.minute_1
    ∷ Input.stream_event lost
    ∷ Input.forward
    ∷ Input.ack
    ∷ Input.forward
    ∷ Input.received
    ∷ []

-- Floats in tenths.
abbrev tenths : FloatTests ℕ
tenths = record {
  less = ltb;
  at_most = leb;
  float_zero = 0;
  half = 5;
  float_one = 10;
  float_two = 20;
}

-- A file that leaves out the brokers of the consumer.
abbrev without_brokers : PreprocessorConfig ℕ → Result Bool (PreprocessorConfig ℕ)
without_brokers c =
    ok (record c { kafka_consumer = record (c.kafka_consumer) { consumer_brokers = [] } })

load-is_ok_example :
    (is_ok (load tenths {X = Bool} (λ c. ok c)) ≡ true)
    × (is_ok (load tenths without_brokers)
        ≡ all
            (λ b. b)
            (required tenths (record (loader_defaults tenths) {
              kafka_consumer = record ((loader_defaults tenths).kafka_consumer) {
                consumer_brokers = [];
              };
            })))
load-is_ok_example = load-is_ok tenths Bool without_brokers (λ x e. ground (arith, e)) refl refl
