-- ===== src/Storage/Sinks.antt =====
-- services/preprocessor/internal: storage/kafkasink/kafkasink.go, transport/marshaler.go, the sinks of
-- app.go and the candles that they leave for services/analytics-api.
use analytics_system.Prelude.{◌++◌, Option, none, some}
use analytics_system.Prelude.Text.{Text, codes}
use analytics_system.Aggregator.Candle.{Candle}
use analytics_system.Storage.Adapter.{PbCandle, Codec, candle_to_proto}

-- `MarshalCandleToKafka`
unfoldable pub marshal_candle : {F : Type 0} → Codec F → Candle F → Option Text
unfolding candle_to_proto
marshal_candle codec c = codec.marshal (candle_to_proto c)

-- `UnmarshalCandleFromBytes`
unfoldable pub unmarshal_candle : {F : Type 0} → Codec F → Text → Option (PbCandle F)
unmarshal_candle codec bytes = codec.unmarshal bytes

-- `Sink.FlushCandle` of the Kafka sink, over the interface of the producer: the topic is that of the
-- interval, and the key is the symbol.
unfoldable pub flush_to_kafka :
    {F W : Type 0}
    → Codec F
    → (Text → Text → Text → W → Option Text × W)
    → Text
    → Candle F
    → W
    → Option Text × W
unfolding marshal_candle
flush_to_kafka codec publish prefix c w = elim (marshal_candle codec c) [
  | none ↦ (some (codes "kafka-sink: marshal"), w)
  | some bytes ↦
      let (r, w') = publish (prefix ++ (codes "." ++ c.interval)) c.symbol bytes w in
      (elim r [ none ↦ none | some e ↦ some (codes "kafka-sink: publish: " ++ e) ], w')
]
