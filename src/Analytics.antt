-- ===== src/Analytics.antt =====
-- services/analytics-api/internal: usecase/handler.go, usecase/get_symbols.go, storage/kafka/consumer.go
-- and transport/grpc/handler.go. The names of the intervals, which protoc generates, the repository
-- and the stream of the call are parameters.
pub mod Subscription
use analytics_system.Prelude.{
  ℕ, suc, ◌+◌, ◌-◌, Bool, true, false, not, ◌&&◌, ◌||◌, List, [], ◌∷◌, ◌++◌, Option, none, some,
  Result, ok, err, is_nil, ltb, if◌then◌else◌, is_some,
}
use analytics_system.Prelude.Text.{Text, codes, is_empty, equal_fold}
use analytics_system.Interval.{AggregationInterval}
use analytics_system.Kafka.{Message}
use analytics_system.Storage.Adapter.{PbCandle}
use analytics_system.Timescale.{Pagination, ReadError}

-- The codes of google.golang.org/grpc that the service returns.
pub data Code : Type 0 where
  invalid_argument internal unavailable : Code

-- `analyticspb.CandleEvent`: a candle, or the code and the text of an error.
pub data CandleEvent (F : Type 0) : Type 0 where
  candle : PbCandle F → CandleEvent F
  failure : Code → Text → CandleEvent F

-- The closure that `ConsumeCandles` gives to the consumer: messages of another key are passed over,
-- and none is refused.
unfoldable pub consume_candle :
    {E F : Type 0}
    → (Text → Option (PbCandle F))
    → Text
    → Message
    → List (CandleEvent F)
    → Option E × List (CandleEvent F)
unfolding equal_fold
consume_candle unmarshal symbol msg out =
    if not (is_nil msg.key) && not (equal_fold msg.key symbol) then (none, out) else (
      none,
      out
          ++ (elim (unmarshal msg.value) [
            | none ↦ CandleEvent.failure Code.internal (codes "failed to unmarshal candle")
            | some c ↦ CandleEvent.candle c
          ]
              ∷ []),
    )

-- The end of the goroutine of `ConsumeCandles`: an error is passed on, unless the context is done.
unfoldable pub end_candles :
    {E F : Type 0} → (E → Text) → Option E → Bool → List (CandleEvent F) → List (CandleEvent F)
end_candles show none context_done out = out
end_candles show (some e) true out = out
end_candles show (some e) false out =
    out ++ (CandleEvent.failure Code.unavailable (codes "kafka consume failed: " ++ show e) ∷ [])

-- `analyticspb.QueryCandlesRequest`, less its metadata.
pub record QueryRequest : Type 0 where
  pub symbol : Text
  pub interval : AggregationInterval
  pub start : ℕ
  pub end : ℕ
  pub pagination : Option Pagination

-- `getHandler.Handle`, over `QueryCandles` of the repository: the interval goes on by its generated
-- name.
unfoldable pub handle_get :
    {E A : Type 0}
    → (AggregationInterval → Text)
    → (Text → Text → ℕ → ℕ → Option Pagination → Result E (List A × Text))
    → QueryRequest
    → Result E (List A × Text)
handle_get name_of query_candles req =
    query_candles req.symbol (name_of req.interval) req.start req.end req.pagination

-- `streamHandler.Handle` and `subscribeHandler.Handle`: the topic of an interval.
unfoldable pub stream_topic : Text → Text → Text
stream_topic topic_base interval = topic_base ++ (codes "." ++ interval)

-- `getSymbolsHandler.Handle`
unfoldable pub handle_symbols :
    {E : Type 0}
    → (Option Pagination → Result E (List Text × Text))
    → Option Pagination
    → Result E (List Text × Text)
handle_symbols list_symbols pagination = list_symbols pagination

unfoldable pub is_unspecified : AggregationInterval → Bool
is_unspecified AggregationInterval.unspecified = true
is_unspecified AggregationInterval.minute_1 = false
is_unspecified AggregationInterval.minutes_5 = false
is_unspecified AggregationInterval.minutes_15 = false
is_unspecified AggregationInterval.hour_1 = false
is_unspecified AggregationInterval.hours_4 = false
is_unspecified AggregationInterval.day_1 = false
is_unspecified (AggregationInterval.other n) = false

-- `Server.GetCandles`
unfoldable pub server_get_candles :
    {E A : Type 0}
    → (QueryRequest → Result E (List A × Text))
    → Option QueryRequest
    → Result Code (List A × Text)
unfolding is_unspecified
server_get_candles handle none = err Code.invalid_argument
server_get_candles handle (some req) =
    if is_empty req.symbol || is_unspecified req.interval
    then err Code.invalid_argument
    else elim (handle req) [ err e ↦ err Code.internal | ok resp ↦ ok resp ]

-- What a stream of the server waits for: the end of the call, or a message or the end of the
-- channel.
pub data StreamEvent (A : Type 0) : Type 0 where
  call_done : StreamEvent A
  received : A → StreamEvent A
  channel_closed : StreamEvent A

-- The loop of `StreamCandles` and `SubscribeCandles`: what is sent, in order, until a send fails.
unfoldable pub send_loop :
    {A W : Type 0}
    → (A → W → Bool × W)
    → List (StreamEvent A)
    → W
    → Option (Result Code (Unit {0})) × W
send_loop send [] w = (none, w)
send_loop send (StreamEvent.call_done ∷ events) w = (some (ok tt), w)
send_loop send (StreamEvent.channel_closed ∷ events) w = (some (ok tt), w)
send_loop send (StreamEvent.received a ∷ events) w =
    let (sent, w') = send a w in
    let rest = send_loop send events w' in if sent then rest else (some (err Code.unavailable), w')
