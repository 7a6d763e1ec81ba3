-- ===== src/Collector.antt =====
-- services/market-data-collector: processor/trade.go, depth.go and dispatcher.go. JSON, the parse of
-- floats, protobuf and the producer of Kafka are parameters.
pub mod Log
pub mod Pipeline
pub mod Socket
use analytics_system.Prelude.{
  ℕ, zero, suc, ◌+◌, ◌-◌, ◌*◌, Bool, true, false, not, List, [], ◌∷◌, ◌++◌, map, Option, none, some,
  Result, ok, err, ℤ, pos, negsuc, if◌then◌else◌,
}
use analytics_system.Prelude.Text.{Text, codes, text_eq}
use analytics_system.Prelude.Map.{Map, lookup, insert}
use analytics_system.Interval.{second}
use analytics_system.Query.{digits_onto}

-- `binance.RawMessage`
pub record RawMessage : Type 0 where
  pub raw_data : Text
  pub event_type : Text

-- The struct `evt` of trade.go, less the type that it repeats.
pub record TradeEvent : Type 0 where
  pub event_time : ℤ
  pub symbol : Text
  pub price : Text
  pub quantity : Text
  pub trade_id : ℤ

-- The struct `evt` of depth.go.
pub record DepthEvent : Type 0 where
  pub event_time : ℤ
  pub symbol : Text
  pub bids : List (List Text)
  pub asks : List (List Text)

-- `marketdatapb.MarketData`
pub record PbMarketData (F : Type 0) : Type 0 where
  pub timestamp : ℕ
  pub symbol : Text
  pub price : F
  pub volume : F
  pub bid_price : F
  pub ask_price : F
  pub trade_id : Text

-- `marketdatapb.OrderBookLevel` and `OrderBookSnapshot`
pub record OrderBookLevel (F : Type 0) : Type 0 where
  pub price : F
  pub quantity : F

pub record OrderBookSnapshot (F : Type 0) : Type 0 where
  pub timestamp : ℕ
  pub symbol : Text
  pub bids : List (OrderBookLevel F)
  pub asks : List (OrderBookLevel F)

-- `time.UnixMilli`, in nanoseconds since Go's zero time.
unfoldable pub unix_milli : ℤ → ℕ
unix_milli (pos ms) = 62_135_596_800 * second + ms * 1_000_000
unix_milli (negsuc ms) = 62_135_596_800 * second - suc ms * 1_000_000

-- `strconv.FormatInt(n, 10)`
unfoldable pub format_int : ℤ → Text
unfolding digits_onto
format_int (pos n) = digits_onto n n []
format_int (negsuc n) = 45 ∷ digits_onto (suc n) (suc n) []

-- `json.Unmarshal` into the two structs, `strconv.ParseFloat`, the float 0, and `proto.Marshal`.
pub record Formats (F : Type 0) : Type 0 where
  pub decode_trade : Text → Option TradeEvent
  pub decode_depth : Text → Option DepthEvent
  pub parse_float : Text → Option F
  pub float_zero : F
  pub marshal_trade : PbMarketData F → Option Text
  pub marshal_book : OrderBookSnapshot F → Option Text

-- The producer, and the metrics of the package.
pub record CollectorState (W : Type 0) : Type 0 where
  pub world : W
  pub events_total : ℕ
  pub parse_errors : ℕ
  pub serialize_errors : ℕ
  pub publish_errors : ℕ

-- An error of `Process`: that of `proto.Marshal`, or that of the producer.
pub data ProcessError (E : Type 0) : Type 0 where
  not_serialized : ProcessError E
  not_published : E → ProcessError E

abbrev pub Processor : Type 0 → Type 0 → Type 0
Processor E W = RawMessage → CollectorState W → Option (ProcessError E) × CollectorState W

abbrev count_event : {W : Type 0} → CollectorState W → CollectorState W
count_event s = record s { events_total = s.events_total + 1 }

abbrev count_parse_error : {W : Type 0} → CollectorState W → CollectorState W
count_parse_error s = record s { parse_errors = s.parse_errors + 1 }

-- The last part of both methods: publication under the symbol as key.
unfoldable pub publish_or_count :
    {E W : Type 0}
    → (Text → Text → Text → W → Option E × W)
    → Text
    → Text
    → Option Text
    → CollectorState W
    → Option (ProcessError E) × CollectorState W
publish_or_count publish topic symbol none s =
    (some ProcessError.not_serialized, record s { serialize_errors = s.serialize_errors + 1 })
publish_or_count publish topic symbol (some bytes) s =
    let (r, w) = publish topic symbol bytes s.world in
    elim r [
      | none ↦ (none, record s { world = w })
      | some e ↦ (
        some (ProcessError.not_published e),
        record s { world = w; publish_errors = s.publish_errors + 1 },
      )
    ]

-- The message of a trade.
abbrev pub trade_message : {F : Type 0} → F → TradeEvent → F → F → PbMarketData F
trade_message float_zero evt price qty = record {
  timestamp = unix_milli evt.event_time;
  symbol = evt.symbol;
  price = price;
  volume = qty;
  bid_price = float_zero;
  ask_price = float_zero;
  trade_id = format_int evt.trade_id;
}

-- The closure `convert` of depth.go.
unfoldable pub convert : {F : Type 0} → (Text → Option F) → List Text → Option (OrderBookLevel F)
convert parse_float [] = none
convert parse_float (p ∷ []) = none
convert parse_float (p ∷ q ∷ rest) = elim (parse_float p) [
  | none ↦ none
  | some price ↦ elim (parse_float q) [
    | none ↦ none
    | some qty ↦ some (record { price = price; quantity = qty })
  ]
]

-- The loops over the bids and the asks: a level that cannot be read is passed over.
unfoldable pub convert_all :
    {F : Type 0} → (Text → Option F) → List (List Text) → List (OrderBookLevel F)
unfolding convert
convert_all parse_float [] = []
convert_all parse_float (entry ∷ rest) =
    let levels = convert_all parse_float rest in
    elim (convert parse_float entry) [ none ↦ levels | some lvl ↦ lvl ∷ levels ]

module _ {E F W : Type 0} (formats : Formats F) (publish : Text → Text → Text → W → Option E × W)
    (topic : Text) where
  -- `tradeProcessor.Process`: what cannot be read is counted and dropped without an error.
  unfoldable pub process_trade : Processor E W
  unfolding text_eq publish_or_count unix_milli format_int
  process_trade raw s =
      if not (text_eq raw.event_type (codes "trade"))
      then (none, s)
      else elim (formats.decode_trade raw.raw_data) [
        | none ↦ (none, count_parse_error (count_event s))
        | some evt ↦ elim (formats.parse_float evt.price) [
          | none ↦ (none, count_parse_error (count_event s))
          | some price ↦ elim (formats.parse_float evt.quantity) [
            | none ↦ (none, count_parse_error (count_event s))
            | some qty ↦
                publish_or_count publish topic evt.symbol
                  (formats.marshal_trade (trade_message formats.float_zero evt price qty))
                  (count_event s)
          ]
        ]
      ]

  -- `depthProcessor.Process`
  unfoldable pub process_depth : Processor E W
  unfolding text_eq publish_or_count unix_milli convert_all
  process_depth raw s =
      if not (text_eq raw.event_type (codes "depthUpdate"))
      then (none, s)
      else elim (formats.decode_depth raw.raw_data) [
        | none ↦ (none, count_parse_error (count_event s))
        | some evt ↦
            publish_or_count publish topic evt.symbol
              (formats.marshal_book (record {
                timestamp = unix_milli evt.event_time;
                symbol = evt.symbol;
                bids = convert_all formats.parse_float evt.bids;
                asks = convert_all formats.parse_float evt.asks;
              }))
              (count_event s)
      ]

module _ {E W : Type 0} where
  -- `DispatchRouter.Register`
  unfoldable pub register_processor :
      Text → Processor E W → Map (Processor E W) → Map (Processor E W)
  unfolding insert
  register_processor event_type proc processors = insert event_type proc processors

  -- The body of the loop of `Run`: an error is counted, and the loop goes on.
  unfoldable pub route : Map (Processor E W) → RawMessage → CollectorState W → CollectorState W
  unfolding lookup
  route processors msg s = elim (lookup msg.event_type processors) [
    | none ↦ s
    | some proc ↦
        let (r, s') = proc msg s in
        elim r [ none ↦ s' | some e ↦ record s' { publish_errors = s'.publish_errors + 1 } ]
  ]

  -- `DispatchRouter.Run`, on the messages of the channel up to its end; it returns no error.
  unfoldable pub run_router :
      Map (Processor E W) → List RawMessage → CollectorState W → CollectorState W
  unfolding route
  run_router processors [] s = s
  run_router processors (msg ∷ rest) s = run_router processors rest (route processors msg s)

-- The router of app/collector.go.
unfoldable pub collector_router :
    {E W : Type 0} → Processor E W → Processor E W → Map (Processor E W)
unfolding register_processor
collector_router trade depth =
    register_processor (codes "depthUpdate") depth (register_processor (codes "trade") trade [])
