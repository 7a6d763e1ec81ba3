-- ===== src/Tests/Feed.antt =====
-- common/kafka, common/httpserver and services/market-data-collector at concrete inputs.
use analytics_system.Prelude.{
  ℕ, suc, ◌+◌, ◌≡◌, refl, Bool, true, false, List, [], ◌∷◌, ◌++◌, map, Option, none, some, is_some,
  ◌⊎◌, length, take, drop, ap, ap₂, pos,
}
use analytics_system.Prelude.Text.{Text, codes, text_eq}
use analytics_system.Kafka.{Message, ConsumerMessage}
use analytics_system.Kafka.Consumer.{ClaimEvent, Session, consume_claim}
use analytics_system.Kafka.Consumer.Claims.{end_event, world_after, accepted, consume_claim_lem}
use analytics_system.Kafka.Producer.{ProducerMessage, ProducerState, publish}
use analytics_system.Kafka.Producer.Publish.{Counted, plain_message, publish_sends}
use analytics_system.HttpServer.{Call, Run, recover_middleware}
use analytics_system.HttpServer.Recovery.{answer, recover_middleware_lem}
use analytics_system.Collector.{RawMessage, TradeEvent, PbMarketData, Formats, CollectorState}
use analytics_system.Collector.Log.{on_topic, collect, ticks_of}
use analytics_system.Collector.Pipeline.{handle_tick, process_ticks, ticks_arrive}
use analytics_system.Collector.Socket.{Frames, ReadEvent, Round, Connector}
use analytics_system.Tests.Common.{once}

abbrev record_at : ℕ → Text → ConsumerMessage
record_at offset value = record {
  key = codes "BTC";
  value = value;
  topic = codes "trades";
  partition = 0;
  offset = offset;
  timestamp = 0;
  headers = [];
}

-- A handler that counts the messages and refuses an empty one.
abbrev counting : Message → ℕ → Option Bool × ℕ
counting m n = (elim (m.value) [ [] ↦ some true | c ∷ cs ↦ none ], suc n)

abbrev claim_session : Session ℕ
claim_session = record { world = 0; marked = [] }

abbrev claimed : List ConsumerMessage
claimed = record_at 4 [] ∷ record_at 5 (codes "x") ∷ []

consume_claim_lem_example :
    consume_claim counting (map ClaimEvent.delivered claimed ++ (end_event none ∷ [])) claim_session
    ≡ (
      some none,
      record { world = world_after counting claimed 0; marked = accepted counting claimed 0 [] },
    )
consume_claim_lem_example = consume_claim_lem counting claimed none [] claim_session

abbrev taken : ProducerMessage → ℕ → Option Bool × ℕ
taken m n = (none, suc n)

abbrev producer_state : ProducerState ℕ
producer_state = record {
  world = record { world = 0; tries = 0; retries = 0; failures = 0; successes = 0 };
  publish_errors = 0;
  publish_success = 0;
  ping_errors = 0;
  ping_success = 0;
}

publish_sends_example :
    let (r, s') =
      publish taken
        (once {cancelled = λ e. ⊥})
        0
        (codes "t")
        (codes "k")
        (codes "v")
        producer_state in
    Unit {0}
    × Counted r producer_state s'
    × ((is_some r ≡ true)
        ⊎ ((w : ℕ) × Unit {0}
            × (taken (plain_message (codes "t") (codes "k") (codes "v")) w
                ≡ (none, s'.world.world))))
publish_sends_example =
    publish_sends taken (once {cancelled = λ e. ⊥}) 0 (λ (n : ℕ). Unit {0}) (codes "t") (codes "k")
      (codes "v") producer_state (λ w h. tt) tt

abbrev late_panic : Run
late_panic = record { acts = Call.write (codes "a") ∷ Call.write_header 404 ∷ []; panicked = true }

recover_middleware_lem_example : (recover_middleware late_panic).calls ≡ answer late_panic
recover_middleware_lem_example = recover_middleware_lem late_panic

-- A trade is its price and its quantity, as one byte each.
abbrev trade_event : Text → Option TradeEvent
trade_event (p ∷ q ∷ rest) = some (record {
  event_time = pos 3;
  symbol = codes "BTC";
  price = p ∷ [];
  quantity = q ∷ [];
  trade_id = pos 7;
})
trade_event _ = none

abbrev one_byte : Text → Option ℕ
one_byte (c ∷ []) = some c
one_byte _ = none

abbrev byte_formats : Formats ℕ
byte_formats = record {
  decode_trade = trade_event;
  decode_depth = λ raw. none;
  parse_float = one_byte;
  float_zero = 0;
  marshal_trade = λ p. some (
      p.timestamp ∷ p.price ∷ p.volume ∷ p.bid_price ∷ p.ask_price ∷ length p.symbol ∷ p.symbol
      ++ p.trade_id);
  marshal_book = λ b. none;
}

abbrev read_tick : Text → Option (PbMarketData ℕ)
read_tick (t ∷ p ∷ v ∷ b ∷ a ∷ n ∷ rest) = some (record {
  timestamp = t;
  symbol = take n rest;
  price = p;
  volume = v;
  bid_price = b;
  ask_price = a;
  trade_id = drop n rest;
})
read_tick _ = none

take_front : (s t : Text) → take (length s) (s ++ t) ≡ s
take_front [] t = refl
take_front (c ∷ s) t = ap (◌∷◌ c) (take_front s t)

drop_front : (s t : Text) → drop (length s) (s ++ t) ≡ t
drop_front [] t = refl
drop_front (c ∷ s) t = drop_front s t

ticks_encoded :
    (p : PbMarketData ℕ)
    → (raw : Text) × (byte_formats.marshal_trade p ≡ some raw) × (read_tick raw ≡ some p)
ticks_encoded p = (
  p.timestamp ∷ p.price ∷ p.volume ∷ p.bid_price ∷ p.ask_price ∷ length p.symbol ∷ p.symbol
      ++ p.trade_id,
  refl,
  ap₂ (λ s t. some (record p { symbol = s; trade_id = t })) (take_front p.symbol p.trade_id)
      (drop_front p.symbol p.trade_id),
)

abbrev frames_seen : List RawMessage
frames_seen =
    record { raw_data = 5 ∷ 6 ∷ []; event_type = codes "trade" }
    ∷ record { raw_data = 5 ∷ []; event_type = codes "trade" }
    ∷ record { raw_data = []; event_type = codes "depthUpdate" }
    ∷ []

abbrev quiet_collector : CollectorState (List ConsumerMessage)
quiet_collector = record {
  world = [];
  events_total = 0;
  parse_errors = 0;
  serialize_errors = 0;
  publish_errors = 0;
}

-- A processor that adds up the prices.
abbrev summing : PbMarketData ℕ → ℕ → Option Bool × ℕ
summing tick n = (none, n + tick.price)

topics_apart : text_eq (codes "books") (codes "trades") ≡ false
unfolding text_eq
topics_apart = refl

ticks_arrive_example :
    let log =
      on_topic
        (codes "trades")
        (collect byte_formats (codes "trades") (codes "books") frames_seen quiet_collector).world in
    (map (λ (m : ConsumerMessage). m.key) log
      ≡ map (λ (p : PbMarketData ℕ). p.symbol) (ticks_of byte_formats frames_seen))
    × ((consume_claim
          (handle_tick read_tick true summing)
          (map ClaimEvent.delivered log ++ (end_event none ∷ []))
          (record { world = 0; marked = [] })).1.world
        ≡ process_ticks summing (ticks_of byte_formats frames_seen) 0)
ticks_arrive_example =
    ticks_arrive byte_formats read_tick true summing (codes "trades") (codes "books") frames_seen
      quiet_collector 0 none ticks_encoded topics_apart refl

abbrev plain_frames : Frames
plain_frames = record { unwrap = λ raw. none; event_of = λ raw. raw }

abbrev rounds : List (Round Bool)
rounds =
    record {
      stopping = false;
      connect_error = none;
      context_over = false;
      subscribe_error = some true;
      reads = [];
    }
    ∷ record {
      stopping = false;
      connect_error = none;
      context_over = false;
      subscribe_error = none;
      reads =
          ReadEvent.frame (codes "trade") true
          ∷ ReadEvent.frame (codes "trade") false
          ∷ ReadEvent.read_failed true
          ∷ [];
    }
    ∷ record {
      stopping = true;
      connect_error = none;
      context_over = false;
      subscribe_error = none;
      reads = [];
    }
    ∷ []

abbrev connector : Connector
connector = record {
  uncancelled = 0;
  subscribe_id = 0;
  connections = 0;
  channel = record { sent = []; dropped = 0 };
  channel_closed = false;
}
