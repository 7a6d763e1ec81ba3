-- ===== src/Collector/Pipeline.antt =====
-- From the web socket to the aggregator: the router and the processors of
-- services/market-data-collector, the log of a topic, the claim of common/kafka/consumer, and
-- services/preprocessor/internal/kafka/consumer.go.
use analytics_system.Prelude.{
  ◌≡◌, refl, ap, ◌∙◌, false, List, [], ◌∷◌, ◌++◌, map, Option, none, some,
}
use analytics_system.Prelude.Text.{Text, text_eq}
use analytics_system.Kafka.{Message, ConsumerMessage}
use analytics_system.Kafka.Consumer.{message_of, ClaimEvent, consume_claim}
use analytics_system.Kafka.Consumer.Claims.{world_after, end_event, consume_claim_lem}
use analytics_system.Collector.{RawMessage, PbMarketData, Formats, CollectorState}
use analytics_system.Collector.Log.{on_topic, ticks_of, CarryAll, collect, collect_log}

-- The closure of `Consumer.Run`: what is not a tick is refused, and a tick goes to the processor.
unfoldable pub handle_tick :
    {E F W : Type 0}
    → (Text → Option (PbMarketData F))
    → E
    → (PbMarketData F → W → Option E × W)
    → Message
    → W
    → Option E × W
handle_tick unmarshal invalid_message processor msg w = elim (unmarshal msg.value) [
  | none ↦ (some invalid_message, w)
  | some tick ↦ processor tick w
]

-- The processor has the ticks, one after the other.
abbrev pub process_ticks :
    {E F W : Type 0} → (PbMarketData F → W → Option E × W) → List (PbMarketData F) → W → W
process_ticks processor [] w = w
process_ticks processor (tick ∷ ticks) w = process_ticks processor ticks (processor tick w).1

module _ {E F W : Type 0} (formats : Formats F) (unmarshal : Text → Option (PbMarketData F))
    (invalid_message : E) (processor : PbMarketData F → W → Option E × W) where
  carried :
      (ticks : List (PbMarketData F)) (ms : List ConsumerMessage) (w : W)
      → CarryAll unmarshal ticks ms
      → world_after (handle_tick unmarshal invalid_message processor) ms w
        ≡ process_ticks processor ticks w
  unfolding handle_tick message_of
  carried [] [] w h = refl
  carried [] (m ∷ ms) w h = absurd h
  carried (tick ∷ ticks) [] w h = absurd h
  carried (tick ∷ ticks) (m ∷ ms) w h =
      rw (h.0, handle_tick) (carried ticks ms (processor tick w).1 h.2)

  carried_keys :
      (ticks : List (PbMarketData F)) (ms : List ConsumerMessage)
      → CarryAll unmarshal ticks ms
      → map (λ (m : ConsumerMessage). m.key) ms ≡ map (λ (p : PbMarketData F). p.symbol) ticks
  carried_keys [] [] h = refl
  carried_keys [] (m ∷ ms) h = absurd h
  carried_keys (tick ∷ ticks) [] h = absurd h
  carried_keys (tick ∷ ticks) (m ∷ ms) h =
      ap (λ k. k ∷ map (λ (m : ConsumerMessage). m.key) ms) h.1
      ∙ ap (λ ks. tick.symbol ∷ ks) (carried_keys ticks ms h.2)

  -- Where the two topics differ and every tick is marshalled to bytes that are read back as the
  -- tick, the messages of the exchange, routed by the collector to a broker that takes them all,
  -- leave on the topic of the trades a log whose claim brings the processor of the preprocessor
  -- exactly the trades that can be read, each once, in the order in which they came, and with the
  -- price, the quantity, the symbol, the number and the time of the trade event; each message has the
  -- symbol as its key. All else that came is passed over.
  pub ticks_arrive :
      (trades books : Text) (raws : List RawMessage) (s : CollectorState (List ConsumerMessage))
      (w : W) (end : Option E)
      → ((p : PbMarketData F)
          → (raw : Text) × (formats.marshal_trade p ≡ some raw) × (unmarshal raw ≡ some p))
      → text_eq books trades ≡ false
      → s.world ≡ []
      → let log = on_topic trades (collect formats trades books raws s).world in
        (map (λ (m : ConsumerMessage). m.key) log
          ≡ map (λ (p : PbMarketData F). p.symbol) (ticks_of formats raws))
        × ((consume_claim
              (handle_tick unmarshal invalid_message processor)
              (map ClaimEvent.delivered log ++ (end_event end ∷ []))
              (record { world = w; marked = [] })).1.world
            ≡ process_ticks processor (ticks_of formats raws) w)
  ticks_arrive trades books raws s w end encoded apart empty =
      let (tail, log, carry) = collect_log formats unmarshal encoded trades books raws s apart in
      let on_log = log ∙ ap (λ x. on_topic trades x ++ tail) empty in
      (
        ap (map (λ (m : ConsumerMessage). m.key)) on_log
            ∙ carried_keys (ticks_of formats raws) tail carry,
        ap (λ x. x.1.world)
              (consume_claim_lem (handle_tick unmarshal invalid_message processor)
                (on_topic trades (collect formats trades books raws s).world) end []
                (record { world = w; marked = [] }))
            ∙ ap (λ ms. world_after (handle_tick unmarshal invalid_message processor) ms w) on_log
            ∙ carried (ticks_of formats raws) tail w carry,
      )
