-- ===== src/Collector/Log.antt =====
-- What the router of services/market-data-collector leaves on the log of a broker that takes every
-- message.
use analytics_system.Prelude.{
  append-nil, append_assoc, ◌+◌, ◌≡◌, refl, sym, ap, subst, ◌∙◌, true, false, List, [], ◌∷◌, ◌++◌,
  Option, none, some, inl, inr, length, filter, Bool-cases, Option-cases, if◌then◌else◌, arith,
}
use analytics_system.Prelude.Text.{Text, codes, text_eq, text_eq_refl, text_eq_iff}
use analytics_system.Prelude.Map.{lookup, insert}
use analytics_system.Kafka.{ConsumerMessage}
use analytics_system.Collector.{
  RawMessage, Processor, PbMarketData, Formats, CollectorState, publish_or_count, unix_milli,
  format_int, convert_all, process_trade, process_depth, route, run_router, register_processor,
  collector_router,
}

-- A broker that takes every message, as the log of its topics.
abbrev pub append_log :
    {E : Type 0} → Text → Text → Text → List ConsumerMessage → Option E × List ConsumerMessage
append_log topic key value log = (
  none,
  log
      ++ (record {
        key = key;
        value = value;
        topic = topic;
        partition = 0;
        offset = length log;
        timestamp = 0;
        headers = [];
      }
          ∷ []),
)

abbrev pub on_topic : Text → List ConsumerMessage → List ConsumerMessage
on_topic topic log = filter (λ m. text_eq m.topic topic) log

abbrev pub as_list : {A : Type 0} → Option A → List A
as_list none = []
as_list (some a) = a ∷ []

module _ {F : Type 0} (formats : Formats F) where
  -- The tick of a message of the exchange, if it is a trade that can be read: the price and the
  -- volume are those that its event names so.
  abbrev pub tick_of : RawMessage → Option (PbMarketData F)
  tick_of raw =
      if text_eq raw.event_type (codes "trade")
      then elim (formats.decode_trade raw.raw_data) [
        | none ↦ none
        | some evt ↦ elim (formats.parse_float evt.price) [
          | none ↦ none
          | some price ↦ elim (formats.parse_float evt.quantity) [
            | none ↦ none
            | some qty ↦ some (record {
              timestamp = unix_milli evt.event_time;
              symbol = evt.symbol;
              price = price;
              volume = qty;
              bid_price = formats.float_zero;
              ask_price = formats.float_zero;
              trade_id = format_int evt.trade_id;
            })
          ]
        ]
      ]
      else none

  abbrev pub ticks_of : List RawMessage → List (PbMarketData F)
  ticks_of [] = []
  ticks_of (raw ∷ rest) = as_list (tick_of raw) ++ ticks_of rest

-- Each message carries one tick, in order, under the symbol of the tick.
abbrev pub CarryAll :
    {F : Type 0}
    → (Text → Option (PbMarketData F))
    → List (PbMarketData F)
    → List ConsumerMessage
    → Type 0
CarryAll unmarshal [] [] = Unit {0}
CarryAll unmarshal [] (m ∷ ms) = ⊥
CarryAll unmarshal (tick ∷ ticks) [] = ⊥
CarryAll unmarshal (tick ∷ ticks) (m ∷ ms) =
    (unmarshal m.value ≡ some tick) × (m.key ≡ tick.symbol) × CarryAll unmarshal ticks ms

on_topic-append :
    (topic : Text) (a b : List ConsumerMessage)
    → on_topic topic (a ++ b) ≡ on_topic topic a ++ on_topic topic b
on_topic-append topic [] b = refl
on_topic-append topic (m ∷ a) b = elim (Bool-cases (text_eq m.topic topic)) [
  | inl same ↦ rw (same, filter) (ap (◌∷◌ m) (on_topic-append topic a b))
  | inr other ↦ rw (other, filter) (on_topic-append topic a b)
]

text_eq_sym : (a b : Text) → text_eq a b ≡ text_eq b a
text_eq_sym a b = ground (arith, text_eq_iff a b, text_eq_iff b a)

module _ {E W : Type 0} (trade depth : Processor E W) where
  lookup_trade :
      (k : Text)
      → text_eq k (codes "trade") ≡ true
      → lookup k (collector_router trade depth) ≡ some trade
  unfolding collector_router register_processor insert lookup text_eq
  lookup_trade k e =
      subst (λ j. lookup j (collector_router trade depth) ≡ some trade)
        (sym ((text_eq_iff k (codes "trade")).0 e)) refl

  router_entries :
      collector_router trade depth ≡ (codes "trade", trade) ∷ (codes "depthUpdate", depth) ∷ []
  unfolding collector_router register_processor insert text_eq
  router_entries = refl

  lookup_other :
      (k : Text)
      → text_eq k (codes "trade") ≡ false
      → lookup k (collector_router trade depth)
        ≡ (if text_eq k (codes "depthUpdate") then some depth else none)
  unfolding lookup
  lookup_other k e =
      ap (lookup k) router_entries
      ∙ rw (text_eq_sym (codes "trade") k, e, text_eq_sym (codes "depthUpdate") k) refl

-- The state of the collector next to the log of the broker.
abbrev pub Log : Type 0
Log = CollectorState (List ConsumerMessage)

-- The router of the collector, over a broker that takes all.
module _ {F : Type 0} (formats : Formats F) (trades books : Text) where
  abbrev collect_one : RawMessage → Log → Log
  collect_one = route {E = ⊥} (
      collector_router (process_trade formats append_log trades)
        (process_depth formats append_log books))

  abbrev pub collect : List RawMessage → Log → Log
  collect = run_router {E = ⊥} (
      collector_router (process_trade formats append_log trades)
        (process_depth formats append_log books))

module _ {F : Type 0} (formats : Formats F) (unmarshal : Text → Option (PbMarketData F))
    (encoded : (p : PbMarketData F)
      → (raw : Text) × (formats.marshal_trade p ≡ some raw) × (unmarshal raw ≡ some p))
    (trades books : Text) where
  process_trade_tick :
      (raw : RawMessage) (tick : PbMarketData F) (bytes : Text) (s : Log)
      → tick_of formats raw ≡ some tick
      → formats.marshal_trade tick ≡ some bytes
      → process_trade {E = ⊥} formats append_log trades raw s ≡ (
        none,
        record s {
          events_total = s.events_total + 1;
          world = (append_log {E = ⊥} trades tick.symbol bytes s.world).1;
        },
      )
  unfolding process_trade publish_or_count
  process_trade_tick raw tick bytes s e f = ground (arith, e)

  process_trade_other :
      (raw : RawMessage) (s : Log)
      → tick_of formats raw ≡ none
      → ((process_trade {E = ⊥} formats append_log trades raw s).0 ≡ none)
        × ((process_trade {E = ⊥} formats append_log trades raw s).1.world ≡ s.world)
  unfolding process_trade
  process_trade_other raw s e = (ground (arith, e), ground (arith, e))

  publish_elsewhere :
      (symbol : Text) (bytes : Option Text) (s : Log)
      → text_eq books trades ≡ false
      → on_topic trades (publish_or_count (append_log {E = ⊥}) books symbol bytes s).1.world
        ≡ on_topic trades s.world
  unfolding publish_or_count
  publish_elsewhere symbol none s apart = refl
  publish_elsewhere symbol (some bytes) s apart =
      on_topic-append trades s.world _ ∙ rw (apart, filter) (append-nil (on_topic trades s.world))

  process_depth_log :
      (raw : RawMessage) (s : Log)
      → text_eq books trades ≡ false
      → on_topic trades (process_depth {E = ⊥} formats append_log books raw s).1.world
        ≡ on_topic trades s.world
  unfolding process_depth
  process_depth_log raw s apart = elim (Bool-cases (text_eq raw.event_type (codes "depthUpdate"))) [
    | inl depth ↦ elim (Option-cases (formats.decode_depth raw.raw_data)) [
      | inl bad ↦ rw (depth, process_depth, bad) refl
      | inr (evt, good) ↦
          rw (depth, process_depth, good)
            (publish_elsewhere evt.symbol
              (formats.marshal_book (record {
                timestamp = unix_milli evt.event_time;
                symbol = evt.symbol;
                bids = convert_all formats.parse_float evt.bids;
                asks = convert_all formats.parse_float evt.asks;
              }))
              (record s { events_total = s.events_total + 1 }) apart)
    ]
    | inr other ↦ rw (other, process_depth) refl
  ]

  route_trade :
      (raw : RawMessage) (s : Log)
      → text_eq raw.event_type (codes "trade") ≡ true
      → (process_trade {E = ⊥} formats append_log trades raw s).0 ≡ none
      → collect_one formats trades books raw s
        ≡ (process_trade {E = ⊥} formats append_log trades raw s).1
  unfolding route
  route_trade raw s e quiet =
      let found =
        lookup_trade (process_trade {E = ⊥} formats append_log trades)
          (process_depth formats append_log books) raw.event_type e in
      rw (found, route, quiet) refl

  route_depth :
      (raw : RawMessage) (s : Log)
      → text_eq books trades ≡ false
      → text_eq raw.event_type (codes "trade") ≡ false
      → on_topic trades (collect_one formats trades books raw s).world ≡ on_topic trades s.world
  unfolding route
  route_depth raw s apart e =
      let found =
        lookup_other (process_trade {E = ⊥} formats append_log trades)
          (process_depth formats append_log books) raw.event_type e in
      elim (Bool-cases (text_eq raw.event_type (codes "depthUpdate"))) [
        | inl depth ↦ elim (Option-cases (process_depth {E = ⊥} formats append_log books raw s).0) [
          | inl quiet ↦ rw (found, route, depth, quiet) (process_depth_log raw s apart)
          | inr (x, failed) ↦ rw (found, route, depth, failed) (process_depth_log raw s apart)
        ]
        | inr other ↦ rw (found, route, other) refl
      ]

  collect_one_log :
      (raw : RawMessage) (s : Log)
      → text_eq books trades ≡ false
      → (tail : List ConsumerMessage) × (on_topic trades
            (collect_one formats trades books raw s).world
          ≡ on_topic trades s.world ++ tail)
        × CarryAll unmarshal (as_list (tick_of formats raw)) tail
  collect_one_log raw s apart = elim (Bool-cases (text_eq raw.event_type (codes "trade"))) [
    | inl trade ↦ elim (Option-cases (tick_of formats raw)) [
      | inl nothing ↦
          let (quiet, same) = process_trade_other raw s nothing in
          (
            [],
            ap (λ (x : Log). on_topic trades x.world) (route_trade raw s trade quiet)
                ∙ ap (on_topic trades) same
                ∙ sym (append-nil (on_topic trades s.world)),
            rw nothing tt,
          )
      | inr (tick, here) ↦
          let (bytes, marshalled, read) = encoded tick in
          let path = process_trade_tick raw tick bytes s here marshalled in
          (
            record {
              key = tick.symbol;
              value = bytes;
              topic = trades;
              partition = 0;
              offset = length s.world;
              timestamp = 0;
              headers = [];
            }
                ∷ [],
            ap (λ (x : Log). on_topic trades x.world)
                  (route_trade raw s trade (ap (λ x. x.0) path) ∙ ap (λ x. x.1) path)
                ∙ on_topic-append trades s.world _
                ∙ rw (text_eq_refl trades, filter) refl,
            rw here (read, refl, tt),
          )
    ]
    | inr other ↦ (
      [],
      route_depth raw s apart other ∙ sym (append-nil (on_topic trades s.world)),
      rw other tt,
    )
  ]

  CarryAll-append :
      (ticks ticks' : List (PbMarketData F)) (ms ms' : List ConsumerMessage)
      → CarryAll unmarshal ticks ms
      → CarryAll unmarshal ticks' ms'
      → CarryAll unmarshal (ticks ++ ticks') (ms ++ ms')
  CarryAll-append [] ticks' [] ms' h h' = h'
  CarryAll-append [] ticks' (m ∷ ms) ms' h h' = absurd h
  CarryAll-append (t ∷ ticks) ticks' [] ms' h h' = absurd h
  CarryAll-append (t ∷ ticks) ticks' (m ∷ ms) ms' h h' =
      (h.0, h.1, CarryAll-append ticks ticks' ms ms' h.2 h')

  pub collect_log :
      (raws : List RawMessage) (s : Log)
      → text_eq books trades ≡ false
      → (tail : List ConsumerMessage) × (on_topic trades (collect formats trades books raws s).world
          ≡ on_topic trades s.world ++ tail)
        × CarryAll unmarshal (ticks_of formats raws) tail
  unfolding run_router
  collect_log [] s apart = ([], sym (append-nil (on_topic trades s.world)), tt)
  collect_log (raw ∷ raws) s apart =
      let (head, one, carries) = collect_one_log raw s apart in
      let (tail, more, carry) = collect_log raws (collect_one formats trades books raw s) apart in
      (
        head ++ tail,
        more ∙ ap (λ x. x ++ tail) one ∙ append_assoc (on_topic trades s.world) head tail,
        (CarryAll-append (as_list (tick_of formats raw)) (ticks_of formats raws) head tail carries
            carry),
      )
