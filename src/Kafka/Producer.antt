-- ===== src/Kafka/Producer.antt =====
-- common/kafka/producer/producer.go and its config.go.
pub mod Publish
use analytics_system.Prelude.{
  ℕ, ◌+◌, ◌*◌, Bool, true, false, List, [], ◌∷◌, Option, none, some, Result, ok, err, ℤ, pos,
  is_positive, if◌then◌else◌,
}
use analytics_system.Prelude.Text.{Text, codes, text_eq, to_lower, is_empty}
use analytics_system.Interval.{second}
use analytics_system.Backoff.{Fault, temporary, RetryNotify, ErrMaxRetries, Counters, execute}
use analytics_system.Kafka.{Message}

-- `Config`, less the configuration of the back-off.
pub record ProducerConfig : Type 0 where
  pub brokers : List Text
  pub required_acks : Text
  pub timeout : ℤ
  pub compression : Text
  pub flush_frequency : ℤ
  pub flush_messages : ℤ

-- `ApplyDefaults`
unfoldable pub producer_defaults : ProducerConfig → ProducerConfig
producer_defaults c = record c {
  timeout = if is_positive c.timeout then c.timeout else pos (5 * second);
  required_acks = if is_empty c.required_acks then codes "all" else c.required_acks;
  compression = if is_empty c.compression then codes "none" else c.compression;
}

-- `Validate`: whether there are brokers.
unfoldable pub producer_is_valid : ProducerConfig → Bool
producer_is_valid c = elim (c.brokers) [ [] ↦ false | b ∷ bs ↦ true ]

pub data Acks : Type 0 where
  wait_for_all wait_for_local no_response : Acks

pub data Codec : Type 0 where
  plain gzip snappy lz4 zstd : Codec

-- The fields of `sarama.Config` that `buildSaramaConfig` sets.
pub record SaramaConfig : Type 0 where
  pub acks : Acks
  pub codec : Codec
  pub return_successes : Bool
  pub return_errors : Bool
  pub idempotent : Bool
  pub max_open_requests : ℕ
  pub producer_timeout : ℤ
  pub frequency : Option ℤ
  pub messages : Option ℤ

pub data BuildError : Type 0 where
  invalid_required_acks invalid_compression : Text → BuildError

unfoldable pub acks_of : Text → Option Acks
unfolding text_eq to_lower
acks_of s =
    if text_eq (to_lower s) (codes "all")
    then some Acks.wait_for_all
    else if text_eq (to_lower s) (codes "leader")
    then some Acks.wait_for_local
    else if text_eq (to_lower s) (codes "none")
    then some Acks.no_response
    else none

unfoldable pub codec_of : Text → Option Codec
unfolding text_eq to_lower
codec_of s =
    if text_eq (to_lower s) (codes "none")
    then some Codec.plain
    else if text_eq (to_lower s) (codes "gzip")
    then some Codec.gzip
    else if text_eq (to_lower s) (codes "snappy")
    then some Codec.snappy
    else if text_eq (to_lower s) (codes "lz4")
    then some Codec.lz4
    else if text_eq (to_lower s) (codes "zstd")
    then some Codec.zstd
    else none

-- `buildSaramaConfig`
unfoldable pub build_sarama_config : ProducerConfig → Result BuildError SaramaConfig
unfolding acks_of codec_of
build_sarama_config c = elim (acks_of c.required_acks) [
  | none ↦ err (BuildError.invalid_required_acks c.required_acks)
  | some acks ↦ elim (codec_of c.compression) [
    | none ↦ err (BuildError.invalid_compression c.compression)
    | some codec ↦ ok (record {
      acks = acks;
      codec = codec;
      return_successes = true;
      return_errors = true;
      idempotent = true;
      max_open_requests = 1;
      producer_timeout = c.timeout;
      frequency = if is_positive c.flush_frequency then some c.flush_frequency else none;
      messages = if is_positive c.flush_messages then some c.flush_messages else none;
    })
  ]
]

-- `sarama.ProducerMessage`
pub record ProducerMessage : Type 0 where
  pub topic : Text
  pub key : Text
  pub value : Text
  pub headers : List (Text × Text)

-- The message that the closure `send` builds; the map of headers is visited in its order.
unfoldable pub producer_message : Message → ProducerMessage
producer_message msg = record {
  topic = msg.topic;
  key = msg.key;
  value = msg.value;
  headers = msg.headers;
}

-- The broker, and the metrics `PublishErrors`, `PublishSuccess`, `PingErrors` and `PingSuccess`.
pub record ProducerState (W : Type 0) : Type 0 where
  pub world : Counters W
  pub publish_errors : ℕ
  pub publish_success : ℕ
  pub ping_errors : ℕ
  pub ping_success : ℕ

module _ {E W : Type 0} (send_message : ProducerMessage → W → Option E × W) where
  -- The closure `send`
  unfoldable pub send_op : Message → Option ℕ → W → Option (Fault E) × W
  unfolding producer_message
  send_op msg ctx w =
      let (r, w') = send_message (producer_message msg) w in
      (elim r [ none ↦ none | some e ↦ some (temporary e) ], w')

  -- `PublishMessage`
  unfoldable pub publish_message :
      {cancelled : E → Type 0}
      → RetryNotify E cancelled (Counters W)
      → ℕ
      → Message
      → ProducerState W
      → Option (ErrMaxRetries E) × ProducerState W
  unfolding send_op execute
  publish_message lib per_attempt_timeout msg s =
      let (r, c) = execute lib per_attempt_timeout (send_op msg) (λ e delay tries v. v) s.world in
      (
        r,
        record s {
          world = c;
          publish_errors = elim r [ some x ↦ s.publish_errors + 1 | none ↦ s.publish_errors ];
          publish_success = elim r [ some x ↦ s.publish_success | none ↦ s.publish_success + 1 ];
        },
      )

  -- `Publish`
  unfoldable pub publish :
      {cancelled : E → Type 0}
      → RetryNotify E cancelled (Counters W)
      → ℕ
      → Text
      → Text
      → Text
      → ProducerState W
      → Option (ErrMaxRetries E) × ProducerState W
  unfolding publish_message
  publish lib per_attempt_timeout topic key value s =
      publish_message lib per_attempt_timeout
        (record {
          key = key;
          value = value;
          topic = topic;
          partition = 0;
          offset = 0;
          timestamp = 0;
          headers = [];
        })
        s

-- `Ping`
unfoldable pub ping :
    {E W : Type 0} → (W → Option E × W) → ProducerState W → Option E × ProducerState W
ping refresh_metadata s =
    let (r, w) = refresh_metadata s.world.world in
    let c = record (s.world) { world = w } in
    elim r [
      | some e ↦ (some e, record s { world = c; ping_errors = s.ping_errors + 1 })
      | none ↦ (none, record s { world = c; ping_success = s.ping_success + 1 })
    ]

-- `Close`: the client stays open if the producer cannot be closed.
unfoldable pub close_producer :
    {E W : Type 0} → (W → Option E × W) → (W → Option E × W) → W → Option E × W
close_producer close_prod close_client w =
    let (r, w') = close_prod w in elim r [ some e ↦ (some e, w') | none ↦ close_client w' ]
