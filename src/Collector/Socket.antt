-- ===== src/Collector/Socket.antt =====
-- services/market-data-collector/pkg/binance: ws.go and config.go. The web socket, JSON and the
-- retry loop that dials are parameters; what happens comes as a list of events.
pub mod Delivery
use analytics_system.Prelude.{
  ℕ, suc, append-nil, append_assoc, sym, ap, ◌∙◌, Bool-cases, Option-cases, ◌+◌, ◌*◌, ◌≡◌, Bool,
  true, false, List, [], ◌∷◌, ◌++◌, Option, none, some, Result, ok, err, inl, inr, ℤ, pos,
  is_positive, if◌then◌else◌, arith,
}
use analytics_system.Prelude.Text.{Text, codes, is_empty}
use analytics_system.Interval.{second}
use analytics_system.Collector.{RawMessage}

-- `Config`, less the configuration of the back-off.
pub record SocketConfig : Type 0 where
  pub url : Text
  pub streams : List Text
  pub buffer_size : ℤ
  pub read_timeout : ℤ
  pub subscribe_timeout : ℤ

-- `ApplyDefaults`
unfoldable pub socket_defaults : SocketConfig → SocketConfig
socket_defaults c = record c {
  buffer_size = if is_positive c.buffer_size then c.buffer_size else pos 10_000;
  read_timeout = if is_positive c.read_timeout then c.read_timeout else pos (30 * second);
  subscribe_timeout =
      if is_positive c.subscribe_timeout then c.subscribe_timeout else pos (5 * second);
}

pub data SocketError : Type 0 where
  url_required stream_required : SocketError

-- `Validate`
unfoldable pub socket_validate : SocketConfig → Option SocketError
socket_validate c =
    if is_empty c.url
    then some SocketError.url_required
    else elim (c.streams) [ [] ↦ some SocketError.stream_required | s ∷ ss ↦ none ]

-- `NewConnector`, as far as the configuration goes.
unfoldable pub new_connector : SocketConfig → Result SocketError SocketConfig
unfolding socket_defaults socket_validate
new_connector c = elim (socket_validate (socket_defaults c)) [
  | some e ↦ err e
  | none ↦ ok (socket_defaults c)
]

-- `json.Unmarshal` into the wrapper, whose data may be missing, and into the struct `meta`.
pub record Frames : Type 0 where
  pub unwrap : Text → Option Text
  pub event_of : Text → Text

-- A frame as a message: the data of a wrapper if there are any, and "unknown" without a type.
abbrev pub data_or_frame : Text → Option Text → Text
data_or_frame raw none = raw
data_or_frame raw (some []) = raw
data_or_frame raw (some (c ∷ cs)) = c ∷ cs

unfoldable pub message_of_frame : Frames → Text → RawMessage
message_of_frame frames raw =
    let bytes = data_or_frame raw (frames.unwrap raw) in
    record {
      raw_data = bytes;
      event_type =
          if is_empty (frames.event_of bytes) then codes "unknown" else frames.event_of bytes;
    }

-- What a round of `readLoop` meets: the end of the context, an error of the connection, or a frame,
-- with whether the channel has room for it.
pub data ReadEvent (E : Type 0) : Type 0 where
  context_done read_failed : E → ReadEvent E
  frame : Text → Bool → ReadEvent E

-- The messages that went to the channel, and the number of those that were dropped.
pub record Channel : Type 0 where
  pub sent : List RawMessage
  pub dropped : ℕ

-- `readLoop`; `none` is a loop that still reads.
unfoldable pub read_loop : {E : Type 0} → Frames → List (ReadEvent E) → Channel → Option E × Channel
unfolding message_of_frame
read_loop frames [] out = (none, out)
read_loop frames (ReadEvent.context_done e ∷ events) out = (some e, out)
read_loop frames (ReadEvent.read_failed e ∷ events) out = (some e, out)
read_loop frames (ReadEvent.frame raw true ∷ events) out =
    read_loop frames events
      (record { sent = out.sent ++ (message_of_frame frames raw ∷ []); dropped = out.dropped })
read_loop frames (ReadEvent.frame raw false ∷ events) out =
    read_loop frames events (record { sent = out.sent; dropped = suc out.dropped })

-- A round of `run`: whether the loop is to stop, whether the dial fails, whether the context has ended
-- when `subscribe` begins, whether its request fails, and what is read.
pub record Round (E : Type 0) : Type 0 where
  pub stopping : Bool
  pub connect_error : Option E
  pub context_over : Bool
  pub subscribe_error : Option E
  pub reads : List (ReadEvent E)

-- The connector: the pingers that the loop did not cancel, the identifier of the last subscription, the connections
-- that are open, and the channel with whether it is closed.
pub record Connector : Type 0 where
  pub uncancelled : ℕ
  pub subscribe_id : ℕ
  pub connections : ℕ
  pub channel : Channel
  pub channel_closed : Bool

abbrev shut : Connector → Connector
shut c = record c { channel_closed = true }

-- The part of a round of `run` after the dial: the pinger starts, the request is sent, and the
-- frames are read; only then is the pinger cancelled. A subscription in a context that has ended
-- returns before it takes an identifier.
unfoldable pub connected : {E : Type 0} → Frames → Round E → Connector → Connector
unfolding read_loop
connected frames r c =
    if r.context_over
    then record c { uncancelled = suc c.uncancelled }
    else elim (r.subscribe_error) [
      | some e ↦ record c { uncancelled = suc c.uncancelled; subscribe_id = suc c.subscribe_id }
      | none ↦ record c {
        subscribe_id = suc c.subscribe_id;
        channel = (read_loop frames r.reads c.channel).1;
      }
    ]

-- `run`, on the rounds in their order.
unfoldable pub run_connector : {E : Type 0} → Frames → List (Round E) → Connector → Connector
unfolding connected
run_connector frames [] c = c
run_connector frames (r ∷ rest) c =
    let after = run_connector frames rest (connected frames r c) in
    if r.stopping then shut c else elim (r.connect_error) [ some e ↦ shut c | none ↦ after ]
