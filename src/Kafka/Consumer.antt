-- ===== src/Kafka/Consumer.antt =====
-- common/kafka/consumer/consumer.go: the claim of one partition, and the loop over the sessions.
pub mod Claims
use analytics_system.Prelude.{
  ℕ, zero, suc, ◌+◌, Bool, true, false, List, [], ◌∷◌, ◌++◌, Option, none, some, Result, ok, err,
}
use analytics_system.Prelude.Text.{Text}
use analytics_system.Prelude.Map.{Map, insert}
use analytics_system.Backoff.{Fault, temporary, RetryNotify, ErrMaxRetries, Counters, execute}
use analytics_system.Kafka.{Message, RecordHeader, ConsumerMessage}

-- The loop that builds the map of headers: one without a key or a value is passed over.
unfoldable pub add_headers : List (Option RecordHeader) → Map Text → Map Text
unfolding insert
add_headers [] headers = headers
add_headers (none ∷ rest) headers = add_headers rest headers
add_headers (some h ∷ rest) headers = elim (h.header_key) [
  | none ↦ add_headers rest headers
  | some k ↦ elim (h.header_value) [
    | none ↦ add_headers rest headers
    | some v ↦ add_headers rest (insert k v headers)
  ]
]

unfoldable pub message_of : ConsumerMessage → Message
unfolding add_headers
message_of m = record {
  key = m.key;
  value = m.value;
  topic = m.topic;
  partition = m.partition;
  offset = m.offset;
  timestamp = m.timestamp;
  headers = add_headers m.headers [];
}

-- What a claim waits for: the end of the session, with the error of its context, a message, or the
-- end of the channel.
pub data ClaimEvent (E : Type 0) : Type 0 where
  session_done : E → ClaimEvent E
  delivered : ConsumerMessage → ClaimEvent E
  closed : ClaimEvent E

-- The state of the handler, and the messages that the session has marked, the last one first.
pub record Session (W : Type 0) : Type 0 where
  pub world : W
  pub marked : List ConsumerMessage

module _ {E W : Type 0} (handler : Message → W → Option E × W) where
  -- The body of the loop for one message: without an error of the handler it is marked.
  unfoldable pub handle_message : ConsumerMessage → Session W → Session W
  unfolding message_of
  handle_message m s =
      let (failed, w) = handler (message_of m) s.world in
      record { world = w; marked = elim failed [ none ↦ m ∷ s.marked | some e ↦ s.marked ] }

  -- `ConsumeClaim`, on the events in the order in which its `select` takes them; `none` is a claim
  -- that still waits.
  unfoldable pub consume_claim : List (ClaimEvent E) → Session W → Option (Option E) × Session W
  unfolding handle_message
  consume_claim [] s = (none, s)
  consume_claim (ClaimEvent.session_done e ∷ events) s = (some (some e), s)
  consume_claim (ClaimEvent.closed ∷ events) s = (some none, s)
  consume_claim (ClaimEvent.delivered m ∷ events) s = consume_claim events (handle_message m s)

-- How `Consume` ends: with the error of its context, or with that of a pause.
pub data ConsumeEnd (E : Type 0) : Type 0 where
  context_done : E → ConsumeEnd E
  pause_failed : ErrMaxRetries E → ConsumeEnd E

-- The metric `ConsumeErrors`, next to the state of the group.
pub record GroupState (W : Type 0) : Type 0 where
  pub world : Counters W
  pub consume_errors : ℕ

module _ {E W : Type 0} {cancelled : E → Type 0} (lib : RetryNotify E cancelled (Counters W))
    (per_attempt_timeout : ℕ) (session : W → Option E × W) (context_error : W → Option E × W)
    (pause : Option ℕ → W → Option E × W) where
  -- The closure `pause`, whose errors are tried again.
  unfoldable pub pause_op : Option ℕ → W → Option (Fault E) × W
  pause_op ctx w =
      let (r, w') = pause ctx w in (elim r [ none ↦ none | some e ↦ some (temporary e) ], w')

  -- One round of the loop of `Consume`: a session, and after one that fails a pause.
  unfoldable pub consume_round : GroupState W → Option (ConsumeEnd E) × GroupState W
  unfolding pause_op execute
  consume_round s =
      let (failed, w) = session s.world.world in
      let after_session = record (s.world) { world = w } in
      elim failed [
        | some e ↦
            let (stopped, c) =
              execute lib per_attempt_timeout pause_op (λ e delay tries v. v) after_session in
            (
              elim stopped [ none ↦ none | some x ↦ some (ConsumeEnd.pause_failed x) ],
              record { world = c; consume_errors = s.consume_errors + 1 },
            )
        | none ↦
            let (done, w') = context_error w in
            (
              elim done [ none ↦ none | some e ↦ some (ConsumeEnd.context_done e) ],
              record s { world = record after_session { world = w' } },
            )
      ]

  -- `Consume`, for at most as many sessions as there is fuel; `none` is a loop that goes on.
  unfoldable pub consume : ℕ → GroupState W → Option (ConsumeEnd E) × GroupState W
  unfolding consume_round
  consume zero s = (none, s)
  consume (suc fuel) s =
      let (ended, s') = consume_round s in
      let rest = consume fuel s' in elim ended [ some e ↦ (some e, s') | none ↦ rest ]
