-- ===== src/Analytics/Subscription.antt =====
-- `subscribeHandler.Handle` of services/analytics-api/internal/usecase/handler.go: its two goroutines
-- as steps on the state that they share.
pub mod Invariant
use analytics_system.Prelude.{
  not, ◌&&◌, length, if_cases, Outcome, returns, panics, ◌>>=◌, ℕ, ◌+◌, ◌-◌, ◌≡◌, refl, ap, Bool,
  true, false, ◌||◌, ◌&&◌, not, all, List, [], ◌∷◌, ◌++◌, ltb, if◌then◌else◌, length, length-append,
  arith,
}
use analytics_system.Prelude.Text.{Text, codes, is_empty}
use analytics_system.Interval.{AggregationInterval}
use analytics_system.Analytics.{CandleEvent, stream_topic}

-- What the goroutines take: a request of the client to subscribe, an acknowledgement, a request
-- without either, the end of the requests, or an event of the stream of the subscription; the next
-- step of the goroutine that has taken an event; and the reader of the channel takes a response.
pub data Input (F : Type 0) : Type 0 where
  subscribe : Text → AggregationInterval → Input F
  ack : Input F
  no_payload : Input F
  requests_closed : Input F
  stream_event : CandleEvent F → Input F
  forward : Input F
  received : Input F

-- `analyticspb.CandleStreamResponse`
pub data StreamResponse (F : Type 0) : Type 0 where
  event : CandleEvent F → StreamResponse F
  control : Text → StreamResponse F

-- Where the goroutine of the stream stands: it waits for an event, sends one, compares the counts, or
-- sends the word to a slow client.
pub data Phase (F : Type 0) : Type 0 where
  idle : Phase F
  sending : CandleEvent F → Phase F
  checking controlling : Phase F

-- The variables of `Handle`, with the topics and symbols that were subscribed to, the last one
-- first, what was put on the channel so far and how much of it its reader has taken, and where the
-- goroutine of the stream stands. The goroutine of the requests closes the channel when it returns.
pub record Subscribed (F : Type 0) : Type 0 where
  pub started : Bool
  pub ack_count : ℕ
  pub sent_count : ℕ
  pub subscriptions : List (Text × Text)
  pub out : List (StreamResponse F)
  pub taken : ℕ
  pub phase : Phase F
  pub returned : Bool

abbrev pub too_slow : Text
too_slow = codes "client too slow"

abbrev pub active : {F : Type 0} → Phase F → Bool
active Phase.idle = false
active (Phase.sending evt) = true
active Phase.checking = true
active Phase.controlling = true

module _ {F : Type 0} (name_of : AggregationInterval → Text) (topic_base : Text)
    (consume_fails : Text → Text → Bool) where
  -- The case `CandleStreamRequest_Subscribe`
  unfoldable pub on_subscribe : Text → AggregationInterval → Subscribed F → Subscribed F
  unfolding stream_topic
  on_subscribe symbol interval s =
      let topic = stream_topic topic_base (name_of interval) in
      if s.started
      then s
      else if is_empty symbol || is_empty (name_of interval)
      then s
      else if consume_fails topic symbol
      then record s { returned = true }
      else record s { started = true; subscriptions = (topic, symbol) ∷ s.subscriptions }

  -- A round of the loop over the stream begins: the event is counted before it is sent.
  unfoldable pub on_event : CandleEvent F → Subscribed F → Subscribed F
  on_event evt s = record s { sent_count = s.sent_count + 1; phase = Phase.sending evt }

  -- A send on the channel of a hundred places: it panics if the channel is closed, and waits if it is
  -- full.
  unfoldable pub put : StreamResponse F → Phase F → Subscribed F → Outcome (Subscribed F)
  put r next s =
      if s.returned
      then panics
      else returns (
          if ltb (length s.out) (s.taken + 100)
          then record s { out = s.out ++ (r ∷ []); phase = next }
          else s)

  -- The next step of the round: the event, the comparison, and a word to a client that has more than a
  -- hundred events to acknowledge.
  unfoldable pub on_forward : Phase F → Subscribed F → Outcome (Subscribed F)
  unfolding put
  on_forward Phase.idle s = returns s
  on_forward (Phase.sending evt) s = put (StreamResponse.event evt) Phase.checking s
  on_forward Phase.checking s = returns (record s {
    phase = if ltb 100 (s.sent_count - s.ack_count) then Phase.controlling else Phase.idle;
  })
  on_forward Phase.controlling s = put (StreamResponse.control too_slow) Phase.idle s

  -- One step. Nothing comes from a stream that is not subscribed to, and the goroutine of the stream
  -- takes an event only when it is done with the one before; no request is read after the end of the
  -- requests, while the stream may go on.
  unfoldable pub subscribe_step : Input F → Subscribed F → Outcome (Subscribed F)
  unfolding on_subscribe on_event on_forward
  subscribe_step (Input.subscribe symbol interval) s =
      returns (if s.returned then s else on_subscribe symbol interval s)
  subscribe_step Input.ack s =
      returns (if s.returned then s else record s { ack_count = s.ack_count + 1 })
  subscribe_step Input.no_payload s = returns s
  subscribe_step Input.requests_closed s = returns (record s { returned = true })
  subscribe_step (Input.stream_event evt) s =
      returns (if s.started && not (active s.phase) then on_event evt s else s)
  subscribe_step Input.forward s = on_forward s.phase s
  subscribe_step Input.received s =
      returns (if ltb s.taken (length s.out) then record s { taken = s.taken + 1 } else s)

  unfoldable pub subscribe_run : List (Input F) → Subscribed F → Outcome (Subscribed F)
  unfolding subscribe_step
  subscribe_run [] s = returns s
  subscribe_run (i ∷ rest) s = do s' ← subscribe_step i s; subscribe_run rest s'
