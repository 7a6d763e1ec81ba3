-- ===== src/Analytics/Subscription/Invariant.antt =====
-- The runs of `subscribeHandler.Handle` of services/analytics-api/internal/usecase/handler.go: what
-- holds after them, and which of them panic.
use analytics_system.Prelude.{
  ℕ, ◌≤◌, Outcome, returns, panics, ◌+◌, ◌≡◌, refl, Bool, true, false, ◌||◌, ◌&&◌, not, List, [],
  ◌∷◌, if◌then◌else◌, length,
}
use analytics_system.Prelude.Text.{Text}
use analytics_system.Interval.{AggregationInterval}
use analytics_system.Analytics.{CandleEvent}
use analytics_system.Analytics.Subscription.{
  Input, StreamResponse, Subscribed, on_event, subscribe_step, subscribe_run, put, on_forward,
  Phase, active,
}

-- A property of what is returned, and that something is.
abbrev Succeeds : {A : Type 0} → (A → Type 0) → Outcome A → Type 0
Succeeds P (returns a) = P a
Succeeds P panics = ⊥

module _ {F : Type 0} where
  abbrev pub is_end : Input F → Bool
  is_end (Input.subscribe symbol interval) = false
  is_end Input.ack = false
  is_end Input.no_payload = false
  is_end Input.requests_closed = true
  is_end (Input.stream_event evt) = false
  is_end Input.forward = false
  is_end Input.received = false

  -- The event that is counted and not sent yet.
  abbrev pub in_flight : Phase F → ℕ
  in_flight Phase.idle = 0
  in_flight (Phase.sending evt) = 1
  in_flight Phase.checking = 0
  in_flight Phase.controlling = 0

  -- The events among the responses.
  abbrev pub events_of : List (StreamResponse F) → List (CandleEvent F)
  events_of [] = []
  events_of (StreamResponse.event evt ∷ out) = evt ∷ events_of out
  events_of (StreamResponse.control message ∷ out) = events_of out

  -- At most one subscription is made; each event that is counted is on the channel once, or about to
  -- be sent; no more than a hundred responses wait; and only a subscription that was made, in a channel
  -- that is not closed, has a goroutine that sends.
  pub record IsSubscription (s : Subscribed F) : Type 0 where
    pub counted : s.sent_count ≡ length (events_of s.out) + in_flight s.phase
    pub bounded : length s.out ≤ s.taken + 100
    pub single : length s.subscriptions ≡ (if s.started then 1 else 0)
    pub begun : (active s.phase && not s.started) ≡ false
    pub ready : (s.returned && (s.started || active s.phase)) ≡ false

module _ {F : Type 0} (name_of : AggregationInterval → Text) (topic_base : Text)
    (consume_fails : Text → Text → Bool) where
  -- An event that the stream gives before the end of the requests still panics, if it is sent after
  -- it: the channel is closed then.
  pub late_event-panics :
      (evt : CandleEvent F) (rest : List (Input F)) (s : Subscribed F)
      → s.started ≡ true
      → active s.phase ≡ false
      → subscribe_run name_of topic_base consume_fails
          (Input.stream_event evt ∷ Input.requests_closed ∷ Input.forward ∷ rest)
          s
        ≡ panics
  unfolding subscribe_run subscribe_step on_event on_forward put
  late_event-panics evt rest s on free = rw (on, free) refl
