-- ===== src/Kafka/Consumer/Claims.antt =====
-- `ConsumeClaim` and `Consume` of common/kafka/consumer/consumer.go on whole runs.
use analytics_system.Prelude.{
  ℕ, ◌<◌, ◌≡◌, refl, List, [], ◌∷◌, ◌++◌, map, Option, none, some, arith,
}
use analytics_system.Kafka.{Message, ConsumerMessage}
use analytics_system.Kafka.Consumer.{message_of, ClaimEvent, Session, handle_message, consume_claim}

-- How a claim ends: with the error of the session, or with none where the channel is closed.
abbrev pub end_event : {E : Type 0} → Option E → ClaimEvent E
end_event none = ClaimEvent.closed
end_event (some e) = ClaimEvent.session_done e

module _ {E W : Type 0} (handler : Message → W → Option E × W) where
  -- The state of the handler after it has had the messages, one after the other.
  abbrev pub world_after : List ConsumerMessage → W → W
  world_after [] w = w
  world_after (m ∷ ms) w = world_after ms (handler (message_of m) w).1

  -- The messages that the handler takes without an error, the last one first, onto those before.
  abbrev pub accepted : List ConsumerMessage → W → List ConsumerMessage → List ConsumerMessage
  accepted [] w before = before
  accepted (m ∷ ms) w before =
      accepted ms (handler (message_of m) w).1
        (elim (handler (message_of m) w).0 [ none ↦ m ∷ before | some e ↦ before ])

  -- A claim hands its messages to the handler in their order, each once, also after one has failed;
  -- it marks those that the handler took without an error, and returns nil if the channel is closed
  -- and else the error of the session. What comes after the end is not read.
  pub consume_claim_lem :
      (ms : List ConsumerMessage) (end : Option E) (later : List (ClaimEvent E)) (s : Session W)
      → consume_claim handler (map ClaimEvent.delivered ms ++ (end_event end ∷ later)) s ≡ (
        some end,
        record { world = world_after ms s.world; marked = accepted ms s.world s.marked },
      )
  unfolding consume_claim handle_message
  consume_claim_lem [] none later s = refl
  consume_claim_lem [] (some e) later s = refl
  consume_claim_lem (m ∷ ms) end later s =
      consume_claim_lem ms end later (handle_message handler m s)

  -- If the position that the group commits lies after every marked message, then a message that the
  -- handler refused lies before that position as soon as it takes a later one: it is not read again.
  pub failed_message_passed :
      (position : List ConsumerMessage → ℕ) (m m' : ConsumerMessage) (e : E) (s : Session W)
      → ((q : ConsumerMessage) (qs : List ConsumerMessage) → q.offset < position (q ∷ qs))
      → m.offset < m'.offset
      → (handler (message_of m) s.world).0 ≡ some e
      → (handler (message_of m') (handler (message_of m) s.world).1).0 ≡ none
      → let s' = (consume_claim handler (map ClaimEvent.delivered (m ∷ m' ∷ [])) s).1 in
        (s'.marked ≡ m' ∷ s.marked) × (m.offset < position s'.marked)
  unfolding consume_claim handle_message
  failed_message_passed position m m' e s after later failed done =
      ground (arith, failed, done, after m' s.marked, later)
