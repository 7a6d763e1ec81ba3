-- ===== src/Kafka/Producer/Publish.antt =====
-- `PublishMessage` and `Publish` of common/kafka/producer/producer.go, and its configuration.
use analytics_system.Prelude.{
  ℕ, ◌+◌, ◌≡◌, refl, true, [], Option, none, some, is_some, inl, inr, ◌⊎◌, Option-cases, arith,
}
use analytics_system.Prelude.Text.{Text}
use analytics_system.Backoff.{RetryNotify, Counters, execute}
use analytics_system.Backoff.Counts.{execute_keeps}
use analytics_system.Kafka.{Message}
use analytics_system.Kafka.Producer.{
  ProducerMessage, producer_message, ProducerState, send_op, publish_message, publish,
}

-- The metrics of the producer after a call that ends with or without an error.
abbrev pub Counted : {E W : Type 0} → Option E → ProducerState W → ProducerState W → Type 0
Counted none s s' =
    (s'.publish_success ≡ s.publish_success + 1) × (s'.publish_errors ≡ s.publish_errors)
Counted (some e) s s' =
    (s'.publish_success ≡ s.publish_success) × (s'.publish_errors ≡ s.publish_errors + 1)

abbrev pub plain_message : Text → Text → Text → ProducerMessage
plain_message topic key value = record { topic = topic; key = key; value = value; headers = [] }

module _ {E W : Type 0} {cancelled : E → Type 0} (send_message : ProducerMessage → W → Option E × W)
    (lib : RetryNotify E cancelled (Counters W)) (timeout : ℕ) where
  sent_keeps :
      (P : W → Type 0) (msg : Message) (ctx : Option ℕ) (w : W)
      → ((v : W) → P v → P (send_message (producer_message msg) v).1)
      → P w
      → P (send_op send_message msg ctx w).1
  unfolding send_op
  sent_keeps P msg ctx w keeps p = keeps w p

  sent-ok :
      (msg : Message) (ctx : Option ℕ) (w w' : W)
      → send_op send_message msg ctx w ≡ (none, w')
      → send_message (producer_message msg) w ≡ (none, w')
  unfolding send_op
  sent-ok msg ctx w w' e = elim (Option-cases (send_message (producer_message msg) w).0) [
    | inl done ↦ ground (arith, done, e)
    | inr (x, failed) ↦ absurd (ground (arith, failed, e))
  ]

  counts :
      (msg : Message) (s : ProducerState W)
      → let (r, s') = publish_message send_message lib timeout msg s in Counted r s s'
  unfolding publish_message
  counts msg s =
      elim (Option-cases
        (execute lib timeout (send_op send_message msg) (λ e delay tries v. v) s.world).0) [
          | inl done ↦ rw (done, Counted) (refl, refl)
          | inr (x, failed) ↦ rw (failed, Counted) (refl, refl)
        ]

  -- `Publish` sends nothing but the message of the topic, the key and the value, without headers,
  -- counts one success or one error, and without an error its last call of the broker took that
  -- message and left the state in which `Publish` ends. The broker's state keeps every property
  -- that sending this one message keeps.
  pub publish_sends :
      (P : W → Type 0) (topic key value : Text) (s : ProducerState W)
      → ((w : W) → P w → P (send_message (plain_message topic key value) w).1)
      → P s.world.world
      → let (r, s') = publish send_message lib timeout topic key value s in
        P s'.world.world
        × Counted r s s'
        × ((is_some r ≡ true)
            ⊎ ((w : W) × P w
                × (send_message (plain_message topic key value) w ≡ (none, s'.world.world))))
  unfolding publish publish_message producer_message
  publish_sends P topic key value s keeps p =
      let msg : Message = record {
        key = key;
        value = value;
        topic = topic;
        partition = 0;
        offset = 0;
        timestamp = 0;
        headers = [];
      } in
      let (kept, last) =
        execute_keeps timeout (send_op send_message msg) (λ e delay tries v. v) P
          (λ ctx w h. sent_keeps P msg ctx w keeps h) (λ e delay tries w h. h) lib s.world p in
      (
        kept,
        counts msg s,
        elim last [
          | inl failed ↦ inl failed
          | inr (ctx, w, h, path) ↦ inr (w, h, sent-ok msg ctx w _ path)
        ],
      )
