-- ===== src/Collector/Socket/Delivery.antt =====
-- What the connector of services/market-data-collector/pkg/binance/ws.go puts on its channel, drops and
-- leaves running.
use analytics_system.Prelude.{
  ℕ, suc, ◌+◌, true, false, List, [], ◌∷◌, ◌++◌, none, some, if◌then◌else◌,
}
use analytics_system.Collector.{RawMessage}
use analytics_system.Collector.Socket.{Frames, ReadEvent, Round, message_of_frame}

module _ {E : Type 0} (frames : Frames) where
  -- The frames that the channel has room for, as messages.
  abbrev pub accepted_frames : List (ReadEvent E) → List RawMessage
  accepted_frames [] = []
  accepted_frames (ReadEvent.context_done e ∷ events) = []
  accepted_frames (ReadEvent.read_failed e ∷ events) = []
  accepted_frames (ReadEvent.frame raw true ∷ events) =
      message_of_frame frames raw ∷ accepted_frames events
  accepted_frames (ReadEvent.frame raw false ∷ events) = accepted_frames events

  -- The rounds that dial with success, up to the first that does not.
  abbrev pub dialled : List (Round E) → List (Round E)
  dialled [] = []
  dialled (r ∷ rest) =
      let more = dialled rest in
      if r.stopping then [] else elim (r.connect_error) [ some e ↦ [] | none ↦ r ∷ more ]

  abbrev pub sent_in : Round E → List RawMessage
  sent_in r =
      if r.context_over
      then []
      else elim (r.subscribe_error) [ some e ↦ [] | none ↦ accepted_frames r.reads ]

  -- The number of frames that were read and dropped, as the channel had no room.
  abbrev pub refused_frames : List (ReadEvent E) → ℕ
  refused_frames [] = 0
  refused_frames (ReadEvent.context_done e ∷ events) = 0
  refused_frames (ReadEvent.read_failed e ∷ events) = 0
  refused_frames (ReadEvent.frame raw true ∷ events) = refused_frames events
  refused_frames (ReadEvent.frame raw false ∷ events) = suc (refused_frames events)

  abbrev pub dropped_in : Round E → ℕ
  dropped_in r =
      if r.context_over
      then 0
      else elim (r.subscribe_error) [ some e ↦ 0 | none ↦ refused_frames r.reads ]

  abbrev pub dropped_by : List (Round E) → ℕ
  dropped_by [] = 0
  dropped_by (r ∷ rest) = dropped_in r + dropped_by rest

  abbrev pub requests_in : Round E → ℕ
  requests_in r = if r.context_over then 0 else 1

  abbrev pub requests : List (Round E) → ℕ
  requests [] = 0
  requests (r ∷ rest) = requests_in r + requests rest

  abbrev pub sent_by : List (Round E) → List RawMessage
  sent_by [] = []
  sent_by (r ∷ rest) = sent_in r ++ sent_by rest

  abbrev pub refused_in : Round E → ℕ
  refused_in r = if r.context_over then 1 else elim (r.subscribe_error) [ some e ↦ 1 | none ↦ 0 ]

  abbrev pub refused_subscriptions : List (Round E) → ℕ
  refused_subscriptions [] = 0
  refused_subscriptions (r ∷ rest) = refused_in r + refused_subscriptions rest
