-- ===== src/Aggregator/MultiSink.antt =====
-- multisink.go of services/preprocessor/internal/aggregator: one sink made of several.
use analytics_system.Prelude.{◌≡◌, refl, List, [], ◌∷◌, ◌++◌, Option, none, some, arith}
use analytics_system.Prelude.Text.{Text, codes}
use analytics_system.Aggregator.Candle.{Candle}

abbrev pub Sink : Type 0 → Type 0 → Type 0
Sink F W = Candle F → W → Option Text × W

abbrev first_of_errors : Option Text → List Text → Option Text
first_of_errors (some e) errs = some e
first_of_errors none [] = none
first_of_errors none (e ∷ errs) = some e

module _ {F W : Type 0} where
  -- The loop, with `firstErr`.
  unfoldable pub flush_sinks : List (Sink F W) → Candle F → Option Text → W → Option Text × W
  flush_sinks [] c first_err w = (first_err, w)
  flush_sinks (sink ∷ rest) c first_err w =
      let (failed, w') = sink c w in
      flush_sinks rest c
        (elim failed [
          | none ↦ first_err
          | some e ↦ elim first_err [ none ↦ some e | some e' ↦ some e' ]
        ])
        w'

  -- `MultiSink.FlushCandle`
  unfoldable pub flush_candle : List (Sink F W) → Sink F W
  unfolding flush_sinks
  flush_candle sinks c w =
      let (first_err, w') = flush_sinks sinks c none w in
      (elim first_err [ none ↦ none | some e ↦ some (codes "multisink: flush failed: " ++ e) ], w')

  -- The state after each sink has had the candle, in order, and the errors on the way.
  abbrev pub after_all : List (Sink F W) → Candle F → W → W
  after_all [] c w = w
  after_all (sink ∷ rest) c w = after_all rest c (sink c w).1

  abbrev pub errors_of : List (Sink F W) → Candle F → W → List Text
  errors_of [] c w = []
  errors_of (sink ∷ rest) c w =
      let errs = errors_of rest c (sink c w).1 in
      elim (sink c w).0 [ none ↦ errs | some e ↦ e ∷ errs ]

  flush_sinks_lem :
      (sinks : List (Sink F W)) (c : Candle F) (first_err : Option Text) (w : W)
      → flush_sinks sinks c first_err w
        ≡ (first_of_errors first_err (errors_of sinks c w), after_all sinks c w)
  unfolding flush_sinks
  flush_sinks_lem [] c none w = refl
  flush_sinks_lem [] c (some e) w = refl
  flush_sinks_lem (sink ∷ rest) c none w = ground (
    arith,
    flush_sinks_lem rest c none (sink c w).1,
    flush_sinks_lem rest c (sink c w).0 (sink c w).1,
  )
  flush_sinks_lem (sink ∷ rest) c (some e) w =
      ground (arith, flush_sinks_lem rest c (some e) (sink c w).1)

  -- Every sink gets the candle, in order, also after one has failed; the call fails exactly if some
  -- sink failed, with the error of the first that did.
  pub flush_candle_lem :
      (sinks : List (Sink F W)) (c : Candle F) (w : W)
      → ((flush_candle sinks c w).1 ≡ after_all sinks c w)
        × ((flush_candle sinks c w).0 ≡ elim (errors_of sinks c w) [
          | [] ↦ none
          | e ∷ errs ↦ some (codes "multisink: flush failed: " ++ e)
        ])
  unfolding flush_candle
  flush_candle_lem sinks c w = ground (arith, flush_sinks_lem sinks c none w)
