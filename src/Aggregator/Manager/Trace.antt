-- ===== src/Aggregator/Manager/Trace.antt =====
-- A manager whose environment keeps the list of the calls made so far, the newest first, and answers
-- each call by any function of that list. Statements about calls are about this list.
use analytics_system.Prelude.{
  ℕ, ◌≡◌, refl, sym, ◌∙◌, Bool, true, false, List, [], ◌∷◌, Option, none, some, returns, Bool-cases,
  inl, inr, ok, arith, if◌then◌else◌,
}
use analytics_system.Prelude.Text.{Text}
use analytics_system.Prelude.Map.{lookup, insert}
use analytics_system.Interval.{duration}
use analytics_system.Aggregator.Float.{FloatOps}
use analytics_system.Aggregator.Candle.{
  Candle, CandleState, update, should_flush, opened, new_candle_state_lem,
}
use analytics_system.Aggregator.Manager.Safety.{process_interval_step}
use analytics_system.Aggregator.Manager.{
  Env, MarketData, Bucket, Buckets, next_state, process_interval, flush_one,
}

pub data Event (F : Type 0) : Type 0 where
  loads : Text → Text → ℕ → Event F
  saves : Candle F → Event F
  deletes : Text → Text → ℕ → Event F
  flushes : Candle F → Event F
  reads_clock : Event F

-- The answers, each to the call at the head of the list.
pub record Oracle (F : Type 0) : Type 0 where
  pub loaded : List (Event F) → Option (Candle F) × Bool
  pub sink_error : List (Event F) → Option Text
  pub clock : List (Event F) → ℕ

abbrev pub traced : {F : Type 0} → Oracle F → Env F (List (Event F))
traced orc = record {
  load_at = λ symbol iv ts w.
      let w' = loads symbol iv ts ∷ w in ((orc.loaded w').0, (orc.loaded w').1, w');
  save = λ c w. saves c ∷ w;
  delete_at = λ symbol iv start w. deletes symbol iv start ∷ w;
  flush_candle = λ c w. let w' = flushes c ∷ w in (orc.sink_error w', w');
  read_clock = λ w. let w' = reads_clock ∷ w in (orc.clock w', w');
}

-- The candles that went to the sink, the newest first.
unfoldable pub flushed : {F : Type 0} → List (Event F) → List (Candle F)
flushed [] = []
flushed (flushes c ∷ w) = c ∷ flushed w
flushed (loads symbol iv ts ∷ w) = flushed w
flushed (saves c ∷ w) = flushed w
flushed (deletes symbol iv start ∷ w) = flushed w
flushed (reads_clock ∷ w) = flushed w

abbrev pub completed : {F : Type 0} → CandleState F → Candle F
completed st = record (st.candle) { complete = true }

module _ {F : Type 0} (o : FloatOps F) (orc : Oracle F) where
  -- `flushOne` hands the completed candle to the sink, once.
  pub flush_one-flushed :
      (iv symbol : Text) (st : CandleState F) (w : List (Event F))
      → flushed (flush_one o (traced orc) iv symbol st w).1 ≡ completed st ∷ flushed w
  unfolding flush_one flushed
  flush_one-flushed iv symbol st w = ground arith

  next_state_due :
      (tick : MarketData F) (iv : Text) (d : ℕ) (st : CandleState F) (w : List (Event F))
      → duration iv ≡ ok d
      → should_flush st (orc.clock (reads_clock ∷ w)) ≡ true
      → next_state o (traced orc) iv tick (some st) w
        ≡ returns (
          opened tick.symbol iv tick.timestamp d tick.price tick.volume,
          (flush_one o (traced orc) iv tick.symbol st (reads_clock ∷ w)).1,
        )
  unfolding next_state
  next_state_due tick iv d st w known due =
      rw (due, new_candle_state_lem tick.symbol iv tick.timestamp d tick.price tick.volume known)
        refl

  next_state_loaded :
      (tick : MarketData F) (iv : Text) (c : Candle F) (w : List (Event F))
      → (orc.loaded (loads tick.symbol iv tick.timestamp ∷ w)).0 ≡ some c
      → next_state o (traced orc) iv tick none w
        ≡ returns (
          record { candle = c; updated_at = tick.timestamp },
          loads tick.symbol iv tick.timestamp ∷ w,
        )
  unfolding next_state
  next_state_loaded tick iv c w loaded = rw (loaded, next_state) refl

  next_state_going :
      (tick : MarketData F) (iv : Text) (st : CandleState F) (w : List (Event F))
      → should_flush st (orc.clock (reads_clock ∷ w)) ≡ false
      → next_state o (traced orc) iv tick (some st) w
        ≡ returns (update o st tick.timestamp tick.price tick.volume, reads_clock ∷ w)
  unfolding next_state
  next_state_going tick iv st w going = rw going refl

  -- A bar in progress is updated by the tick, or, once its end has passed, handed to the sink and
  -- replaced by a bar that the tick opens, whatever the sink answers. The call that saves the bar
  -- comes last, and the buckets change at this entry alone.
  pub process_interval_conserves :
      (tick : MarketData F) (iv : Text) (d : ℕ) (buckets : Buckets F) (bucket : Bucket F)
      (st : CandleState F) (w : List (Event F))
      → duration iv ≡ ok d
      → lookup iv buckets ≡ some bucket
      → lookup tick.symbol bucket ≡ some st
      → (next : CandleState F) × (w' : List (Event F)) × (process_interval o
            (traced orc)
            tick
            iv
            buckets
            w
          ≡ returns (insert iv (insert tick.symbol next bucket) buckets, saves next.candle ∷ w'))
        × (if should_flush st (orc.clock (reads_clock ∷ w))
            then (next ≡ opened tick.symbol iv tick.timestamp d tick.price tick.volume)
              × (flushed w' ≡ completed st ∷ flushed w)
            else (next ≡ update o st tick.timestamp tick.price tick.volume)
              × (flushed w' ≡ flushed w))
  unfolding flushed
  process_interval_conserves tick iv d buckets bucket st w known found held =
      elim (Bool-cases (should_flush st (orc.clock (reads_clock ∷ w)))) [
        | inl due ↦ (
          opened tick.symbol iv tick.timestamp d tick.price tick.volume,
          (flush_one o (traced orc) iv tick.symbol st (reads_clock ∷ w)).1,
          process_interval_step o (traced orc) tick iv buckets bucket _ w _ found
              (rw held (next_state_due tick iv d st w known due)),
          rw due (refl, flush_one-flushed iv tick.symbol st (reads_clock ∷ w)),
        )
        | inr going ↦ (
          update o st tick.timestamp tick.price tick.volume,
          reads_clock ∷ w,
          process_interval_step o (traced orc) tick iv buckets bucket _ w _ found
              (rw held (next_state_going tick iv st w going)),
          rw going (refl, refl),
        )
      ]

  process_interval_loaded :
      (tick : MarketData F) (iv : Text) (buckets : Buckets F) (bucket : Bucket F) (c : Candle F)
      (w : List (Event F))
      → lookup iv buckets ≡ some bucket
      → lookup tick.symbol bucket ≡ none
      → (orc.loaded (loads tick.symbol iv tick.timestamp ∷ w)).0 ≡ some c
      → process_interval o (traced orc) tick iv buckets w
        ≡ returns (
          insert iv
              (insert tick.symbol (record { candle = c; updated_at = tick.timestamp }) bucket)
              buckets,
          saves c ∷ loads tick.symbol iv tick.timestamp ∷ w,
        )
  process_interval_loaded tick iv buckets bucket c w found fresh loaded =
      process_interval_step o (traced orc) tick iv buckets bucket
        (record { candle = c; updated_at = tick.timestamp }) w
        (loads tick.symbol iv tick.timestamp ∷ w) found
        (rw fresh (next_state_loaded tick iv c w loaded))

  -- Where the storage returns a candle for an entry with no bar in progress, the tick is lost: any
  -- other price and volume give the same bar, the same save and the same buckets.
  pub process_interval_restored :
      (tick : MarketData F) (price volume : F) (iv : Text) (buckets : Buckets F) (bucket : Bucket F)
      (c : Candle F) (w : List (Event F))
      → lookup iv buckets ≡ some bucket
      → lookup tick.symbol bucket ≡ none
      → (orc.loaded (loads tick.symbol iv tick.timestamp ∷ w)).0 ≡ some c
      → (process_interval o
            (traced orc)
            (record tick { price = price; volume = volume })
            iv
            buckets
            w
          ≡ process_interval o (traced orc) tick iv buckets w)
        × (process_interval o (traced orc) tick iv buckets w
            ≡ returns (
              insert iv
                  (insert tick.symbol (record { candle = c; updated_at = tick.timestamp }) bucket)
                  buckets,
              saves c ∷ loads tick.symbol iv tick.timestamp ∷ w,
            ))
  process_interval_restored tick price volume iv buckets bucket c w found fresh loaded =
      let kept = process_interval_loaded tick iv buckets bucket c w found fresh loaded in
      (
        process_interval_loaded (record tick { price = price; volume = volume }) iv buckets bucket c
              w found fresh loaded
            ∙ sym kept,
        kept,
      )
