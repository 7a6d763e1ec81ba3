-- ===== src/Aggregator/Manager/Safety.antt =====
-- A manager that `NewManager` accepts never panics, and its bars stay aligned to their intervals.
use analytics_system.Prelude.{
  ℕ, ◌+◌, ◌%◌, ◌≡◌, refl, sym, ap, subst, ok-injective, inl, inr, Bool, true, false, List, [], ◌∷◌,
  Option, none, some, ok, returns, All, All-mono, is_some, Bool-cases, Option-cases, Result-cases,
  arith,
}
use analytics_system.Prelude.Text.{Text, text_eq_refl}
use analytics_system.Prelude.Map.{lookup, insert, lookup-insert, All-insert, All-lookup}
use analytics_system.Interval.{duration}
use analytics_system.Interval.Align.{truncate-mod}
use analytics_system.Aggregator.Float.{FloatOps}
use analytics_system.Aggregator.Candle.{
  Candle, CandleState, opened, new_candle_state_lem, update, should_flush,
}
use analytics_system.Aggregator.Manager.{
  Env, MarketData, Bucket, Buckets, Manager, with_buckets, new_manager, flush_one, next_state,
  process_interval, process_intervals, process,
}

-- The candle belongs to the entry and covers an aligned stretch of the interval's length.
abbrev pub IsBar : {F : Type 0} → Text → Text → Candle F → Type 0
IsBar iv symbol c =
    (d : ℕ) × (duration iv ≡ ok d)
    × (c.interval ≡ iv)
    × (c.symbol ≡ symbol)
    × (c.start % d ≡ 0)
    × (c.end ≡ c.start + d)

abbrev pub BucketIsValid : {F : Type 0} → Text × Bucket F → Type 0
BucketIsValid (iv, bucket) = All (λ e. IsBar iv e.0 e.1.candle) bucket

-- Every interval of the list has a known length and a bucket.
abbrev pub AreServed : {F : Type 0} → Buckets F → List Text → Type 0
AreServed buckets ivs =
    All (λ iv. ((d : ℕ) × (duration iv ≡ ok d)) × (is_some (lookup iv buckets) ≡ true)) ivs

pub record IsReady {F : Type 0} (m : Manager F) : Type 0 where
  pub served : AreServed m.buckets m.intervals
  pub bars : All BucketIsValid m.buckets

module _ {F : Type 0} where
  insert-AreServed :
      (buckets : Buckets F) (iv : Text) (b : Bucket F) (ivs : List Text)
      → AreServed buckets ivs
      → AreServed (insert iv b buckets) ivs
  insert-AreServed buckets iv b [] h = tt
  insert-AreServed buckets iv b (i ∷ ivs) h = (
    (h.0.0, ground (arith, lookup-insert iv i b buckets, h.0.1)),
    insert-AreServed buckets iv b ivs h.1,
  )

  with_buckets-keeps :
      (all : List Text) (buckets : Buckets F) (ivs : List Text) (m : Manager F) (k : Text)
      → with_buckets all buckets ivs ≡ ok m
      → is_some (lookup k buckets) ≡ true
      → is_some (lookup k m.buckets) ≡ true
  with_buckets-keeps all buckets [] m k e h =
      subst (λ (n : Manager F). is_some (lookup k n.buckets) ≡ true) (ok-injective e) h
  with_buckets-keeps all buckets (iv ∷ ivs) m k e h = elim (Result-cases (duration iv)) [
    | inl (d, known) ↦
        with_buckets-keeps all (insert iv [] buckets) ivs m k (rw (known, with_buckets) at e)
          (ground (arith, lookup-insert iv k [] buckets))
    | inr (x, unknown) ↦ cc
  ]

  with_buckets-IsReady :
      (all : List Text) (buckets : Buckets F) (ivs : List Text) (m : Manager F)
      → with_buckets all buckets ivs ≡ ok m
      → All BucketIsValid buckets
      → AreServed m.buckets ivs × (m.intervals ≡ all) × All BucketIsValid m.buckets
  with_buckets-IsReady all buckets [] m e h = (
    tt,
    sym (ap (λ (n : Manager F). n.intervals) (ok-injective e)),
    subst (λ (n : Manager F). All BucketIsValid n.buckets) (ok-injective e) h,
  )
  with_buckets-IsReady all buckets (iv ∷ ivs) m e h = elim (Result-cases (duration iv)) [
    | inl (d, known) ↦
        let more =
          with_buckets-IsReady all (insert iv [] buckets) ivs m (rw (known, with_buckets) at e)
            (All-insert BucketIsValid iv [] buckets tt h) in
        (
          (
            (
              (d, known),
              with_buckets-keeps all (insert iv [] buckets) ivs m iv (rw (known, with_buckets) at e)
                  (rw lookup-insert (rw (text_eq_refl iv) refl)),
            ),
            more.0,
          ),
          more.1,
          more.2,
        )
    | inr (x, unknown) ↦ cc
  ]

  -- What `NewManager` accepts is ready, with the intervals that it was given.
  pub new_manager-IsReady :
      (intervals : List Text) (m : Manager F)
      → new_manager intervals ≡ ok m
      → IsReady m × (m.intervals ≡ intervals)
  unfolding new_manager
  new_manager-IsReady intervals m e =
      let r = with_buckets-IsReady intervals [] intervals m e tt in
      (record { served = rw r.1 r.0; bars = r.2 }, r.1)

module _ {F W : Type 0} (o : FloatOps F) (env : Env F W) where
  -- What the manager relies on: a candle that the storage returns is a bar of the asked entry.
  abbrev pub Restores : Type 0
  Restores =
      (symbol iv : Text) (ts : ℕ) (w : W) (c : Candle F)
      → (env.load_at symbol iv ts w).0 ≡ some c
      → IsBar iv symbol c

  opened-IsBar :
      (symbol iv : Text) (ts d : ℕ) (price volume : F)
      → duration iv ≡ ok d
      → IsBar iv symbol (opened symbol iv ts d price volume).candle
  opened-IsBar symbol iv ts d price volume known = (d, known, refl, refl, truncate-mod ts d, refl)

  no_bucket : ¬ (◌≡◌ {A = Bool} false true)
  no_bucket e = cc

  next_state_returns :
      (restores : Restores) (iv : Text) (d : ℕ) (tick : MarketData F)
      (found : Option (CandleState F)) (w : W)
      → duration iv ≡ ok d
      → ((st : CandleState F) → found ≡ some st → IsBar iv tick.symbol st.candle)
      → (r : CandleState F × W) × (next_state o env iv tick found w ≡ returns r)
        × IsBar iv tick.symbol r.0.candle
  unfolding next_state
  next_state_returns restores iv d tick none w known h =
      elim (Option-cases (env.load_at tick.symbol iv tick.timestamp w).0) [
        | inl absent ↦ (
          (
            opened tick.symbol iv tick.timestamp d tick.price tick.volume,
            (env.load_at tick.symbol iv tick.timestamp w).2,
          ),
          ground (
            arith,
            new_candle_state_lem tick.symbol iv tick.timestamp d tick.price tick.volume known,
          ),
          opened-IsBar tick.symbol iv tick.timestamp d tick.price tick.volume known,
        )
        | inr (c, loaded) ↦ (
          (
            record { candle = c; updated_at = tick.timestamp },
            (env.load_at tick.symbol iv tick.timestamp w).2,
          ),
          ground arith,
          restores tick.symbol iv tick.timestamp w c loaded,
        )
      ]
  next_state_returns restores iv d tick (some st) w known h =
      let (now, w') = env.read_clock w in
      elim (Bool-cases (should_flush st now)) [
        | inl due ↦ (
          (
            opened tick.symbol iv tick.timestamp d tick.price tick.volume,
            (flush_one o env iv tick.symbol st w').1,
          ),
          ground (
            arith,
            new_candle_state_lem tick.symbol iv tick.timestamp d tick.price tick.volume known,
          ),
          opened-IsBar tick.symbol iv tick.timestamp d tick.price tick.volume known,
        )
        | inr going ↦
            ((update o st tick.timestamp tick.price tick.volume, w'), ground arith, h st refl)
      ]

  pub process_interval_step :
      (tick : MarketData F) (iv : Text) (buckets : Buckets F) (bucket : Bucket F)
      (state : CandleState F) (w w' : W)
      → lookup iv buckets ≡ some bucket
      → next_state o env iv tick (lookup tick.symbol bucket) w ≡ returns (state, w')
      → process_interval o env tick iv buckets w
        ≡ returns (insert iv (insert tick.symbol state bucket) buckets, env.save state.candle w')
  unfolding process_interval
  process_interval_step tick iv buckets bucket state w w' found stepped =
      rw (found, process_interval) (rw stepped refl)

  process_interval_returns :
      (restores : Restores) (tick : MarketData F) (iv : Text) (d : ℕ) (buckets : Buckets F) (w : W)
      → duration iv ≡ ok d
      → is_some (lookup iv buckets) ≡ true
      → All BucketIsValid buckets
      → (r : Buckets F × W) × (process_interval o env tick iv buckets w ≡ returns r)
        × All BucketIsValid r.0
        × ((k : Text) → is_some (lookup k buckets) ≡ true → is_some (lookup k r.0) ≡ true)
  process_interval_returns restores tick iv d buckets w known there bars =
      elim (Option-cases (lookup iv buckets)) [
        | inl missing ↦ absurd (no_bucket (rw missing at there))
        | inr (bucket, found) ↦
            let valid = All-lookup BucketIsValid iv bucket buckets bars found in
            let ((state, w'), stepped, bar) =
              next_state_returns restores iv d tick (lookup tick.symbol bucket) w known
                (λ st e. All-lookup (λ x. IsBar iv x.0 x.1.candle) tick.symbol st bucket valid e) in
            let bucket' = insert tick.symbol state bucket in
            (
              (insert iv bucket' buckets, env.save state.candle w'),
              process_interval_step tick iv buckets bucket state w w' found stepped,
              All-insert BucketIsValid iv bucket' buckets
                  (All-insert (λ x. IsBar iv x.0 x.1.candle) tick.symbol state bucket bar valid)
                  bars,
              λ k e. ground (arith, lookup-insert iv k bucket' buckets),
            )
      ]

  process_intervals_returns :
      (restores : Restores) (tick : MarketData F) (ivs : List Text) (buckets : Buckets F) (w : W)
      → AreServed buckets ivs
      → All BucketIsValid buckets
      → (r : Buckets F × W) × (process_intervals o env tick ivs buckets w ≡ returns r)
        × All BucketIsValid r.0
        × ((k : Text) → is_some (lookup k buckets) ≡ true → is_some (lookup k r.0) ≡ true)
  unfolding process_intervals
  process_intervals_returns restores tick [] buckets w served bars =
      ((buckets, w), refl, bars, λ k e. e)
  process_intervals_returns restores tick (iv ∷ ivs) buckets w served bars =
      let (r, stepped, bars', keeps) =
        process_interval_returns restores tick iv served.0.0.0 buckets w served.0.0.1 served.0.1
          bars in
      let (r', rest, bars'', keeps') =
        process_intervals_returns restores tick ivs r.0 r.1
          (All-mono (λ i h. (h.0, keeps i h.1)) ivs served.1) bars' in
      (r', rw (stepped, process_intervals) rest, bars'', λ k e. keeps' k (keeps k e))

  -- A manager that is ready takes any tick without a panic, and is ready again, with the same
  -- intervals, if every candle that the storage returns is a bar of the entry that was asked for.
  pub process_returns :
      (restores : Restores) (tick : MarketData F) (m : Manager F) (w : W)
      → IsReady m
      → (r : Manager F × W) × (process o env tick m w ≡ returns r)
        × IsReady r.0
        × (r.0.intervals ≡ m.intervals)
  unfolding process
  process_returns restores tick m w ready =
      let (r, stepped, bars, keeps) =
        process_intervals_returns restores tick m.intervals m.buckets w ready.served ready.bars in
      (
        (record m { buckets = r.0 }, r.1),
        rw (stepped, process) refl,
        record {
          served = All-mono (λ i h. (h.0, keeps i h.1)) m.intervals ready.served;
          bars = bars;
        },
        refl,
      )
