-- ===== src/Aggregator/Manager/Flush.antt =====
-- `FlushAll` and `flushExpired` on whole buckets.
use analytics_system.Prelude.{
  ℕ, ◌≡◌, refl, true, List, [], ◌∷◌, Option, none, some, Bool-cases, inl, inr, ap, ap₂, map, ◌∙◌,
  arith, if◌then◌else◌, All, any,
}
use analytics_system.Prelude.Text.{Text, text_eq, text_eq_iff, text_eq_refl}
use analytics_system.Prelude.Map.{lookup, erase, lookup-erase, IsDistinct}
use analytics_system.Aggregator.Float.{FloatOps}
use analytics_system.Aggregator.Candle.{Candle, CandleState, should_flush}
use analytics_system.Aggregator.Manager.{
  Bucket, Buckets, Manager, flush_one, flush_bucket, flush_buckets, flush_all, expire_bucket,
  expire_buckets, flush_expired,
}
use analytics_system.Aggregator.Manager.Trace.{
  Event, reads_clock, Oracle, traced, flushed, completed, flush_one-flushed,
}

-- The completed candles of a bucket, put before `cs` in the order in which the loop reaches them.
abbrev pub completed_onto : {F : Type 0} → Bucket F → List (Candle F) → List (Candle F)
completed_onto [] cs = cs
completed_onto ((symbol, st) ∷ b) cs = completed_onto b (completed st ∷ cs)

abbrev pub all_completed_onto : {F : Type 0} → Buckets F → List (Candle F) → List (Candle F)
all_completed_onto [] cs = cs
all_completed_onto ((iv, b) ∷ bs) cs = all_completed_onto bs (completed_onto b cs)

abbrev pub due_onto : {F : Type 0} → ℕ → Bucket F → List (Candle F) → List (Candle F)
due_onto now [] cs = cs
due_onto now ((symbol, st) ∷ b) cs =
    due_onto now b (if should_flush st now then completed st ∷ cs else cs)

abbrev Covered : {F : Type 0} → Bucket F → Text × CandleState F → Type 0
Covered es e = any (λ f. text_eq f.0 e.0) es ≡ true

abbrev pub all_due_onto : {F : Type 0} → ℕ → Buckets F → List (Candle F) → List (Candle F)
all_due_onto now [] cs = cs
all_due_onto now ((iv, b) ∷ bs) cs = all_due_onto now bs (due_onto now b cs)

-- What `flushExpired` is to leave of an entry at the time `now`.
abbrev pub unless_due : {F : Type 0} → ℕ → Option (CandleState F) → Option (CandleState F)
unless_due now none = none
unless_due now (some st) = if should_flush st now then none else some st

module _ {F : Type 0} (o : FloatOps F) (orc : Oracle F) where
  Covered-erase :
      (k : Text) (st : CandleState F) (es b : Bucket F)
      → All (Covered ((k, st) ∷ es)) b
      → All (Covered es) (erase k b)
  unfolding erase
  Covered-erase k st es [] h = tt
  Covered-erase k st es ((j, x) ∷ b) h =
      ground (arith, text_eq_iff j k, text_eq_iff k j, Covered-erase k st es b h.1)

  flush_bucket-empties :
      (iv : Text) (es b : Bucket F) (w : List (Event F))
      → All (Covered es) b
      → (flush_bucket o (traced orc) iv es b w).1 ≡ []
  unfolding flush_bucket
  flush_bucket-empties iv [] [] w h = refl
  flush_bucket-empties iv [] (e ∷ b) w h = cc
  flush_bucket-empties iv ((k, st) ∷ es) b w h =
      flush_bucket-empties iv es (erase k b) (flush_one o (traced orc) iv k st w).1
        (Covered-erase k st es b h)

  flush_bucket-flushed :
      (iv : Text) (es b : Bucket F) (w : List (Event F))
      → flushed (flush_bucket o (traced orc) iv es b w).2 ≡ completed_onto es (flushed w)
  unfolding flush_bucket
  flush_bucket-flushed iv [] b w = refl
  flush_bucket-flushed iv ((k, st) ∷ es) b w =
      flush_bucket-flushed iv es (erase k b) (flush_one o (traced orc) iv k st w).1
      ∙ ap (completed_onto es) (flush_one-flushed o orc iv k st w)

  self-Covered :
      (es b : Bucket F)
      → ((k : Text) → any (λ f. text_eq f.0 k) b ≡ true → any (λ f. text_eq f.0 k) es ≡ true)
      → All (Covered es) b
  self-Covered es [] h = tt
  self-Covered es ((k, st) ∷ b) h =
      (h k (rw (text_eq_refl k) refl), self-Covered es b (λ j e. h j (ground (arith, e))))

  flush_buckets-empties :
      (bs : Buckets F) (w : List (Event F))
      → ((flush_buckets o (traced orc) bs w).1 ≡ map (λ e. (e.0, [])) bs)
        × (flushed (flush_buckets o (traced orc) bs w).2 ≡ all_completed_onto bs (flushed w))
  unfolding flush_buckets
  flush_buckets-empties [] w = (refl, refl)
  flush_buckets-empties ((iv, b) ∷ bs) w =
      let first = flush_bucket o (traced orc) iv b b w in
      let (emptied, sent) = flush_buckets-empties bs first.2 in
      (
        ap₂ (λ (x : Bucket F) (y : Buckets F). (iv, x) ∷ y)
            (flush_bucket-empties iv b b w (self-Covered b b (λ k e. e))) emptied,
        sent ∙ ap (all_completed_onto bs) (flush_bucket-flushed iv b b w),
      )

  -- After `FlushAll` no bar is in progress, and every bar that was in progress went to the sink once,
  -- marked complete, in the order of the maps; a failing sink changes neither.
  pub flush_all-empties :
      (m : Manager F) (w : List (Event F))
      → let (errs, m', w') = flush_all o (traced orc) m w in
        (m'.buckets ≡ map (λ e. (e.0, [])) m.buckets)
        × (m'.intervals ≡ m.intervals)
        × (flushed w' ≡ all_completed_onto m.buckets (flushed w))
  unfolding flush_all
  flush_all-empties m w =
      let (emptied, sent) = flush_buckets-empties m.buckets w in (emptied, refl, sent)

  expire_bucket-flushed :
      (iv : Text) (now : ℕ) (es b : Bucket F) (w : List (Event F))
      → flushed (expire_bucket o (traced orc) iv now es b w).1 ≡ due_onto now es (flushed w)
  unfolding expire_bucket
  expire_bucket-flushed iv now [] b w = refl
  expire_bucket-flushed iv now ((j, st) ∷ es) b w =
      let due = should_flush st now in
      let sent = flush_one o (traced orc) iv j st w in
      expire_bucket-flushed iv now es (if due then erase j b else b) (if due then sent.1 else w)
      ∙ ap (due_onto now es) (ground (arith, flush_one-flushed o orc iv j st w))

  expire_bucket-lookup :
      (iv k : Text) (now : ℕ) (es b : Bucket F) (w : List (Event F))
      → IsDistinct es
      → lookup k (expire_bucket o (traced orc) iv now es b w).0 ≡ elim (lookup k es) [
        | none ↦ lookup k b
        | some st ↦ if should_flush st now then none else lookup k b
      ]
  unfolding expire_bucket lookup
  expire_bucket-lookup iv k now [] b w d = refl
  expire_bucket-lookup iv k now ((j, st) ∷ es) b w d = ground (
    arith,
    text_eq_iff j k,
    lookup-erase j k b,
    expire_bucket-lookup iv k now es (if should_flush st now then erase j b else b)
        (if should_flush st now then (flush_one o (traced orc) iv j st w).1 else w) d.1,
  )

  expire_bucket_self :
      (iv k : Text) (now : ℕ) (b : Bucket F) (w : List (Event F))
      → IsDistinct b
      → lookup k (expire_bucket o (traced orc) iv now b b w).0 ≡ unless_due now (lookup k b)
  expire_bucket_self iv k now b w d = ground (arith, expire_bucket-lookup iv k now b b w d)

  expire_buckets-lookup :
      (now : ℕ) (bs : Buckets F) (iv : Text) (b : Bucket F) (w : List (Event F))
      → All (λ e. IsDistinct e.1) bs
      → lookup iv bs ≡ some b
      → (b' : Bucket F) × (lookup iv (expire_buckets o (traced orc) now bs w).0 ≡ some b')
        × ((k : Text) → lookup k b' ≡ unless_due now (lookup k b))
  unfolding expire_buckets lookup
  expire_buckets-lookup now [] iv b w d e = cc
  expire_buckets-lookup now ((j, x) ∷ bs) iv b w d e = elim (Bool-cases (text_eq j iv)) [
    | inl same ↦ (
      (expire_bucket o (traced orc) j now x x w).0,
      rw same refl,
      λ k.
          expire_bucket_self j k now x w d.0
          ∙ ap (λ (y : Bucket F). unless_due now (lookup k y)) (ground arith),
    )
    | inr other ↦
        let (b', there, left) =
          expire_buckets-lookup now bs iv b (expire_bucket o (traced orc) j now x x w).1 d.1
            (rw other at e) in
        (b', rw other there, left)
  ]

  expire_buckets-flushed :
      (now : ℕ) (bs : Buckets F) (w : List (Event F))
      → flushed (expire_buckets o (traced orc) now bs w).1 ≡ all_due_onto now bs (flushed w)
  unfolding expire_buckets
  expire_buckets-flushed now [] w = refl
  expire_buckets-flushed now ((iv, b) ∷ bs) w =
      expire_buckets-flushed now bs (expire_bucket o (traced orc) iv now b b w).1
      ∙ ap (all_due_onto now bs) (expire_bucket-flushed iv now b b w)

  -- `flushExpired` removes the entries whose bars have ended by the one time that it reads, keeps
  -- all the others as they are, and sends exactly the removed bars to the sink, marked complete; if
  -- no symbol stands twice in a bucket.
  pub flush_expired_lem :
      (m : Manager F) (w : List (Event F))
      → All (λ e. IsDistinct e.1) m.buckets
      → let now = orc.clock (reads_clock ∷ w) in
        let (m', w') = flush_expired o (traced orc) m w in
        ((iv : Text) (b : Bucket F)
          → lookup iv m.buckets ≡ some b
          → (b' : Bucket F) × (lookup iv m'.buckets ≡ some b')
            × ((k : Text) → lookup k b' ≡ unless_due now (lookup k b)))
        × (m'.intervals ≡ m.intervals)
        × (flushed w' ≡ all_due_onto now m.buckets (flushed w))
  unfolding flush_expired flushed
  flush_expired_lem m w d =
      let now = orc.clock (reads_clock ∷ w) in
      (
        λ iv b e. expire_buckets-lookup now m.buckets iv b (reads_clock ∷ w) d e,
        refl,
        expire_buckets-flushed now m.buckets (reads_clock ∷ w),
      )
