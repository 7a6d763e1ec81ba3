-- ===== src/Aggregator/Candle/Update.antt =====
-- A bar that is opened by one tick and updated by others.
use analytics_system.Prelude.{
  ℕ, ◌≡◌, refl, Bool, true, false, List, [], ◌∷◌, arith, if◌then◌else◌, All, Any, All-mono, returns,
  ok, inl, inr, ◌≤◌, ◌<◌, ◌+◌, ◌%◌,
}
use analytics_system.Prelude.Text.{Text}
use analytics_system.Aggregator.Float.{FloatOps, IsOrdered}
use analytics_system.Aggregator.Candle.{
  Candle, CandleState, update, new_candle_state, opened, new_candle_state_lem,
}
use analytics_system.Interval.{duration}
use analytics_system.Interval.Align.{truncate_bounds, truncate-mod}
use analytics_system.Interval.Laws.{duration_divides_day}

pub record Tick (F : Type 0) : Type 0 where
  pub ts : ℕ
  pub price : F
  pub volume : F

module _ {F : Type 0} (o : FloatOps F) where
  -- The ticks of one bar, oldest first.
  unfoldable pub update_all : CandleState F → List (Tick F) → CandleState F
  unfolding update
  update_all cs [] = cs
  update_all cs (t ∷ rest) = update_all (update o cs t.ts t.price t.volume) rest

  unfoldable pub sum_volumes : F → List (Tick F) → F
  sum_volumes v [] = v
  sum_volumes v (t ∷ rest) = sum_volumes (o.plus v t.volume) rest

  unfoldable pub last_price : F → List (Tick F) → F
  last_price p [] = p
  last_price p (t ∷ rest) = last_price t.price rest

  -- The prices seen so far, the newest first.
  unfoldable pub prices_onto : List F → List (Tick F) → List F
  prices_onto ps [] = ps
  prices_onto ps (t ∷ rest) = prices_onto (t.price ∷ ps) rest

  -- What the ticks do to the other fields.
  update_all-fields :
      (cs : CandleState F) (ticks : List (Tick F))
      → let c = (update_all cs ticks).candle in
        (c.close ≡ last_price cs.candle.close ticks)
        × (c.volume ≡ sum_volumes cs.candle.volume ticks)
        × (c.open_price ≡ cs.candle.open_price)
        × (c.start ≡ cs.candle.start)
        × (c.end ≡ cs.candle.end)
        × (c.symbol ≡ cs.candle.symbol)
        × (c.interval ≡ cs.candle.interval)
        × (c.complete ≡ cs.candle.complete)
  unfolding update_all last_price sum_volumes
  update_all-fields cs [] = (refl, refl, refl, refl, refl, refl, refl, refl)
  update_all-fields cs (t ∷ rest) = update_all-fields (update o cs t.ts t.price t.volume) rest

  module _ (IsNumber : F → Type 0) (ord : IsOrdered o IsNumber) where
    -- The high is one of the prices and below none, the low is one of them and above none.
    pub record Spans (ps : List F) (c : Candle F) : Type 0 where
      pub high_number : IsNumber c.high
      pub low_number : IsNumber c.low
      pub high_bounds : All (λ p. IsNumber p × (o.less c.high p ≡ false)) ps
      pub low_bounds : All (λ p. IsNumber p × (o.less p c.low ≡ false)) ps
      pub high_seen : Any (λ p. c.high ≡ p) ps
      pub low_seen : Any (λ p. c.low ≡ p) ps

    raise_high :
        (hi price : F) (ps : List F) (b : Bool)
        → o.less hi price ≡ b
        → IsNumber price
        → IsNumber hi
        → All (λ p. IsNumber p × (o.less hi p ≡ false)) ps
        → Any (λ p. hi ≡ p) ps
        → let top = (if b then price else hi) in
          IsNumber top
          × All (λ p. IsNumber p × (o.less top p ≡ false)) (price ∷ ps)
          × Any (λ p. top ≡ p) (price ∷ ps)
    raise_high hi price ps true e n h bounds seen = (
      n,
      (
        (n, ord.irrefl price n),
        All-mono (λ p b. (b.0, ord.trans p hi price b.0 h n b.1 (ord.asym hi price h n e))) ps
            bounds,
      ),
      inl refl,
    )
    raise_high hi price ps false e n h bounds seen = (h, ((n, e), bounds), inr seen)

    lower_low :
        (lo price : F) (ps : List F) (b : Bool)
        → o.less price lo ≡ b
        → IsNumber price
        → IsNumber lo
        → All (λ p. IsNumber p × (o.less p lo ≡ false)) ps
        → Any (λ p. lo ≡ p) ps
        → let bottom = (if b then price else lo) in
          IsNumber bottom
          × All (λ p. IsNumber p × (o.less p bottom ≡ false)) (price ∷ ps)
          × Any (λ p. bottom ≡ p) (price ∷ ps)
    lower_low lo price ps true e n h bounds seen = (
      n,
      (
        (n, ord.irrefl price n),
        All-mono (λ p b. (b.0, ord.trans price lo p n h b.0 (ord.asym price lo n h e) b.1)) ps
            bounds,
      ),
      inl refl,
    )
    lower_low lo price ps false e n h bounds seen = (h, ((n, e), bounds), inr seen)

    pub update-Spans :
        (cs : CandleState F) (ts : ℕ) (price volume : F) (ps : List F)
        → IsNumber price
        → Spans ps cs.candle
        → Spans (price ∷ ps) (update o cs ts price volume).candle
    unfolding update
    update-Spans cs ts price volume ps n h =
        let (hn, hb, hs) =
          raise_high cs.candle.high price ps (o.less cs.candle.high price) refl n h.high_number
            h.high_bounds h.high_seen in
        let (ln, lb, ls) =
          lower_low cs.candle.low price ps (o.less price cs.candle.low) refl n h.low_number
            h.low_bounds h.low_seen in
        record {
          high_number = hn;
          low_number = ln;
          high_bounds = hb;
          low_bounds = lb;
          high_seen = hs;
          low_seen = ls;
        }

    pub update_all-Spans :
        (cs : CandleState F) (ticks : List (Tick F)) (ps : List F)
        → All (λ t. IsNumber t.price) ticks
        → Spans ps cs.candle
        → Spans (prices_onto ps ticks) (update_all cs ticks).candle
    unfolding update_all prices_onto
    update_all-Spans cs [] ps n h = h
    update_all-Spans cs (t ∷ rest) ps n h =
        update_all-Spans (update o cs t.ts t.price t.volume) rest (t.price ∷ ps) n.1
          (update-Spans cs t.ts t.price t.volume ps n.0 h)

    opened-Spans :
        (symbol iv : Text) (ts dur : ℕ) (price volume : F)
        → IsNumber price
        → Spans (price ∷ []) (opened symbol iv ts dur price volume).candle
    opened-Spans symbol iv ts dur price volume n = record {
      high_number = n;
      low_number = n;
      high_bounds = ((n, ord.irrefl price n), tt);
      low_bounds = ((n, ord.irrefl price n), tt);
      high_seen = inl refl;
      low_seen = inl refl;
    }

    -- A bar opened by the tick (ts, price, volume) on an interval of length `dur` and updated by
    -- `ticks`, whose prices are all numbers, opens at the first price, closes at the last, adds up
    -- the volumes in order, spans exactly the prices seen, and covers an aligned stretch
    -- of `dur` that holds the first tick; if `<` orders the values that are numbers.
    pub bar_of_ticks :
        (symbol iv : Text) (ts dur : ℕ) (price volume : F) (ticks : List (Tick F))
        → duration iv ≡ ok dur
        → IsNumber price
        → All (λ t. IsNumber t.price) ticks
        → (cs : CandleState F) × (new_candle_state symbol iv ts price volume ≡ returns cs)
          × (let c = (update_all cs ticks).candle in
              Spans (prices_onto (price ∷ []) ticks) c
              × (c.open_price ≡ price)
              × (c.close ≡ last_price price ticks)
              × (c.volume ≡ sum_volumes volume ticks)
              × (c.symbol ≡ symbol)
              × (c.interval ≡ iv)
              × (c.start ≤ ts)
              × (ts < c.end)
              × (c.end ≡ c.start + dur)
              × (c.start % dur ≡ 0))
    bar_of_ticks symbol iv ts dur price volume ticks known n ns =
        let first = opened symbol iv ts dur price volume in
        let (close, total, opening, start, end', sym', iv', _) = update_all-fields first ticks in
        let (low, high) = truncate_bounds ts dur (duration_divides_day iv known).0 in
        (
          first,
          new_candle_state_lem symbol iv ts dur price volume known,
          (
            update_all-Spans first ticks (price ∷ []) ns
                (opened-Spans symbol iv ts dur price volume n),
            opening,
            close,
            total,
            sym',
            iv',
            omega (arith, start),
            omega (arith, end'),
            omega (arith, start, end'),
            rw start (truncate-mod ts dur),
          ),
        )
