-- ===== src/Storage/Adapter/Refinement.antt =====
-- Sequences of calls of storage/redis/adapter.go against a map of bars.
use analytics_system.Prelude.{
  ℕ, ◌≡◌, refl, subst, sym, false, List, [], ◌∷◌, Option, none, some, Result, ok, err, inl, inr,
  Option-cases, Result-cases, arith, All,
}
use analytics_system.Prelude.Text.{Text}
use analytics_system.Interval.{duration, truncate, align_to_interval}
use analytics_system.Backoff.{RetryNotify}
use analytics_system.Aggregator.Candle.{Candle}
use analytics_system.Redis.{Rdb, State}
use analytics_system.Redis.Ops.{IsDatabase}
use analytics_system.Storage.Adapter.{Codec, AdapterError, save, load_at, delete_at}
use analytics_system.Storage.Adapter.Keys.{IsEntry, has_colon}
use analytics_system.Storage.Adapter.Shelf.{Shelf, shelve, IsCodec}
use analytics_system.Storage.Adapter.Steps.{Agrees, save_step, load_at_step, delete_at_step}

-- A call of the adapter.
pub data Call (F : Type 0) : Type 0 where
  saves : Candle F → Call F
  loads deletes : Text → Text → ℕ → Call F

-- A symbol that a call names has no colon, and a candle that it saves starts at a whole second of a
-- known interval.
abbrev pub IsCall : {F : Type 0} → Call F → Type 0
IsCall (Call.saves c) = IsEntry c.symbol c.interval c.start
IsCall (Call.loads symbol iv ts) = has_colon symbol ≡ false
IsCall (Call.deletes symbol iv ts) = has_colon symbol ≡ false

-- The start of the bar that holds a time.
abbrev pub bar_start : Text → ℕ → ℕ
bar_start iv ts = elim (duration iv) [ ok d ↦ truncate ts d | err e ↦ ts ]

truncate_bar : (iv : Text) (ts d : ℕ) → duration iv ≡ ok d → truncate ts d ≡ bar_start iv ts
truncate_bar iv ts d known = rw (known, bar_start) refl

-- The calls on a map of bars: what a load gives, or none, and the map that is left.
abbrev pub on_shelf : {F : Type 0} → Call F → Shelf F → Option (Candle F) × Shelf F
on_shelf (Call.saves c) shelf =
    (none, shelve c.symbol c.interval c.start (some (record c { complete = false })) shelf)
on_shelf (Call.loads symbol iv ts) shelf = (shelf symbol iv (bar_start iv ts), shelf)
on_shelf (Call.deletes symbol iv ts) shelf = (none, shelve symbol iv (bar_start iv ts) none shelf)

abbrev pub all_on_shelf :
    {F : Type 0} → List (Call F) → Shelf F → List (Option (Candle F)) × Shelf F
all_on_shelf [] shelf = ([], shelf)
all_on_shelf (call ∷ calls) shelf =
    let (r, shelf') = on_shelf call shelf in
    let (rs, shelf'') = all_on_shelf calls shelf' in (r ∷ rs, shelf'')

module _ {E F W : Type 0} {cancelled : E → Type 0} (codec : Codec F) (rdb : Rdb E W)
    (lib : (S : Type 0) → RetryNotify E cancelled S) (timeout : ℕ) where
  -- One call, with the candle of a load.
  unfoldable pub on_adapter :
      Call F → State W → Result (AdapterError E) (Option (Candle F)) × State W
  unfolding save load_at delete_at
  on_adapter (Call.saves c) s =
      let (failed, s') = save codec rdb lib timeout c s in
      (elim failed [ none ↦ ok none | some e ↦ err e ], s')
  on_adapter (Call.loads symbol iv ts) s = load_at codec rdb lib timeout symbol iv ts s
  on_adapter (Call.deletes symbol iv ts) s =
      let (failed, s') = delete_at codec rdb lib timeout symbol iv ts s in
      (elim failed [ none ↦ ok none | some e ↦ err e ], s')

  -- Calls one after the other, up to the first that fails.
  unfoldable pub all_on_adapter :
      List (Call F) → State W → Result (AdapterError E) (List (Option (Candle F))) × State W
  unfolding on_adapter
  all_on_adapter [] s = (ok [], s)
  all_on_adapter (call ∷ calls) s =
      let (r, s') = on_adapter call s in
      let (rs, s'') = all_on_adapter calls s' in
      elim r [ err e ↦ (err e, s') | ok c ↦ (elim rs [ ok cs ↦ ok (c ∷ cs) | err e ↦ err e ], s'') ]

module _ {E F W : Type 0} {cancelled : E → Type 0} (codec : Codec F) (laws : IsCodec codec)
    (rdb : Rdb E W) (holds : W → Text → Option Text) (database : IsDatabase rdb holds)
    (lib : (S : Type 0) → RetryNotify E cancelled S) (timeout : ℕ)
    (not_nil : (x : E) → cancelled x → rdb.is_nil x ≡ false) where
  load_at_known :
      (symbol iv : Text) (ts : ℕ) (s : State W) (r : Option (Candle F))
      → (load_at codec rdb lib timeout symbol iv ts s).0 ≡ ok r
      → (d : ℕ) × (duration iv ≡ ok d)
  unfolding load_at align_to_interval
  load_at_known symbol iv ts s r e = elim (Result-cases (duration iv)) [
    | inl (d, known) ↦ (d, known)
    | inr (x, unknown) ↦ ground (arith, unknown, e)
  ]

  delete_at_known :
      (symbol iv : Text) (ts : ℕ) (s : State W)
      → (delete_at codec rdb lib timeout symbol iv ts s).0 ≡ none
      → (d : ℕ) × (duration iv ≡ ok d)
  unfolding delete_at align_to_interval
  delete_at_known symbol iv ts s e = elim (Result-cases (duration iv)) [
    | inl (d, known) ↦ (d, known)
    | inr (x, unknown) ↦ ground (arith, unknown, e)
  ]

  on_adapter_step :
      (call : Call F) (s : State W) (shelf : Shelf F) (r : Option (Candle F))
      → IsCall call
      → Agrees codec holds s shelf
      → (on_adapter codec rdb lib timeout call s).0 ≡ ok r
      → (r ≡ (on_shelf call shelf).0)
        × Agrees codec holds (on_adapter codec rdb lib timeout call s).1 (on_shelf call shelf).1
  unfolding on_adapter
  on_adapter_step (Call.saves c) s shelf r good agrees e =
      elim (Option-cases (save codec rdb lib timeout c s).0) [
        | inl done ↦ (
          ground (arith, done, e),
          save_step codec laws rdb holds database lib timeout c s shelf good agrees done,
        )
        | inr (x, failed) ↦ absurd (ground (arith, failed, e))
      ]
  on_adapter_step (Call.loads symbol iv ts) s shelf r good agrees e =
      let (d, known) = load_at_known symbol iv ts s r e in
      let step =
        load_at_step codec laws rdb holds database lib timeout symbol iv ts d s shelf r not_nil good
          known agrees e in
      (rw known step.0, step.1)
  on_adapter_step (Call.deletes symbol iv ts) s shelf r good agrees e =
      elim (Option-cases (delete_at codec rdb lib timeout symbol iv ts s).0) [
        | inl done ↦
            let (d, known) = delete_at_known symbol iv ts s done in
            (
              ground (arith, done, e),
              subst
                  (λ t.
                    Agrees codec holds (delete_at codec rdb lib timeout symbol iv ts s).1
                      (shelve symbol iv t none shelf))
                  (truncate_bar iv ts d known)
                  (delete_at_step codec laws rdb holds database lib timeout symbol iv ts d s shelf
                    good known agrees done),
            )
        | inr (x, failed) ↦ absurd (ground (arith, failed, e))
      ]

  no_calls : (s : State W) → all_on_adapter codec rdb lib timeout [] s ≡ (ok [], s)
  unfolding all_on_adapter
  no_calls s = refl

  first_of_calls :
      (call : Call F) (calls : List (Call F)) (s : State W) (c : Option (Candle F))
      → (on_adapter codec rdb lib timeout call s).0 ≡ ok c
      → let (rs, s') =
          all_on_adapter codec rdb lib timeout calls (on_adapter codec rdb lib timeout call s).1 in
        all_on_adapter codec rdb lib timeout (call ∷ calls) s
        ≡ (elim rs [ ok cs ↦ ok (c ∷ cs) | err e ↦ err e ], s')
  unfolding all_on_adapter
  first_of_calls call calls s c e = rw (e, all_on_adapter) refl

  first_done :
      (call : Call F) (calls : List (Call F)) (s : State W) (rs : List (Option (Candle F)))
      → (all_on_adapter codec rdb lib timeout (call ∷ calls) s).0 ≡ ok rs
      → (c : Option (Candle F)) × (on_adapter codec rdb lib timeout call s).0 ≡ ok c
  unfolding all_on_adapter
  first_done call calls s rs e = elim (Result-cases (on_adapter codec rdb lib timeout call s).0) [
    | inl (c, done) ↦ (c, done)
    | inr (x, failed) ↦ absurd (ground (arith, failed, e))
  ]

  -- Calls that all succeed give what the same calls on the map of bars give, and leave the server
  -- with the map that they leave.
  pub calls-agree :
      (calls : List (Call F)) (s : State W) (shelf : Shelf F) (rs : List (Option (Candle F)))
      → All IsCall calls
      → Agrees codec holds s shelf
      → (all_on_adapter codec rdb lib timeout calls s).0 ≡ ok rs
      → (rs ≡ (all_on_shelf calls shelf).0)
        × Agrees codec holds
            (all_on_adapter codec rdb lib timeout calls s).1
            (all_on_shelf calls shelf).1
  calls-agree [] s shelf rs good agrees e = (
    ground (arith, no_calls s, e),
    subst
        (λ (x : Result (AdapterError E) (List (Option (Candle F))) × State W).
          Agrees codec holds x.1 shelf)
        (sym (no_calls s)) agrees,
  )
  calls-agree (call ∷ calls) s shelf rs good agrees e =
      let (c, done) = first_done call calls s rs e in
      let s' = (on_adapter codec rdb lib timeout call s).1 in
      let path = first_of_calls call calls s c done in
      let (given, agrees') = on_adapter_step call s shelf c good.0 agrees done in
      elim (Result-cases (all_on_adapter codec rdb lib timeout calls s').0) [
        | inl (cs, rest) ↦
            let (same, agrees'') =
              calls-agree calls s' (on_shelf call shelf).1 cs good.1 agrees' rest in
            (
              ground (arith, path, rest, e, given, same),
              subst
                  (λ (x : Result (AdapterError E) (List (Option (Candle F))) × State W).
                    Agrees codec holds x.1 (all_on_shelf (call ∷ calls) shelf).1)
                  (sym path) agrees'',
            )
        | inr (x, failed) ↦ absurd (ground (arith, path, failed, e))
      ]
