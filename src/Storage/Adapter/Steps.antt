-- ===== src/Storage/Adapter/Steps.antt =====
-- Each operation of storage/redis/adapter.go against those of a map of bars.
use analytics_system.Prelude.{
  ℕ, ◌*◌, ◌≡◌, refl, subst, sym, ap, ◌∙◌, true, false, [], ◌∷◌, Option, none, some, Result, ok, err,
  inl, inr, Option-cases, Result-cases, Bool-cases, arith,
}
use analytics_system.Prelude.Text.{Text, text_eq, text_eq_iff}
use analytics_system.Interval.{duration, truncate, align_to_interval}
use analytics_system.Backoff.{RetryNotify}
use analytics_system.Aggregator.Candle.{Candle}
use analytics_system.Redis.{Rdb, State, get, set, del}
use analytics_system.Redis.Ops.{IsDatabase, text_or_empty}
use analytics_system.Redis.Laws.{get_keeps, get-ok, set_other, set-ok, del_other, del-ok}
use analytics_system.Storage.Adapter.{
  Codec, AdapterError, candle_to_proto, candle_key, save, decode_raw, load_at, delete_at,
}
use analytics_system.Storage.Adapter.Keys.{IsEntry, has_colon, truncate_whole}
use analytics_system.Storage.Adapter.Shelf.{
  Shelf, same_entry, shelve, IsCodec, candle_of, shelf_of, other_key, decode_raw-ok, saved_candle,
}

-- The server holds the map, at every entry that a key can name.
abbrev pub Agrees : {F W : Type 0} → Codec F → (W → Text → Option Text) → State W → Shelf F → Type 0
Agrees codec holds s shelf =
    (symbol iv : Text) (start : ℕ)
    → IsEntry symbol iv start
    → shelf_of codec holds s.world.server symbol iv start ≡ shelf symbol iv start

same_entry-eq :
    (symbol iv symbol' iv' : Text) (start start' : ℕ)
    → same_entry symbol iv start symbol' iv' start' ≡ true
    → (symbol ≡ symbol') × (iv ≡ iv') × (start ≡ start')
same_entry-eq symbol iv symbol' iv' start start' e =
    ground (arith, text_eq_iff symbol symbol', text_eq_iff iv iv')

module _ {F W : Type 0} (codec : Codec F) (laws : IsCodec codec)
    (holds : W → Text → Option Text) where
  at_entry :
      (w : W) (symbol iv symbol' iv' : Text) (start start' : ℕ)
      → symbol ≡ symbol'
      → iv ≡ iv'
      → start ≡ start'
      → shelf_of codec holds w symbol' iv' start' ≡ shelf_of codec holds w symbol iv start
  at_entry w symbol iv symbol' iv' start start' x y z = cc

  -- A change of one key is a change of one entry.
  pub shelf_changed :
      (s s' : State W) (shelf : Shelf F) (symbol iv : Text) (start : ℕ) (v : Option Text)
      → IsEntry symbol iv start
      → ((j : Text)
          → text_eq (candle_key codec.format symbol iv start) j ≡ false
          → holds s'.world.server j ≡ holds s.world.server j)
      → holds s'.world.server (candle_key codec.format symbol iv start) ≡ v
      → Agrees codec holds s shelf
      → Agrees codec holds s' (shelve symbol iv start (candle_of codec iv (text_or_empty v)) shelf)
  shelf_changed s s' shelf symbol iv start v entry others key agrees symbol' iv' start' asked =
      elim (Bool-cases (same_entry symbol iv start symbol' iv' start')) [
        | inl same ↦
            let (x, y, z) = same_entry-eq symbol iv symbol' iv' start start' same in
            rw same (
              at_entry s'.world.server symbol iv symbol' iv' start start' x y z
              ∙ ap (λ w. candle_of codec iv (text_or_empty w)) key)
        | inr other ↦
            let k = other_key codec symbol iv symbol' iv' start start' laws entry asked other in
            rw other (
              ap (λ w. candle_of codec iv' (text_or_empty w)) (others _ k)
              ∙ agrees symbol' iv' start' asked)
      ]

module _ {E F W : Type 0} {cancelled : E → Type 0} (codec : Codec F) (laws : IsCodec codec)
    (rdb : Rdb E W) (holds : W → Text → Option Text) (database : IsDatabase rdb holds)
    (lib : (S : Type 0) → RetryNotify E cancelled S) (timeout : ℕ) where
  pub save_sets :
      (c : Candle F) (s : State W) (raw : Text) (d : ℕ)
      → codec.marshal (candle_to_proto c) ≡ some raw
      → duration c.interval ≡ ok d
      → let (r, s') =
          set rdb lib timeout (candle_key codec.format c.symbol c.interval c.start) raw (2 * d) s in
        save codec rdb lib timeout c s
        ≡ (elim r [ none ↦ none | some e ↦ some (AdapterError.redis_failed e) ], s')
  unfolding save
  save_sets c s raw d good known = rw (good, known, save) refl

  save_needs :
      (c : Candle F) (s : State W)
      → (save codec rdb lib timeout c s).0 ≡ none
      → (raw : Text) × (codec.marshal (candle_to_proto c) ≡ some raw)
  unfolding save
  save_needs c s e = elim (Option-cases (codec.marshal (candle_to_proto c))) [
    | inl bad ↦ ground (arith, bad, e)
    | inr (raw, good) ↦ (raw, good)
  ]

  -- `Save` without an error puts the candle on the map, as one that is not complete.
  pub save_step :
      (c : Candle F) (s : State W) (shelf : Shelf F)
      → IsEntry c.symbol c.interval c.start
      → Agrees codec holds s shelf
      → (save codec rdb lib timeout c s).0 ≡ none
      → Agrees codec holds
          (save codec rdb lib timeout c s).1
          (shelve c.symbol c.interval c.start (some (record c { complete = false })) shelf)
  save_step c s shelf entry agrees e =
      let (raw, good) = save_needs c s e in
      let key = candle_key codec.format c.symbol c.interval c.start in
      let put = set rdb lib timeout key raw (2 * entry.length_of) s in
      let path = save_sets c s raw entry.length_of good entry.known in
      let done : put.0 ≡ none = ground (arith, path, e) in
      let changed =
        shelf_changed codec laws holds s put.1 shelf c.symbol c.interval c.start (some raw) entry
          (set_other rdb holds database lib timeout key raw (2 * entry.length_of) s)
          (set-ok rdb holds database lib timeout key raw (2 * entry.length_of) s done) agrees in
      subst
        (λ (r : Option (AdapterError E) × State W).
          Agrees codec holds r.1
            (shelve c.symbol c.interval c.start (some (record c { complete = false })) shelf))
        (sym path)
        (subst (λ x. Agrees codec holds put.1 (shelve c.symbol c.interval c.start x shelf))
          (saved_candle codec c raw laws good) changed)

  pub load_gets :
      (symbol iv : Text) (ts d : ℕ) (s : State W)
      → duration iv ≡ ok d
      → let (r, s') = get rdb lib timeout (candle_key codec.format symbol iv (truncate ts d)) s in
        load_at codec rdb lib timeout symbol iv ts s ≡ (
          elim r [ err e ↦ err (AdapterError.redis_failed e) | ok raw ↦ decode_raw codec iv raw ],
          s',
        )
  unfolding load_at align_to_interval
  load_gets symbol iv ts d s known = rw (known, load_at) refl

  -- `LoadAt` without an error gives what the map has for the bar that holds the time, and changes
  -- nothing.
  pub load_at_step :
      (symbol iv : Text) (ts d : ℕ) (s : State W) (shelf : Shelf F) (r : Option (Candle F))
      → ((x : E) → cancelled x → rdb.is_nil x ≡ false)
      → has_colon symbol ≡ false
      → duration iv ≡ ok d
      → Agrees codec holds s shelf
      → (load_at codec rdb lib timeout symbol iv ts s).0 ≡ ok r
      → (r ≡ shelf symbol iv (truncate ts d))
        × Agrees codec holds (load_at codec rdb lib timeout symbol iv ts s).1 shelf
  load_at_step symbol iv ts d s shelf r not_nil plain known agrees e =
      let key = candle_key codec.format symbol iv (truncate ts d) in
      let path = load_gets symbol iv ts d s known in
      let got = get rdb lib timeout key s in
      let entry : IsEntry symbol iv (truncate ts d) = record {
        plain = plain;
        length_of = d;
        known = known;
        whole = truncate_whole ts iv d known;
      } in
      elim (Result-cases got.0) [
        | inl (raw, good) ↦
            let held = get-ok rdb holds database lib timeout key s raw not_nil good in
            let decoded : decode_raw {E = E} codec iv raw ≡ ok r = ground (arith, path, good, e) in
            (
              decode_raw-ok codec iv raw r decoded
                  ∙ ap (candle_of codec iv) held
                  ∙ agrees symbol iv (truncate ts d) entry,
              subst
                  (λ (x : Result (AdapterError E) (Option (Candle F)) × State W).
                    Agrees codec holds x.1 shelf)
                  (sym path)
                  (λ symbol' iv' start asked.
                    ap (λ w. candle_of codec iv' (text_or_empty w))
                      (get_keeps rdb holds database lib timeout key s _)
                    ∙ agrees symbol' iv' start asked),
            )
        | inr (x, bad) ↦ absurd (ground (arith, path, bad, e))
      ]

  pub delete_dels :
      (symbol iv : Text) (ts d : ℕ) (s : State W)
      → duration iv ≡ ok d
      → let (r, s') =
          del rdb lib timeout (candle_key codec.format symbol iv (truncate ts d) ∷ []) s in
        delete_at codec rdb lib timeout symbol iv ts s
        ≡ (elim r [ err e ↦ some (AdapterError.redis_failed e) | ok n ↦ none ], s')
  unfolding delete_at align_to_interval
  delete_dels symbol iv ts d s known = rw (known, delete_at) refl

  -- `DeleteAt` without an error takes the bar that holds the time off the map.
  pub delete_at_step :
      (symbol iv : Text) (ts d : ℕ) (s : State W) (shelf : Shelf F)
      → has_colon symbol ≡ false
      → duration iv ≡ ok d
      → Agrees codec holds s shelf
      → (delete_at codec rdb lib timeout symbol iv ts s).0 ≡ none
      → Agrees codec holds
          (delete_at codec rdb lib timeout symbol iv ts s).1
          (shelve symbol iv (truncate ts d) none shelf)
  delete_at_step symbol iv ts d s shelf plain known agrees e =
      let key = candle_key codec.format symbol iv (truncate ts d) in
      let path = delete_dels symbol iv ts d s known in
      let gone = del rdb lib timeout (key ∷ []) s in
      let entry : IsEntry symbol iv (truncate ts d) = record {
        plain = plain;
        length_of = d;
        known = known;
        whole = truncate_whole ts iv d known;
      } in
      elim (Result-cases gone.0) [
        | inl (n, done) ↦
            subst
              (λ (x : Option (AdapterError E) × State W).
                Agrees codec holds x.1 (shelve symbol iv (truncate ts d) none shelf))
              (sym path)
              (shelf_changed codec laws holds s gone.1 shelf symbol iv (truncate ts d) none entry
                (del_other rdb holds database lib timeout key s)
                (del-ok rdb holds database lib timeout key n s done) agrees)
        | inr (x, bad) ↦ absurd (ground (arith, path, bad, e))
      ]
