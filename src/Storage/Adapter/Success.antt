-- ===== src/Storage/Adapter/Success.antt =====
-- Sequences of calls of storage/redis/adapter.go where the server answers every command.
use analytics_system.Prelude.{
  ℕ, ◌*◌, ◌≡◌, refl, subst, sym, ap, ◌∙◌, true, false, List, [], ◌∷◌, Option, none, some, is_some,
  Result, ok, err, is_ok, inl, inr, Bool-cases, Option-cases, Result-cases, arith, All,
}
use analytics_system.Prelude.Text.{Text, text_eq, text_eq_iff}
use analytics_system.Interval.{duration, truncate}
use analytics_system.Backoff.{RetryNotify}
use analytics_system.Aggregator.Candle.{Candle}
use analytics_system.Redis.{Rdb, State, get, set, del}
use analytics_system.Redis.Ops.{IsDatabase, text_or_empty}
use analytics_system.Redis.Laws.{get_keeps, get-ok, set_other, set-ok, del_other, del-ok}
use analytics_system.Redis.Answers.{IsAnswering, get-is_ok, set-none, del-is_ok}
use analytics_system.Storage.Adapter.{
  PbCandle, Codec, AdapterError, candle_to_proto, candle_key, decode_raw,
}
use analytics_system.Storage.Adapter.Shelf.{Shelf, IsCodec}
use analytics_system.Storage.Adapter.Steps.{Agrees, save_sets, load_gets, delete_dels}
use analytics_system.Storage.Adapter.Refinement.{
  Call, IsCall, on_adapter, all_on_adapter, all_on_shelf, calls-agree,
}

-- The interval of a call is known.
abbrev pub IsKnown : {F : Type 0} → Call F → Type 0
IsKnown (Call.saves c) = is_ok (duration c.interval) ≡ true
IsKnown (Call.loads symbol iv ts) = is_ok (duration iv) ≡ true
IsKnown (Call.deletes symbol iv ts) = is_ok (duration iv) ≡ true

known_duration : (iv : Text) → is_ok (duration iv) ≡ true → (d : ℕ) × (duration iv ≡ ok d)
known_duration iv known = elim (Result-cases (duration iv)) [
  | inl known' ↦ known'
  | inr (e, unknown) ↦ ground (arith, unknown, known)
]

-- What a key holds can be unmarshalled.
abbrev pub Readable : {F W : Type 0} → Codec F → (W → Text → Option Text) → W → Type 0
Readable codec holds w = (k v : Text) → holds w k ≡ some v → is_some (codec.unmarshal v) ≡ true

decode_raw-is_ok :
    (E : Type 0) {F : Type 0} (codec : Codec F) (iv v : Text)
    → is_some (codec.unmarshal v) ≡ true
    → is_ok (decode_raw {E = E} codec iv v) ≡ true
unfolding decode_raw
decode_raw-is_ok E codec iv [] readable = refl
decode_raw-is_ok E codec iv (c ∷ cs) readable = elim (Option-cases (codec.unmarshal (c ∷ cs))) [
  | inl lost ↦ ground (arith, lost, readable)
  | inr (pb, found) ↦ rw (found, is_ok, decode_raw) refl
]

held-is_ok :
    (E : Type 0) {F : Type 0} (codec : Codec F) (iv : Text) (held : Option Text)
    → ((v : Text) → held ≡ some v → is_some (codec.unmarshal v) ≡ true)
    → is_ok (decode_raw {E = E} codec iv (text_or_empty held)) ≡ true
unfolding decode_raw
held-is_ok E codec iv none readable = refl
held-is_ok E codec iv (some v) readable = decode_raw-is_ok E codec iv v (readable v refl)

module _ {F W : Type 0} (codec : Codec F) (holds : W → Text → Option Text) where
  changed-Readable :
      (w w' : W) (key : Text)
      → ((j : Text) → text_eq key j ≡ false → holds w' j ≡ holds w j)
      → ((v : Text) → holds w' key ≡ some v → is_some (codec.unmarshal v) ≡ true)
      → Readable codec holds w
      → Readable codec holds w'
  changed-Readable w w' key others here readable k v held = elim (Bool-cases (text_eq key k)) [
    | inl same ↦ here v (subst (λ j. holds w' j ≡ some v) (sym ((text_eq_iff key k).0 same)) held)
    | inr other ↦ readable k v (sym (others k other) ∙ held)
  ]

module _ {E F W : Type 0} {cancelled : E → Type 0} (codec : Codec F) (laws : IsCodec codec)
    (marshals : (p : PbCandle F) → is_some (codec.marshal p) ≡ true) (rdb : Rdb E W)
    (holds : W → Text → Option Text) (database : IsDatabase rdb holds) (answers : IsAnswering rdb)
    (lib : (S : Type 0) → RetryNotify E cancelled S) (timeout : ℕ)
    (not_nil : (x : E) → cancelled x → rdb.is_nil x ≡ false) where
  -- A call gives a value, and leaves what can be read.
  abbrev Succeeds : Result (AdapterError E) (Option (Candle F)) × State W → Type 0
  Succeeds (r, s') = (is_ok r ≡ true) × Readable codec holds s'.world.server

  abbrev failed_or_none : Option (AdapterError E) → Result (AdapterError E) (Option (Candle F))
  failed_or_none failed = elim failed [ none ↦ ok none | some e ↦ err e ]

  save-Succeeds :
      (c : Candle F) (s : State W)
      → is_ok (duration c.interval) ≡ true
      → Readable codec holds s.world.server
      → Succeeds (on_adapter codec rdb lib timeout (Call.saves c) s)
  unfolding on_adapter
  save-Succeeds c s known readable =
      let (d, length_of) = known_duration c.interval known in
      let key = candle_key codec.format c.symbol c.interval c.start in
      elim (Option-cases (codec.marshal (candle_to_proto c))) [
        | inl lost ↦ let there = marshals (candle_to_proto c) in ground (arith, lost, there)
        | inr (raw, good) ↦
            let put = set rdb lib timeout key raw (2 * d) s in
            let fine = set-none rdb answers lib timeout key raw (2 * d) s in
            let stored = set-ok rdb holds database lib timeout key raw (2 * d) s fine in
            let back = laws.round_trip (candle_to_proto c) raw good in
            let readable' =
              changed-Readable codec holds s.world.server put.1.world.server key
                (set_other rdb holds database lib timeout key raw (2 * d) s)
                (λ v held. ground (arith, stored, held, back)) readable in
            subst
              (λ (x : Option (AdapterError E) × State W).
                (is_ok (failed_or_none x.0) ≡ true) × Readable codec holds x.1.world.server)
              (sym (save_sets codec laws rdb holds database lib timeout c s raw d good length_of))
              (rw fine refl, readable')
      ]

  load-Succeeds :
      (symbol iv : Text) (ts : ℕ) (s : State W)
      → is_ok (duration iv) ≡ true
      → Readable codec holds s.world.server
      → Succeeds (on_adapter codec rdb lib timeout (Call.loads symbol iv ts) s)
  unfolding on_adapter
  load-Succeeds symbol iv ts s known readable =
      let (d, length_of) = known_duration iv known in
      let key = candle_key codec.format symbol iv (truncate ts d) in
      let got = get rdb lib timeout key s in
      elim (Result-cases got.0) [
        | inr (x, bad) ↦
            let fine = get-is_ok rdb answers lib timeout key s in ground (arith, bad, fine)
        | inl (raw, good) ↦
            let held = get-ok rdb holds database lib timeout key s raw not_nil good in
            let decoded = held-is_ok E codec iv (holds s.world.server key) (readable key) in
            subst Succeeds
              (sym (load_gets codec laws rdb holds database lib timeout symbol iv ts d s length_of))
              (
                rw good (rw held decoded),
                λ k v there.
                    readable k v (sym (get_keeps rdb holds database lib timeout key s k) ∙ there),
              )
      ]

  delete-Succeeds :
      (symbol iv : Text) (ts : ℕ) (s : State W)
      → is_ok (duration iv) ≡ true
      → Readable codec holds s.world.server
      → Succeeds (on_adapter codec rdb lib timeout (Call.deletes symbol iv ts) s)
  unfolding on_adapter
  delete-Succeeds symbol iv ts s known readable =
      let (d, length_of) = known_duration iv known in
      let key = candle_key codec.format symbol iv (truncate ts d) in
      let deleted = del rdb lib timeout (key ∷ []) s in
      elim (Result-cases deleted.0) [
        | inr (x, bad) ↦
            let fine = del-is_ok rdb answers lib timeout (key ∷ []) s in ground (arith, bad, fine)
        | inl (n, good) ↦
            let gone = del-ok rdb holds database lib timeout key n s good in
            let readable' =
              changed-Readable codec holds s.world.server deleted.1.world.server key
                (del_other rdb holds database lib timeout key s)
                (λ v held. ground (arith, gone, held)) readable in
            subst
              (λ (x : Option (AdapterError E) × State W).
                (is_ok (failed_or_none x.0) ≡ true) × Readable codec holds x.1.world.server)
              (sym
                (delete_dels codec laws rdb holds database lib timeout symbol iv ts d s length_of))
              (rw good refl, readable')
      ]

  call-Succeeds :
      (call : Call F) (s : State W)
      → IsKnown call
      → Readable codec holds s.world.server
      → Succeeds (on_adapter codec rdb lib timeout call s)
  call-Succeeds (Call.saves c) s known readable = save-Succeeds c s known readable
  call-Succeeds (Call.loads symbol iv ts) s known readable =
      load-Succeeds symbol iv ts s known readable
  call-Succeeds (Call.deletes symbol iv ts) s known readable =
      delete-Succeeds symbol iv ts s known readable

  all_on_adapter-is_ok :
      (calls : List (Call F)) (s : State W)
      → All IsKnown calls
      → Readable codec holds s.world.server
      → is_ok (all_on_adapter codec rdb lib timeout calls s).0 ≡ true
  unfolding all_on_adapter
  all_on_adapter-is_ok [] s known readable = refl
  all_on_adapter-is_ok (call ∷ calls) s known readable =
      let (done, readable') = call-Succeeds call s known.0 readable in
      let rest =
        all_on_adapter-is_ok calls (on_adapter codec rdb lib timeout call s).1 known.1 readable' in
      elim (Result-cases (on_adapter codec rdb lib timeout call s).0) [
        | inr (e, failed) ↦ ground (arith, failed, done)
        | inl (c, path) ↦
            elim (Result-cases
              (all_on_adapter codec rdb lib timeout calls
                (on_adapter codec rdb lib timeout call s).1).0) [
                  | inl (cs, more) ↦ rw (path, more, is_ok, all_on_adapter) refl
                  | inr (e, failed) ↦ ground (arith, failed, rest)
                ]
      ]

  -- Where the server answers every command, lets no key expire, and holds what can be read, any
  -- sequence of calls on known intervals, for symbols without a colon and bars that start at whole
  -- seconds, succeeds, gives what the same calls on the map of bars give, and leaves the server with
  -- the map that they leave.
  pub calls-refine :
      (calls : List (Call F)) (s : State W) (shelf : Shelf F)
      → All IsCall calls
      → All IsKnown calls
      → Readable codec holds s.world.server
      → Agrees codec holds s shelf
      → let (r, s') = all_on_adapter codec rdb lib timeout calls s in
        let (rs, shelf') = all_on_shelf calls shelf in (r ≡ ok rs) × Agrees codec holds s' shelf'
  calls-refine calls s shelf good known readable agrees =
      elim (Result-cases (all_on_adapter codec rdb lib timeout calls s).0) [
        | inl (rs, done) ↦
            let (same, agrees') =
              calls-agree codec laws rdb holds database lib timeout not_nil calls s shelf rs good
                agrees done in
            (done ∙ ap ok same, agrees')
        | inr (e, failed) ↦
            let fine = all_on_adapter-is_ok calls s known readable in ground (arith, failed, fine)
      ]
