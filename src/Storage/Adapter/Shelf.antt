-- ===== src/Storage/Adapter/Shelf.antt =====
-- The map of bars that the keys of storage/redis/adapter.go stand for.
use analytics_system.Prelude.{
  ℕ, ◌%◌, ◌≡◌, refl, Bool, false, ◌&&◌, [], ◌∷◌, Option, none, some, ok, inl, inr, Option-cases,
  Bool-cases, ◌==◌, if◌then◌else◌, arith,
}
use analytics_system.Prelude.Text.{Text, text_eq, text_eq_iff, is_empty}
use analytics_system.Interval.{second}
use analytics_system.Aggregator.Candle.{Candle}
use analytics_system.Redis.Ops.{text_or_empty}
use analytics_system.Storage.Adapter.{
  PbCandle, Codec, candle_to_proto, candle_of_proto, candle_key, decode_raw,
}
use analytics_system.Storage.Adapter.Keys.{IsEntry, candle_key_injective}

-- A map of bars: a candle or none for a symbol, an interval and a start.
abbrev pub Shelf : Type 0 → Type 0
Shelf F = Text → Text → ℕ → Option (Candle F)

abbrev pub same_entry : Text → Text → ℕ → Text → Text → ℕ → Bool
same_entry symbol iv start symbol' iv' start' =
    text_eq symbol symbol' && (text_eq iv iv' && start == start')

-- The map with another candle, or none, at one entry.
abbrev pub shelve : {F : Type 0} → Text → Text → ℕ → Option (Candle F) → Shelf F → Shelf F
shelve symbol iv start c shelf symbol' iv' start' =
    if same_entry symbol iv start symbol' iv' start' then c else shelf symbol' iv' start'

-- What the libraries promise: `Unmarshal` undoes `Marshal`, whose result is not empty, and whole
-- seconds that are formatted alike are the same.
pub record IsCodec {F : Type 0} (codec : Codec F) : Type 0 where
  pub round_trip :
      (p : PbCandle F) (raw : Text) → codec.marshal p ≡ some raw → codec.unmarshal raw ≡ some p
  pub not_empty : (p : PbCandle F) (raw : Text) → codec.marshal p ≡ some raw → is_empty raw ≡ false
  pub whole : (a b : ℕ) → a % second ≡ 0 → b % second ≡ 0 → codec.format a ≡ codec.format b → a ≡ b

split_entry :
    (symbol iv symbol' iv' : Text) (start start' : ℕ)
    → symbol ≡ symbol'
    → iv ≡ iv'
    → start ≡ start'
    → ¬ (same_entry symbol iv start symbol' iv' start' ≡ false)
split_entry symbol iv symbol' iv' start start' x y z e =
    ground (arith, text_eq_iff symbol symbol', text_eq_iff iv iv')

module _ {F : Type 0} (codec : Codec F) where
  -- The candle that a text stands for, if there is one.
  abbrev pub candle_of : Text → Text → Option (Candle F)
  candle_of iv [] = none
  candle_of iv (c ∷ cs) = elim (codec.unmarshal (c ∷ cs)) [
    | none ↦ none
    | some pb ↦ some (candle_of_proto iv pb)
  ]

  -- The map of bars that the keys of the server stand for.
  abbrev pub shelf_of : {W : Type 0} → (W → Text → Option Text) → W → Shelf F
  shelf_of holds w symbol iv start =
      candle_of iv (text_or_empty (holds w (candle_key codec.format symbol iv start)))

  pub other_key :
      (symbol iv symbol' iv' : Text) (start start' : ℕ)
      → IsCodec codec
      → IsEntry symbol iv start
      → IsEntry symbol' iv' start'
      → same_entry symbol iv start symbol' iv' start' ≡ false
      → text_eq
          (candle_key codec.format symbol iv start)
          (candle_key codec.format symbol' iv' start')
        ≡ false
  other_key symbol iv symbol' iv' start start' laws a b other =
      let key = candle_key codec.format symbol iv start in
      let key' = candle_key codec.format symbol' iv' start' in
      elim (Bool-cases (text_eq key key')) [
        | inl same ↦
            let (x, y, z) =
              candle_key_injective codec.format symbol iv symbol' iv' start start' laws.whole a b
                ((text_eq_iff key key').0 same) in
            absurd (split_entry symbol iv symbol' iv' start start' x y z other)
        | inr distinct ↦ distinct
      ]

  pub decode_raw-ok :
      {E : Type 0} (iv raw : Text) (r : Option (Candle F))
      → decode_raw {E = E} codec iv raw ≡ ok r
      → r ≡ candle_of iv raw
  unfolding decode_raw
  decode_raw-ok iv [] r e = ground (arith, e)
  decode_raw-ok iv (c ∷ cs) r e = elim (Option-cases (codec.unmarshal (c ∷ cs))) [
    | inl bad ↦ ground (arith, bad, e)
    | inr (pb, good) ↦ ground (arith, good, e)
  ]

  pub saved_candle :
      (c : Candle F) (raw : Text)
      → IsCodec codec
      → codec.marshal (candle_to_proto c) ≡ some raw
      → candle_of c.interval raw ≡ some (record c { complete = false })
  unfolding candle_to_proto candle_of_proto
  saved_candle c [] laws e = ground (arith, laws.not_empty (candle_to_proto c) [] e)
  saved_candle c (k ∷ ks) laws e =
      rw (laws.round_trip (candle_to_proto c) (k ∷ ks) e, candle_of) refl
