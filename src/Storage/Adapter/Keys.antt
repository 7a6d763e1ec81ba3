-- ===== src/Storage/Adapter/Keys.antt =====
-- The keys of storage/redis/adapter.go: different entries have different keys.
use analytics_system.Prelude.{
  ℕ, ◌%◌, drop, ◌≡◌, ap, Bool, false, [], ◌∷◌, ◌++◌, ok, any, ◌==◌, arith,
}
use analytics_system.Prelude.Text.{Text, text_eq_iff}
use analytics_system.Interval.{
  duration, truncate, second, interval_1m, interval_5m, interval_15m, interval_1h, interval_4h,
  interval_1d,
}
use analytics_system.Interval.Align.{truncate-mod}
use analytics_system.Storage.Adapter.{candle_key}

abbrev pub has_colon : Text → Bool
has_colon = any (λ c. c == 58)

-- An entry that a key can name: a symbol without a colon, a known interval, whole seconds.
pub record IsEntry (symbol iv : Text) (start : ℕ) : Type 0 where
  pub plain : has_colon symbol ≡ false
  pub length_of : ℕ
  pub known : duration iv ≡ ok length_of
  pub whole : start % second ≡ 0

duration_plain : (iv : Text) {d : ℕ} → duration iv ≡ ok d → has_colon iv ≡ false
unfolding duration
duration_plain iv h = ground (
  arith,
  text_eq_iff interval_1m iv,
  text_eq_iff interval_5m iv,
  text_eq_iff interval_15m iv,
  text_eq_iff interval_1h iv,
  text_eq_iff interval_4h iv,
  text_eq_iff interval_1d iv,
)

-- A bar of a known interval starts at a whole second.
pub truncate_whole : (ts : ℕ) (iv : Text) (d : ℕ) → duration iv ≡ ok d → truncate ts d % second ≡ 0
unfolding duration
truncate_whole ts iv d h = ground (arith, truncate-mod ts d)

split_colon :
    (a b x y : Text)
    → has_colon a ≡ false
    → has_colon b ≡ false
    → a ++ (58 ∷ x) ≡ b ++ (58 ∷ y)
    → (a ≡ b) × (x ≡ y)
split_colon [] [] x y ha hb e = ground (arith, e)
split_colon [] (c ∷ cs) x y ha hb e = ground (arith, e)
split_colon (c ∷ cs) [] x y ha hb e = ground (arith, e)
split_colon (c ∷ cs) (k ∷ ks) x y ha hb e = ground (arith, split_colon cs ks x y)

-- Two entries with one key are one entry.
pub candle_key_injective :
    (format : ℕ → Text) (symbol iv symbol' iv' : Text) (start start' : ℕ)
    → ((a b : ℕ) → a % second ≡ 0 → b % second ≡ 0 → format a ≡ format b → a ≡ b)
    → IsEntry symbol iv start
    → IsEntry symbol' iv' start'
    → candle_key format symbol iv start ≡ candle_key format symbol' iv' start'
    → (symbol ≡ symbol') × (iv ≡ iv') × (start ≡ start')
unfolding candle_key
candle_key_injective format symbol iv symbol' iv' start start' whole a b e =
    let (s, e') = split_colon symbol symbol' _ _ a.plain b.plain (ap (drop 6) e) in
    let (i, f) =
      split_colon iv iv' _ _ (duration_plain iv a.known) (duration_plain iv' b.known) e' in
    (s, i, whole start start' a.whole b.whole f)
