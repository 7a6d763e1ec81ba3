-- ===== src/Tests/Storage.antt =====
-- The storage of partial bars of services/preprocessor at concrete inputs.
use analytics_system.Prelude.{
  ℕ, ◌≡◌, refl, ap, subst, ◌+◌, ◌∙◌, ◌*◌, Bool, true, false, List, [], ◌∷◌, Option, none, some,
  Result, ok, err, is_ok, arith, is_some, if◌then◌else◌,
}
use analytics_system.Prelude.Text.{Text, codes, text_eq_refl, is_empty}
use analytics_system.Prelude.Map.{Map, lookup, insert, erase, lookup-insert, lookup-erase}
use analytics_system.Interval.{minute, interval_1m, duration}
use analytics_system.Aggregator.Candle.{Candle}
use analytics_system.Redis.{Rdb, State}
use analytics_system.Redis.Ops.{IsDatabase}
use analytics_system.Storage.Adapter.{PbCandle, Codec, AdapterError}
use analytics_system.Storage.Adapter.Shelf.{shelf_of, IsCodec}
use analytics_system.Storage.Adapter.Steps.{Agrees}
use analytics_system.Storage.Adapter.Refinement.{Call, all_on_shelf, all_on_adapter}
use analytics_system.Storage.Adapter.Success.{Readable, calls-refine}
use analytics_system.Redis.Answers.{IsAnswering}
use analytics_system.Tests.Common.{once}

-- A server that is a map. Its only error is that a key is missing.
abbrev map_del : List Text → Map Text → Map Text
map_del [] m = m
map_del (k ∷ ks) m = map_del ks (erase k m)

abbrev map_rdb : Rdb Bool (Map Text)
map_rdb = record {
  get = λ k m. (elim (lookup k m) [ none ↦ err true | some v ↦ ok v ], m);
  set = λ k v ttl m. (none, insert k v m);
  del = λ ks m. (ok 1, map_del ks m);
  exists = λ k m. (ok (if is_some (lookup k m) then 1 else 0), m);
  is_nil = λ e. e;
}

abbrev map_holds : Map Text → Text → Option Text
map_holds m k = lookup k m

map_get_ok :
    (found : Option Text) (v : Text)
    → ◌≡◌ {A = Result Bool Text} (elim found [ none ↦ err true | some v' ↦ ok v' ]) (ok v)
    → found ≡ some v
map_get_ok none v e = ground (arith, e)
map_get_ok (some v') v e = ground (arith, e)

map_get_nil :
    (found : Option Text) (x : Bool)
    → ◌≡◌ {A = Result Bool Text} (elim found [ none ↦ err true | some v' ↦ ok v' ]) (err x)
    → found ≡ none
map_get_nil none x e = refl
map_get_nil (some v') x e = ground (arith, e)

map-IsDatabase : IsDatabase map_rdb map_holds
map-IsDatabase = record {
  get_keeps = λ k j m. refl;
  get_ok = λ k v m e. map_get_ok (lookup k m) v e;
  get_nil = λ k x m e yes'. map_get_nil (lookup k m) x e;
  set_other = λ k v ttl m j other. lookup-insert k j v m ∙ rw other refl;
  set_ok = λ k v ttl m e. lookup-insert k k v m ∙ rw (text_eq_refl k) refl;
  del_other = λ k m j other. lookup-erase k j m ∙ rw other refl;
  del_ok = λ k n m e. lookup-erase k k m ∙ rw (text_eq_refl k) refl;
}

abbrev pub plain_marshal : PbCandle ℕ → Option Text
plain_marshal p =
    some
      (p.open_price ∷ p.high ∷ p.low ∷ p.close ∷ p.volume ∷ p.open_time ∷ p.close_time ∷ p.symbol)

abbrev pub plain_unmarshal : Text → Option (PbCandle ℕ)
plain_unmarshal (o ∷ h ∷ l ∷ c ∷ v ∷ s ∷ e ∷ symbol) = some (record {
  symbol = symbol;
  open_price = o;
  high = h;
  low = l;
  close = c;
  volume = v;
  open_time = s;
  close_time = e;
})
plain_unmarshal _ = none

abbrev pub plain_codec : Codec ℕ
plain_codec = record { marshal = plain_marshal; unmarshal = plain_unmarshal; format = λ t. t ∷ [] }

some-injective : {A : Type 0} {a b : A} → some a ≡ some b → a ≡ b
some-injective {A} {a} {b} e = ap (λ (o : Option A). elim o [ none ↦ a | some x ↦ x ]) e

plain_codec-IsCodec : IsCodec plain_codec
plain_codec-IsCodec = record {
  round_trip = λ p raw e. subst (λ r. plain_unmarshal r ≡ some p) (some-injective e) refl;
  not_empty = λ p raw e. subst (λ r. is_empty r ≡ false) (some-injective e) refl;
  whole = λ a b ha hb e. ground (arith, e);
}

abbrev bar : Candle ℕ
bar = record {
  symbol = codes "BTC";
  interval = interval_1m;
  start = 7 * minute;
  end = 8 * minute;
  open_price = 3;
  high = 5;
  low = 2;
  close = 4;
  volume = 10;
  complete = true;
}

abbrev calls : List (Call ℕ)
calls =
    Call.saves bar
    ∷ Call.loads (codes "BTC") interval_1m (7 * minute + 5)
    ∷ Call.deletes (codes "BTC") interval_1m (7 * minute + 5)
    ∷ Call.loads (codes "BTC") interval_1m (7 * minute)
    ∷ []

abbrev server : State (Map Text)
server = record {
  world = record { server = []; hits = 0; fails = 0 };
  tries = 0;
  retries = 0;
  failures = 0;
  successes = 0;
}

abbrev ran : Result (AdapterError Bool) (List (Option (Candle ℕ))) × State (Map Text)
ran = all_on_adapter {cancelled = λ e. ⊥} plain_codec map_rdb (λ S. once) 0 calls server

one_minute : duration interval_1m ≡ ok minute
unfolding duration
one_minute = ground arith

all_known : is_ok (duration interval_1m) ≡ true
all_known = rw one_minute refl

map_get_err :
    (found : Option Text) (x : Bool)
    → ◌≡◌ {A = Result Bool Text} (elim found [ none ↦ err true | some v' ↦ ok v' ]) (err x)
    → x ≡ true
map_get_err none x e = ground (arith, e)
map_get_err (some v') x e = ground (arith, e)

map-IsAnswering : IsAnswering map_rdb
map-IsAnswering = record {
  gets = λ k x m e. map_get_err (lookup k m) x e;
  sets = λ k v ttl m. refl;
  dels = λ ks x m e. ground (arith, e);
}

nothing-Readable : Readable plain_codec map_holds []
unfolding lookup
nothing-Readable k v e = ground (arith, e)

calls-refine_example :
    (ran.0 ≡ ok (all_on_shelf calls (shelf_of plain_codec map_holds [])).0)
    × Agrees plain_codec map_holds ran.1 (all_on_shelf calls (shelf_of plain_codec map_holds [])).1
calls-refine_example =
    calls-refine plain_codec plain_codec-IsCodec (λ p. refl) map_rdb map_holds map-IsDatabase
      map-IsAnswering (λ S. once) 0 (λ x c. absurd c) calls server
      (shelf_of plain_codec map_holds [])
      (
        record { plain = refl; length_of = minute; known = one_minute; whole = refl },
        (refl, (refl, (refl, tt))),
      )
      (all_known, (all_known, (all_known, (all_known, tt)))) nothing-Readable
      (λ symbol iv start entry. refl)
