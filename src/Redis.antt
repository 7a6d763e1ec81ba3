-- ===== src/Redis.antt =====
-- common/redis: redis.go and config.go. The driver github.com/go-redis/redis is a parameter that
-- acts on a state `W`, as is the retry loop that common/backoff calls.
pub mod Ops
pub mod Laws
pub mod Answers
use analytics_system.Prelude.{
  ℕ, ◌+◌, ◌≡◌, Bool, true, false, List, [], ◌∷◌, Option, none, some, Result, ok, err, if◌then◌else◌,
  ltb,
}
use analytics_system.Prelude.Text.{Text}
use analytics_system.Backoff.{
  Fault, temporary, permanent, RetryNotify, ErrMaxRetries, Counters, execute,
}

-- The commands of the driver. `is_nil` is `errors.Is(err, redis.Nil)`.
pub record Rdb (E W : Type 0) : Type 0 where
  pub get : Text → W → Result E Text × W
  pub set : Text → Text → ℕ → W → Option E × W
  pub del : List Text → W → Result E ℕ × W
  pub exists : Text → W → Result E ℕ × W
  pub is_nil : E → Bool

-- The server and the metrics `hits` and `fails` of the package.
pub record Metrics (W : Type 0) : Type 0 where
  pub server : W
  pub hits : ℕ
  pub fails : ℕ

-- What a call of `Execute` acts on: the variable that the closure assigns, and the client.
abbrev pub Held : Type 0 → Type 0 → Type 0
Held V W = V × Metrics W

abbrev pub State : Type 0 → Type 0
State W = Counters (Metrics W)

abbrev pub hold : {V W : Type 0} → V → State W → Counters (Held V W)
hold v s = record {
  world = (v, s.world);
  tries = s.tries;
  retries = s.retries;
  failures = s.failures;
  successes = s.successes;
}

abbrev pub release : {V W : Type 0} → Counters (Held V W) → State W
release s = record {
  world = s.world.1;
  tries = s.tries;
  retries = s.retries;
  failures = s.failures;
  successes = s.successes;
}

abbrev pub count_hit : {W : Type 0} → State W → State W
count_hit s = record s { world = record (s.world) { hits = s.world.hits + 1 } }

abbrev pub count_fail : {W : Type 0} → State W → State W
count_fail s = record s { world = record (s.world) { fails = s.world.fails + 1 } }

-- The callback `notify` of the four commands.
unfoldable pub notify_fail : {E V W : Type 0} → E → ℕ → ℕ → Held V W → Held V W
notify_fail e delay attempt (v, m) = (v, record m { fails = m.fails + 1 })

module _ {E W : Type 0} (rdb : Rdb E W) where
  -- The closure `op` of `Get`: a missing key is not tried again.
  unfoldable pub get_op : Text → Option ℕ → Held Text W → Option (Fault E) × Held Text W
  get_op key ctx (val, m) =
      let (r, w) = rdb.get key m.server in
      elim r [
        | ok v ↦ (none, (v, record m { server = w }))
        | err e ↦ (
          some (if rdb.is_nil e then permanent e else temporary e),
          (val, record m { server = w }),
        )
      ]

  unfoldable pub set_op : Text → Text → ℕ → Option ℕ → Held Bool W → Option (Fault E) × Held Bool W
  set_op key value ttl ctx (val, m) =
      let (r, w) = rdb.set key value ttl m.server in
      (elim r [ none ↦ none | some e ↦ some (temporary e) ], (val, record m { server = w }))

  unfoldable pub del_op : List Text → Option ℕ → Held ℕ W → Option (Fault E) × Held ℕ W
  del_op keys ctx (n, m) =
      let (r, w) = rdb.del keys m.server in
      elim r [
        | ok cnt ↦ (none, (cnt, record m { server = w }))
        | err e ↦ (some (temporary e), (n, record m { server = w }))
      ]

  unfoldable pub exists_op : Text → Option ℕ → Held Bool W → Option (Fault E) × Held Bool W
  exists_op key ctx (ex, m) =
      let (r, w) = rdb.exists key m.server in
      elim r [
        | ok v ↦ (none, (ltb 0 v, record m { server = w }))
        | err e ↦ (some (temporary e), (ex, record m { server = w }))
      ]

module _ {E W : Type 0} {cancelled : E → Type 0} (rdb : Rdb E W)
    (lib : (S : Type 0) → RetryNotify E cancelled S) (per_attempt_timeout : ℕ) where
  -- `client.Get`: a missing key gives the empty string.
  unfoldable pub get : Text → State W → Result (ErrMaxRetries E) Text × State W
  unfolding get_op notify_fail execute
  get key s =
      let (r, s') =
        execute (lib (Counters (Held Text W))) per_attempt_timeout (get_op rdb key) notify_fail
          (hold [] s) in
      elim r [
        | none ↦ (ok s'.world.0, count_hit (release s'))
        | some x ↦
            if rdb.is_nil x.error then (ok [], release s') else (err x, count_fail (release s'))
      ]

  -- `client.Set`; its closure assigns no variable.
  unfoldable pub set : Text → Text → ℕ → State W → Option (ErrMaxRetries E) × State W
  unfolding set_op notify_fail execute
  set key value ttl s =
      let (r, s') =
        execute (lib (Counters (Held Bool W))) per_attempt_timeout (set_op rdb key value ttl)
          notify_fail (hold false s) in
      elim r [ none ↦ (none, count_hit (release s')) | some x ↦ (some x, count_fail (release s')) ]

  -- `client.Del`, which returns how many keys there were.
  unfoldable pub del : List Text → State W → Result (ErrMaxRetries E) ℕ × State W
  unfolding del_op notify_fail execute
  del keys s =
      let (r, s') =
        execute (lib (Counters (Held ℕ W))) per_attempt_timeout (del_op rdb keys) notify_fail
          (hold 0 s) in
      elim r [
        | none ↦ (ok s'.world.0, count_hit (release s'))
        | some x ↦ (err x, count_fail (release s'))
      ]

  -- `client.Exists`
  unfoldable pub exists : Text → State W → Result (ErrMaxRetries E) Bool × State W
  unfolding exists_op notify_fail execute
  exists key s =
      let (r, s') =
        execute (lib (Counters (Held Bool W))) per_attempt_timeout (exists_op rdb key) notify_fail
          (hold false s) in
      elim r [
        | none ↦ (ok s'.world.0, count_hit (release s'))
        | some x ↦ (err x, count_fail (release s'))
      ]
