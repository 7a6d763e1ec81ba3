-- ===== src/Backoff.antt =====
-- common/backoff: retries with exponential back-off. `RetryNotify` of github.com/cenkalti/backoff is
-- a parameter, with the behaviour that its documentation gives.
pub mod Counts
pub mod Settles
use analytics_system.Prelude.{
  ℕ, suc, ◌+◌, ◌≡◌, ◌⊎◌, Bool, true, false, Option, none, some, ltb, if◌then◌else◌,
}

-- An error as the retry loop tells it apart: `backoff.Permanent(err)` or any other.
pub data Fault (E : Type 0) : Type 0 where
  temporary permanent : E → Fault E

-- The runs of `RetryNotify(operation, backoff, notify)` from a state, by what they return, the state
-- that they leave and the number of times that the operation was called: the operation is called
-- until it succeeds, fails for good, the back-off says stop, or the context is cancelled, before or
-- during a wait; before each wait the callback is told of the error and the delay. The error is
-- that of the last call, or the context's, which `cancelled` tells.
pub data Attempts {E W : Type 0} (cancelled : E → Type 0) (op : W → Option (Fault E) × W)
    (notify : E → ℕ → W → W) : W → Option E → W → ℕ → Type 0 where
  succeeded : {w w' : W} → op w ≡ (none, w') → Attempts cancelled op notify w none w' 1
  refused :
      {w w' : W} {e : E}
      → op w ≡ (some (permanent e), w')
      → Attempts cancelled op notify w (some e) w' 1
  stopped :
      {w w' : W} {e : E} (e' : E)
      → op w ≡ (some (temporary e), w')
      → (e' ≡ e) ⊎ cancelled e'
      → Attempts cancelled op notify w (some e') w' 1
  interrupted :
      {w w' w'' : W} {e : E} (e' : E) (delay : ℕ)
      → op w ≡ (some (temporary e), w')
      → w'' ≡ notify e delay w'
      → cancelled e'
      → Attempts cancelled op notify w (some e') w'' 1
  again :
      {w w' w'' v : W} {e : E} {r : Option E} {n : ℕ} (delay : ℕ)
      → op w ≡ (some (temporary e), w')
      → w'' ≡ notify e delay w'
      → Attempts cancelled op notify w'' r v n
      → Attempts cancelled op notify w r v (suc n)

pub record RetryNotify (E : Type 0) (cancelled : E → Type 0) (W : Type 0) : Type 0 where
  pub run : (W → Option (Fault E) × W) → (E → ℕ → W → W) → W → Option E × W
  pub attempts :
      (op : W → Option (Fault E) × W) (notify : E → ℕ → W → W) (w : W)
      → (n : ℕ) × Attempts cancelled op notify w (run op notify w).0 (run op notify w).1 n

-- `ErrMaxRetries`
pub record ErrMaxRetries (E : Type 0) : Type 0 where
  pub error : E
  pub tries : ℕ

-- What `Execute` counts: its variable `attempts`, and the metrics of the package.
pub record Counters (W : Type 0) : Type 0 where
  pub world : W
  pub tries : ℕ
  pub retries : ℕ
  pub failures : ℕ
  pub successes : ℕ

module _ {E W : Type 0} where
  -- The closure `operation`; the timeout of one attempt goes to `fn` through its context.
  unfoldable pub operation :
      ℕ → (Option ℕ → W → Option (Fault E) × W) → Counters W → Option (Fault E) × Counters W
  operation per_attempt_timeout fn s =
      let (r, w) =
        fn (if ltb 0 per_attempt_timeout then some per_attempt_timeout else none) s.world in
      (r, record s { world = w; tries = s.tries + 1 })

  -- The closure `notifyWrap`
  unfoldable pub notify_wrap : (E → ℕ → ℕ → W → W) → E → ℕ → Counters W → Counters W
  notify_wrap notify e delay s = record s {
    world = notify e delay s.tries s.world;
    retries = s.retries + 1;
  }

module _ {E W : Type 0} {cancelled : E → Type 0} where
  -- `Execute`
  unfoldable pub execute :
      RetryNotify E cancelled (Counters W)
      → ℕ
      → (Option ℕ → W → Option (Fault E) × W)
      → (E → ℕ → ℕ → W → W)
      → Counters W
      → Option (ErrMaxRetries E) × Counters W
  unfolding operation notify_wrap
  execute lib per_attempt_timeout fn notify s =
      let (r, s') =
        lib.run (operation per_attempt_timeout fn) (notify_wrap notify) (record s { tries = 0 }) in
      elim r [
        | none ↦ (none, record s' { successes = s'.successes + 1 })
        | some e ↦ (
          some (record { error = e; tries = s'.tries }),
          record s' { failures = s'.failures + 1 },
        )
      ]
