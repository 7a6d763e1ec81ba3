-- ===== src/Backoff/Counts.antt =====
-- What `Execute` counts, against the attempts that were made.
use analytics_system.Prelude.{
  ℕ, ◌+◌, ◌≤◌, ◌≡◌, refl, ap, sym, ◌∙◌, subst, true, Option, none, some, arith, if◌then◌else◌, ltb,
  is_some, ◌⊎◌, inl, inr,
}
use analytics_system.Backoff.{
  Fault, temporary, permanent, Attempts, RetryNotify, ErrMaxRetries, Counters, operation,
  notify_wrap, execute,
}

-- The error of a failed call.
abbrev pub fault_error : {E : Type 0} → Fault E → E
fault_error (temporary e) = e
fault_error (permanent e) = e

abbrev context : ℕ → Option ℕ
context timeout = if ltb 0 timeout then some timeout else none

-- How a call of `Execute` of n attempts ends.
abbrev pub Ended : {E W : Type 0} → Option (ErrMaxRetries E) → Counters W → Counters W → ℕ → Type 0
Ended none s s' n =
    (s'.successes ≡ s.successes + 1) × (s'.failures ≡ s.failures) × (s'.retries + 1 ≡ s.retries + n)
Ended (some e) s s' n =
    (e.tries ≡ n) × (s'.successes ≡ s.successes) × (s'.failures ≡ s.failures + 1)

Attempts-some :
    {E W : Type 0} {cancelled : E → Type 0} {op : W → Option (Fault E) × W} {notify : E → ℕ → W → W}
    {s s' : W} {r : Option E} {n : ℕ}
    → Attempts cancelled op notify s r s' n
    → 1 ≤ n
Attempts-some (Attempts.succeeded e) = omega arith
Attempts-some (Attempts.refused e) = omega arith
Attempts-some (Attempts.stopped e' e c) = omega arith
Attempts-some (Attempts.interrupted e' delay e f c) = omega arith
Attempts-some (Attempts.again delay e f a) = omega arith

module _ {E W : Type 0} (timeout : ℕ) (fn : Option ℕ → W → Option (Fault E) × W)
    (notify : E → ℕ → ℕ → W → W) where
  -- Each attempt counts one try, and each but the last one retry; the last adds one more if the
  -- context is cancelled during the wait that follows it.
  record Counted (s s' : Counters W) (r : Option E) (n : ℕ) : Type 0 where
    tries : s'.tries ≡ s.tries + n
    successes : s'.successes ≡ s.successes
    failures : s'.failures ≡ s.failures
    retries_low : s.retries + n ≤ s'.retries + 1
    retries_high : s'.retries ≤ s.retries + n
    retries_ok : (is_some r ≡ true) ⊎ (s'.retries + 1 ≡ s.retries + n)

  module _ {cancelled : E → Type 0} where
    Attempts-Counted :
        {s s' : Counters W} {r : Option E} {n : ℕ}
        → Attempts cancelled (operation timeout fn) (notify_wrap notify) s r s' n
        → Counted s s' r n
    unfolding operation notify_wrap
    Attempts-Counted (Attempts.succeeded e) = ground arith
    Attempts-Counted (Attempts.refused e) = ground arith
    Attempts-Counted (Attempts.stopped e' e c) = ground arith
    Attempts-Counted (Attempts.interrupted e' delay e f c) = ground arith
    Attempts-Counted (Attempts.again delay e f a) = ground (arith, Attempts-Counted a)

  -- Whatever the operation and the callback keep, `Execute` keeps, and a run without an error ends
  -- with a call of the operation that succeeded.
  module _ (P : W → Type 0) (fn_keeps : (ctx : Option ℕ) (w : W) → P w → P (fn ctx w).1)
      (notify_keeps : (e : E) (delay tries : ℕ) (w : W) → P w → P (notify e delay tries w)) where
    called :
        (s : Counters W) {s' : Counters W} {r : Option (Fault E)}
        → operation timeout fn s ≡ (r, s')
        → P s.world
        → P s'.world
    unfolding operation
    called s e p = subst P (ap (λ x. x.1.world) e) (fn_keeps (context timeout) s.world p)

    told :
        (s : Counters W) {s' : Counters W} (e : E) (delay : ℕ)
        → s' ≡ notify_wrap notify e delay s
        → P s.world
        → P s'.world
    unfolding notify_wrap
    told s e delay f p =
        subst P (sym (ap (λ x. x.world) f)) (notify_keeps e delay s.tries s.world p)

    path_of :
        (s : Counters W) {s' : Counters W} {r : Option (Fault E)}
        → operation timeout fn s ≡ (r, s')
        → fn (context timeout) s.world ≡ (r, s'.world)
    unfolding operation
    path_of s e = ap (λ x. (x.0, x.1.world)) e

    module _ (cancelled : E → Type 0) where
      -- What the error of a run is: the context's, or that of the last call of the operation.
      abbrev pub Reported : Option E → Type 0
      Reported none = Unit {0}
      Reported (some x) =
          cancelled x
          ⊎ ((ctx : Option ℕ) × (v : W) × (f : Fault E) × P v
              × ((fn ctx v).0 ≡ some f)
              × (x ≡ fault_error f))

    module _ {cancelled : E → Type 0} where
      Attempts-keep :
          {s s' : Counters W} {r : Option E} {n : ℕ}
          → Attempts cancelled (operation timeout fn) (notify_wrap notify) s r s' n
          → P s.world
          → P s'.world
            × ((is_some r ≡ true)
                ⊎ ((ctx : Option ℕ) × (v : W) × P v × (fn ctx v ≡ (none, s'.world))))
      Attempts-keep {s} (Attempts.succeeded e) p =
          (called s e p, inr (context timeout, s.world, p, path_of s e))
      Attempts-keep {s} (Attempts.refused e) p = (called s e p, inl refl)
      Attempts-keep {s} (Attempts.stopped e' e c) p = (called s e p, inl refl)
      Attempts-keep {s} (Attempts.interrupted {w' = v} {e = x} e' delay e f c) p =
          (told v x delay f (called s e p), inl refl)
      Attempts-keep {s} (Attempts.again {w' = v} {e = x} delay e f a) p =
          Attempts-keep a (told v x delay f (called s e p))

      -- Whatever the operation and the callback keep, `Execute` keeps, and it returns no error only
      -- after a call of the operation that succeeded, which was the last call.
      pub execute_keeps :
          (lib : RetryNotify E cancelled (Counters W)) (s : Counters W)
          → P s.world
          → let (r, s') = execute lib timeout fn notify s in
            P s'.world
            × ((is_some r ≡ true)
                ⊎ ((ctx : Option ℕ) × (v : W) × P v × (fn ctx v ≡ (none, s'.world))))
      unfolding execute
      execute_keeps lib s p =
          let (n, made) =
            lib.attempts (operation timeout fn) (notify_wrap notify) (record s { tries = 0 }) in
          ground (arith, Attempts-keep made p)

      Attempts-Reported :
          {s s' : Counters W} {r : Option E} {n : ℕ}
          → Attempts cancelled (operation timeout fn) (notify_wrap notify) s r s' n
          → P s.world
          → Reported cancelled r
      Attempts-Reported {s} (Attempts.succeeded e) p = tt
      Attempts-Reported {s} (Attempts.refused {e = x} e) p =
          inr (context timeout, s.world, permanent x, p, ap (λ y. y.0) (path_of s e), refl)
      Attempts-Reported {s} (Attempts.stopped {e = x} e' e (inl same)) p =
          inr (context timeout, s.world, temporary x, p, ap (λ y. y.0) (path_of s e), same)
      Attempts-Reported {s} (Attempts.stopped e' e (inr c)) p = inl c
      Attempts-Reported {s} (Attempts.interrupted e' delay e f c) p = inl c
      Attempts-Reported {s} (Attempts.again {w' = v} {e = x} delay e f a) p =
          Attempts-Reported a (told v x delay f (called s e p))

      -- An error of `Execute` is the context's or that of a call of the operation.
      pub execute_reports :
          (lib : RetryNotify E cancelled (Counters W)) (s : Counters W) (x : ErrMaxRetries E)
          → P s.world
          → (execute lib timeout fn notify s).0 ≡ some x
          → Reported cancelled (some x.error)
      unfolding execute
      execute_reports lib s x p e =
          let (n, made) =
            lib.attempts (operation timeout fn) (notify_wrap notify) (record s { tries = 0 }) in
          let reported = Attempts-Reported made p in ground (arith, reported)

  called_once :
      (calls : W → ℕ) (s s' : Counters W) {r : Option (Fault E)}
      → ((ctx : Option ℕ) (w : W) → calls (fn ctx w).1 ≡ calls w + 1)
      → operation timeout fn s ≡ (r, s')
      → calls s'.world ≡ calls s.world + 1
  unfolding operation
  called_once calls s s' one e = ap (λ x. calls x.1.world) (sym e) ∙ one (context timeout) s.world

  notified_same :
      (calls : W → ℕ) (s s' : Counters W) (e : E) (delay : ℕ)
      → ((e : E) (delay tries : ℕ) (w : W) → calls (notify e delay tries w) ≡ calls w)
      → s' ≡ notify_wrap notify e delay s
      → calls s'.world ≡ calls s.world
  unfolding notify_wrap
  notified_same calls s s' e delay same f =
      ap (λ (x : Counters W). calls x.world) f ∙ same e delay s.tries s.world

  -- A measure of the state that `fn` raises by one and that the callback keeps counts the attempts.
  Attempts-calls :
      {cancelled : E → Type 0} (calls : W → ℕ) {s s' : Counters W} {r : Option E} {n : ℕ}
      → ((ctx : Option ℕ) (w : W) → calls (fn ctx w).1 ≡ calls w + 1)
      → ((e : E) (delay tries : ℕ) (w : W) → calls (notify e delay tries w) ≡ calls w)
      → Attempts cancelled (operation timeout fn) (notify_wrap notify) s r s' n
      → calls s'.world ≡ calls s.world + n
  unfolding operation notify_wrap
  Attempts-calls calls one same (Attempts.succeeded e) = called_once calls _ _ one e
  Attempts-calls calls one same (Attempts.refused e) = called_once calls _ _ one e
  Attempts-calls calls one same (Attempts.stopped e' e c) = called_once calls _ _ one e
  Attempts-calls calls one same (Attempts.interrupted e' delay e f c) =
      notified_same calls _ _ _ delay same f ∙ called_once calls _ _ one e
  Attempts-calls calls one same (Attempts.again delay e f a) = omega (
    arith,
    Attempts-calls calls one same a,
    notified_same calls _ _ _ delay same f,
    called_once calls _ _ one e,
  )

  module _ {cancelled : E → Type 0} where
    -- `Execute` calls `fn` at least once, as often as any measure says that `fn` raises by one and the
    -- callback keeps; it reports in its error the number of these calls, counts one retry for each but the last, or one more where a cancelled wait follows it, and then
    -- exactly one success, if it returns no error, or one failure.
    pub execute_counts :
        (lib : RetryNotify E cancelled (Counters W)) (s : Counters W) (calls : W → ℕ)
        → ((ctx : Option ℕ) (w : W) → calls (fn ctx w).1 ≡ calls w + 1)
        → ((e : E) (delay tries : ℕ) (w : W) → calls (notify e delay tries w) ≡ calls w)
        → let (r, s') = execute lib timeout fn notify s in
          (n : ℕ) × (1 ≤ n)
          × (calls s'.world ≡ calls s.world + n)
          × (s'.tries ≡ n)
          × (s.retries + n ≤ s'.retries + 1)
          × (s'.retries ≤ s.retries + n)
          × Ended r s s' n
    unfolding execute
    execute_counts lib s calls one same =
        let (n, made) =
          lib.attempts (operation timeout fn) (notify_wrap notify) (record s { tries = 0 }) in
        (
          n,
          Attempts-some made,
          ground (arith, Attempts-calls calls one same made),
          ground (arith, Attempts-Counted made),
          ground (arith, Attempts-Counted made),
          ground (arith, Attempts-Counted made),
          ground (arith, Attempts-Counted made),
        )
