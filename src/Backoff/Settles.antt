-- ===== src/Backoff/Settles.antt =====
-- `Execute` where no call of the operation has to be tried again.
use analytics_system.Prelude.{
  ℕ, subst, Option, none, some, ltb, if◌then◌else◌, Option-cases, inl, inr,
}
use analytics_system.Backoff.{
  Fault, temporary, permanent, Attempts, RetryNotify, ErrMaxRetries, Counters, operation,
  notify_wrap, execute,
}

-- A call that ends the attempts: it succeeds, or it is refused with a certain error.
abbrev pub Settles : {E : Type 0} → (E → Type 0) → Option (Fault E) → Type 0
Settles good none = Unit {0}
Settles good (some (temporary e)) = ⊥
Settles good (some (permanent e)) = good e

-- No error, or a certain one.
abbrev Certain : {E : Type 0} → (E → Type 0) → Option E → Type 0
Certain good none = Unit {0}
Certain good (some e) = good e

abbrev pub CertainError : {E : Type 0} → (E → Type 0) → Option (ErrMaxRetries E) → Type 0
CertainError good none = Unit {0}
CertainError good (some x) = good x.error

Attempts-Certain :
    {E W : Type 0} {cancelled : E → Type 0} {op : W → Option (Fault E) × W} {notify : E → ℕ → W → W}
    (good : E → Type 0) {s s' : W} {r : Option E} {n : ℕ}
    → ((w : W) → Settles good (op w).0)
    → Attempts cancelled op notify s r s' n
    → Certain good r
Attempts-Certain good settles (Attempts.succeeded e) = tt
Attempts-Certain good settles (Attempts.refused e) = subst (λ o. Settles good o.0) e (settles _)
Attempts-Certain good settles (Attempts.stopped e' e c) =
    absurd (subst (λ o. Settles good o.0) e (settles _))
Attempts-Certain good settles (Attempts.interrupted e' delay e f c) =
    absurd (subst (λ o. Settles good o.0) e (settles _))
Attempts-Certain good settles (Attempts.again delay e f a) =
    absurd (subst (λ o. Settles good o.0) e (settles _))

-- Where every call settles, `Execute` returns no error or one that a call may settle with.
pub execute-Settles :
    {E W : Type 0} {cancelled : E → Type 0} (good : E → Type 0) (timeout : ℕ)
    (fn : Option ℕ → W → Option (Fault E) × W) (notify : E → ℕ → ℕ → W → W)
    (lib : RetryNotify E cancelled (Counters W)) (s : Counters W)
    → ((ctx : Option ℕ) (w : W) → Settles good (fn ctx w).0)
    → CertainError good (execute lib timeout fn notify s).0
unfolding execute operation
execute-Settles good timeout fn notify lib s settles =
    let begun = record s { tries = 0 } in
    let ends =
      Attempts-Certain good (λ c. settles (if ltb 0 timeout then some timeout else none) c.world)
        (lib.attempts (operation timeout fn) (notify_wrap notify) begun).1 in
    elim (Option-cases (lib.run (operation timeout fn) (notify_wrap notify) begun).0) [
      | inl done ↦ rw (done, CertainError, execute) tt
      | inr (e, failed) ↦
          let c : good e = subst (Certain good) failed ends in rw (failed, CertainError, execute) c
    ]
