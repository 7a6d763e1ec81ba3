-- ===== src/Tests/Common.antt =====
-- common/interval, common/backoff and the roles of services/auth at concrete inputs.
use analytics_system.Prelude.{
  ℕ, ◌+◌, ◌*◌, ◌%◌, ◌≤◌, ◌<◌, ◌≡◌, ◌≢◌, ◌↔◌, ◌⊎◌, inl, refl, Bool, true, List, [], ◌∷◌, Option,
  none, some, ok, is_some, any, All, arith, suc, ltb, if◌then◌else◌,
}
use analytics_system.Prelude.Text.{Text, codes, text_eq, to_lower, trim_space}
use analytics_system.Interval.{
  AggregationInterval, from_proto, to_proto, duration, minute, align_to_interval, interval_5m,
  interval_1h,
}
use analytics_system.Interval.Laws.{to_proto_iff_from_proto}
use analytics_system.Interval.Align.{align_to_interval_bar}
use analytics_system.Backoff.{Fault, temporary, permanent, Attempts, RetryNotify, Counters, execute}
use analytics_system.Backoff.Counts.{Ended, execute_counts, execute_keeps}
use analytics_system.Auth.Role.{is_valid_role, valid_roles, mem_text, normalize_roles}
use analytics_system.Auth.Role.Normal.{IsNodup, normal_form, normalize_roles-ok}

to_proto_iff_from_proto_example :
    (to_proto interval_1h ≡ ok AggregationInterval.hour_1)
    ↔ (from_proto AggregationInterval.hour_1 ≡ ok interval_1h)
to_proto_iff_from_proto_example = to_proto_iff_from_proto interval_1h AggregationInterval.hour_1

five_minutes : duration interval_5m ≡ ok (5 * minute)
unfolding duration
five_minutes = ground arith

align_to_interval_bar_example :
    (start : ℕ) × (align_to_interval (7 * minute) interval_5m ≡ ok start)
    × (start ≤ 7 * minute)
    × (7 * minute < start + 5 * minute)
    × (start % (5 * minute) ≡ 0)
    × ((q : ℕ)
        → 5 * minute * q ≤ 7 * minute
        → 7 * minute < 5 * minute * q + 5 * minute
        → 5 * minute * q ≡ start)
align_to_interval_bar_example =
    align_to_interval_bar (7 * minute) interval_5m (5 * minute) five_minutes

abbrev two_roles : List Text
two_roles = codes " User" ∷ codes "user" ∷ []

normalized : normalize_roles two_roles ≡ ok (codes "user" ∷ [])
unfolding normalize_roles to_lower trim_space text_eq is_valid_role
normalized = refl

normalize_roles-ok_example :
    ((codes "user" ∷ []) ≢ [])
    × IsNodup (codes "user" ∷ [])
    × All (λ r. mem_text r valid_roles ≡ true) (codes "user" ∷ [])
    × ((x : Text) → mem_text x (codes "user" ∷ []) ≡ any (λ r. text_eq x (normal_form r)) two_roles)
normalize_roles-ok_example = normalize_roles-ok two_roles (codes "user" ∷ []) normalized

-- An operation that fails at a state below two, and adds one to the state.
abbrev climb : Option ℕ → ℕ → Option (Fault Bool) × ℕ
climb ctx n = (if ltb n 2 then some (temporary true) else none, suc n)

abbrev ignore : Bool → ℕ → ℕ → ℕ → ℕ
ignore e delay tries n = n

abbrev pub outcome_error : {E : Type 0} → Option (Fault E) → Option E
outcome_error none = none
outcome_error (some (temporary e)) = some e
outcome_error (some (permanent e)) = some e

abbrev pub run_once :
    {E W : Type 0} → (W → Option (Fault E) × W) → (E → ℕ → W → W) → W → Option E × W
run_once op notify w = (outcome_error (op w).0, (op w).1)

pub once-Attempts :
    {E W : Type 0} {cancelled : E → Type 0} (op : W → Option (Fault E) × W) (notify : E → ℕ → W → W)
    (w : W) (r : Option (Fault E)) (w' : W)
    → op w ≡ (r, w')
    → (n : ℕ) × Attempts cancelled op notify w (outcome_error r) w' n
once-Attempts op notify w none w' e = (1, Attempts.succeeded e)
once-Attempts op notify w (some (temporary x)) w' e = (1, Attempts.stopped x e (inl refl))
once-Attempts op notify w (some (permanent x)) w' e = (1, Attempts.refused e)

-- A retry loop that stops after one attempt.
abbrev pub once : {E W : Type 0} {cancelled : E → Type 0} → RetryNotify E cancelled W
once = record {
  run = run_once;
  attempts = λ op notify w. once-Attempts op notify w (op w).0 (op w).1 refl;
}

abbrev counters : Counters ℕ
counters = record { world = 5; tries = 0; retries = 0; failures = 0; successes = 0 }

execute_counts_example :
    let (r, s') = execute (once {cancelled = λ e. ⊥}) 0 climb ignore counters in
    (n : ℕ) × (1 ≤ n)
    × (s'.world ≡ 5 + n)
    × (s'.tries ≡ n)
    × (counters.retries + n ≤ s'.retries + 1)
    × (s'.retries ≤ counters.retries + n)
    × Ended r counters s' n
execute_counts_example =
    execute_counts 0 climb ignore (once {cancelled = λ e. ⊥}) counters (λ n. n)
      (λ ctx n. omega arith) (λ e delay tries n. refl)

execute_keeps_example :
    let (r, s') = execute (once {cancelled = λ e. ⊥}) 0 climb ignore counters in
    (5 ≤ s'.world)
    × ((is_some r ≡ true)
        ⊎ ((ctx : Option ℕ) × (v : ℕ) × (5 ≤ v) × (climb ctx v ≡ (none, s'.world))))
execute_keeps_example =
    execute_keeps 0 climb ignore (λ (n : ℕ). 5 ≤ n) (λ ctx n h. omega arith)
      (λ e delay tries n h. h) (once {cancelled = λ e. ⊥}) counters (omega arith)
