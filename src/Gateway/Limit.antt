-- ===== src/Gateway/Limit.antt =====
-- services/api-gateway/internal/middleware/ratelimit.go; golang.org/x/time/rate is a parameter.
use analytics_system.Prelude.{
  ℕ, ◌-◌, ◌*◌, ◌==◌, ◌≡◌, refl, ap, ap₂, ◌∙◌, Bool, false, List, [], ◌∷◌, ◌++◌, Option, none, some,
  ltb, not, if◌then◌else◌, Bool-cases, inl, inr,
}
use analytics_system.Prelude.Text.{Text, codes, is_empty, text_eq, text_eq_iff, text_eq_refl}
use analytics_system.Prelude.Map.{Map, lookup, insert, erase, lookup-insert}
use analytics_system.Interval.{minute}
use analytics_system.Gateway.Http.{Reply, failure, Ctx, Request}

-- `rate.NewLimiter` at the configured rate and burst, and `limiter.Allow` at a time.
pub record Rate (L : Type 0) : Type 0 where
  pub new_limiter : L
  pub allow : L → ℕ → Bool × L

-- `limiterEntry`
pub record LimiterEntry (L : Type 0) : Type 0 where
  pub limiter : L
  pub last_seen : ℕ

-- The part of a text before its first colon: `strings.Split(s, ":")[0]`
unfoldable pub before_colon : Text → Text
before_colon [] = []
before_colon (c ∷ s) = let rest = before_colon s in if c == 58 then [] else c ∷ rest

-- `extractIdentity`; `split` is `net.SplitHostPort`, the host or an error.
unfoldable pub extract_identity : (Text → Option Text) → Ctx → Request → Text
unfolding before_colon
extract_identity split ctx r =
    let by_address =
      codes "ip:"
      ++ elim (split r.remote_addr) [ none ↦ before_colon r.remote_addr | some ip ↦ ip ] in
    elim ctx.user_id [
      | none ↦ by_address
      | some uid ↦ if is_empty uid then by_address else codes "uid:" ++ uid
    ]

module _ {L : Type 0} (lib : Rate L) where
  abbrev entry_of : Option (LimiterEntry L) → L
  entry_of none = lib.new_limiter
  entry_of (some e) = e.limiter

  -- `LoadOrStore`, the update of `lastSeen` and `Allow`, at a time.
  unfoldable pub admit : Text → ℕ → Map (LimiterEntry L) → Bool × Map (LimiterEntry L)
  unfolding lookup insert
  admit id now limiters =
      let (allowed, limiter) = lib.allow (entry_of (lookup id limiters)) now in
      (allowed, insert id (record { limiter = limiter; last_seen = now }) limiters)

  -- `RateLimitMiddleware`, over the state of the limiters.
  unfoldable pub rate_limit :
      {B : Type 0} (split : Text → Option Text) (next : Ctx → Request → Reply B) (ctx : Ctx)
      (r : Request) (now : ℕ)
      → Map (LimiterEntry L)
      → Reply B × Map (LimiterEntry L)
  unfolding admit extract_identity
  rate_limit split next ctx r now limiters =
      let (allowed, limiters') = admit (extract_identity split ctx r) now limiters in
      (if not allowed then failure 429 "rate limit exceeded" else next ctx r, limiters')

  -- The loop over the entries that the ticker starts: `now.Sub(lastSeen) > ttl`.
  unfoldable pub drop_idle :
      ℕ → List (Text × LimiterEntry L) → Map (LimiterEntry L) → Map (LimiterEntry L)
  unfolding erase
  drop_idle now [] limiters = limiters
  drop_idle now ((k, e) ∷ entries) limiters =
      let rest = drop_idle now entries in
      if ltb (10 * minute) (now - e.last_seen) then rest (erase k limiters) else rest limiters

  -- What one identity's requests at these times are answered.
  unfoldable pub verdicts : L → List ℕ → List Bool
  verdicts limiter [] = []
  verdicts limiter (now ∷ times) =
      let rest = verdicts (lib.allow limiter now).1 times in (lib.allow limiter now).0 ∷ rest

  -- The answers to the requests of one identity in a sequence of requests of any.
  unfoldable pub answers_to : Text → List (Text × ℕ) → Map (LimiterEntry L) → List Bool
  unfolding admit text_eq
  answers_to id [] limiters = []
  answers_to id ((who, now) ∷ requests) limiters =
      let rest = answers_to id requests (admit who now limiters).1 in
      if text_eq who id then (admit who now limiters).0 ∷ rest else rest

  unfoldable pub times_of : Text → List (Text × ℕ) → List ℕ
  unfolding text_eq
  times_of id [] = []
  times_of id ((who, now) ∷ requests) =
      let rest = times_of id requests in if text_eq who id then now ∷ rest else rest

  abbrev admitted : Text → ℕ → Map (LimiterEntry L) → LimiterEntry L
  admitted id now limiters = record {
    limiter = (lib.allow (entry_of (lookup id limiters)) now).1;
    last_seen = now;
  }

  admit-own :
      (id : Text) (now : ℕ) (limiters : Map (LimiterEntry L))
      → entry_of (lookup id (admit id now limiters).1)
        ≡ (lib.allow (entry_of (lookup id limiters)) now).1
  unfolding admit
  admit-own id now limiters =
      rw (lookup-insert id id (admitted id now limiters) limiters) (rw (text_eq_refl id) refl)

  admit-other :
      (id who : Text) (now : ℕ) (limiters : Map (LimiterEntry L))
      → text_eq who id ≡ false
      → lookup id (admit who now limiters).1 ≡ lookup id limiters
  unfolding admit
  admit-other id who now limiters other =
      lookup-insert who id (admitted who now limiters) limiters ∙ rw other refl

  answers_from :
      (id : Text) (requests : List (Text × ℕ)) (limiters : Map (LimiterEntry L))
      → answers_to id requests limiters
        ≡ verdicts (entry_of (lookup id limiters)) (times_of id requests)
  unfolding answers_to times_of verdicts
  answers_from id [] limiters = refl
  answers_from id ((who, now) ∷ requests) limiters =
      let after = answers_from id requests (admit who now limiters).1 in
      elim (Bool-cases (text_eq who id)) [
        | inl same ↦
            let e = (text_eq_iff who id).0 same in
            rw same (
              ap₂ (◌∷◌) (ap (λ (k : Text). (lib.allow (entry_of (lookup k limiters)) now).0) e) (
                after
                ∙ ap (λ (l : L). verdicts l (times_of id requests))
                    (ap (λ (k : Text). entry_of (lookup id (admit k now limiters).1)) e
                      ∙ admit-own id now limiters)))
        | inr other ↦ rw other (
            after
            ∙ ap (λ (o : Option (LimiterEntry L)). verdicts (entry_of o) (times_of id requests))
                (admit-other id who now limiters other))
      ]

  -- The requests of one identity, among those of any others, are answered as the limiter would
  -- answer them alone: another identity's requests take nothing from it.
  pub answers_to_lem :
      (id : Text) (requests : List (Text × ℕ))
      → answers_to id requests [] ≡ verdicts lib.new_limiter (times_of id requests)
  answers_to_lem id requests = unfold lookup in answers_from id requests []
