-- ===== src/Gateway/Cache.antt =====
-- services/api-gateway/internal/middleware/jwt_cache.go; the lock makes each method one step.
pub mod Laws
use analytics_system.Prelude.{
  ℕ, ◌+◌, ◌*◌, Bool, true, false, List, [], ◌∷◌, Option, none, some, ltb, if◌then◌else◌,
}
use analytics_system.Prelude.Text.{Text}
use analytics_system.Prelude.Map.{Map, lookup, insert, erase}
use analytics_system.Interval.{minute}
use analytics_system.Gateway.Http.{ValidateResponse}

-- `cachedToken`
pub record CachedToken : Type 0 where
  pub claims : ValidateResponse
  pub expires_at : ℕ

-- `JWTCache.store`
abbrev pub JwtCache : Type 0
JwtCache = Map CachedToken

-- `now.After(expiresAt)`
abbrev pub is_expired : ℕ → CachedToken → Bool
is_expired now entry = ltb entry.expires_at now

abbrev pub unless_expired : ℕ → Option CachedToken → Option ValidateResponse
unless_expired now none = none
unless_expired now (some entry) = if is_expired now entry then none else some entry.claims

-- `JWTCache.Get` at a time
unfoldable pub get : Text → ℕ → JwtCache → Option ValidateResponse
unfolding lookup
get token now c = unless_expired now (lookup token c)

abbrev pub expiry_of : ValidateResponse → ℕ → ℕ
expiry_of claims now = elim claims.expires_at [ none ↦ now + 15 * minute | some t ↦ t ]

-- `JWTCache.Put` at a time
unfoldable pub put : Text → ValidateResponse → ℕ → JwtCache → JwtCache
unfolding insert
put token claims now c =
    insert token (record { claims = claims; expires_at = expiry_of claims now }) c

-- The loop over the entries in `cleanupLoop`.
unfoldable pub delete_expired : ℕ → List (Text × CachedToken) → JwtCache → JwtCache
unfolding erase
delete_expired now [] c = c
delete_expired now ((k, v) ∷ entries) c =
    let rest = delete_expired now entries in if is_expired now v then rest (erase k c) else rest c

-- One tick of `cleanupLoop`.
unfoldable pub cleanup : ℕ → JwtCache → JwtCache
unfolding delete_expired
cleanup now c = delete_expired now c c
