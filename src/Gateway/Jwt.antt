-- ===== src/Gateway/Jwt.antt =====
-- services/api-gateway/internal/middleware/jwt.go: the token of a request is validated by the auth
-- service, or has been.
pub mod Safety
use Prim.Native.String.{String}
use analytics_system.Prelude.{
  ℕ, ◌≡◌, refl, ◌⊎◌, inl, inr, Bool, true, false, List, [], ◌∷◌, Option, none, some, All, not,
  if◌then◌else◌, arith, Bool-cases, Option-cases,
}
use analytics_system.Prelude.Text.{Text, codes, is_empty, has_prefix, trim_prefix}
use analytics_system.Prelude.Map.{lookup, All-insert, All-lookup}
use analytics_system.Gateway.Http.{Reply, failure, answer, Ctx, Request, ValidateResponse, Metadata}
use analytics_system.Gateway.Cache.{
  CachedToken, JwtCache, is_expired, unless_expired, expiry_of, get, put,
}

-- The state that the middleware of the gateway works on: its cache and what lies outside.
pub record Gate (W : Type 0) : Type 0 where
  pub cache : JwtCache
  pub world : W

-- A handler takes the context and the request.
abbrev pub Handler : Type 0 → Type 0 → Type 0
Handler W B = Ctx → Request → Gate W → Reply B × Gate W

abbrev pub bearer : Text
bearer = codes "Bearer "

abbrev keep_unless_empty : Text → Option Text → Option Text
keep_unless_empty t old = if is_empty t then old else some t

-- `withAuthContext`
unfoldable pub with_auth_context : Ctx → ValidateResponse → Ctx
with_auth_context ctx resp =
    let ctx' = record ctx { user_id = some resp.username; roles = some resp.roles } in
    elim resp.metadata [
      | none ↦ ctx'
      | some meta ↦ record ctx' {
        trace_id = keep_unless_empty meta.trace_id ctx.trace_id;
        ip_address = keep_unless_empty meta.ip_address ctx.ip_address;
        user_agent = keep_unless_empty meta.user_agent ctx.user_agent;
      }
    ]

-- Every cached response is valid, and stands in a relation to its token.
abbrev pub CacheIsSound : {W : Type 0} → (Text → ValidateResponse → Type 0) → Gate W → Type 0
CacheIsSound Fits g = All (λ e. (e.1.claims.valid ≡ true) × Fits e.0 e.1.claims) g.cache

module _ {W : Type 0} (clock : W → ℕ)
    (validate_token : Text → W → Option ValidateResponse × W) where
  -- The call of the auth service and, if it finds the token valid, `cache.Put`.
  unfoldable pub validate_and_cache : Text → Gate W → Option ValidateResponse × Gate W
  unfolding put
  validate_and_cache token g =
      let (found, world) = validate_token token g.world in
      elim found [
        | none ↦ (none, record g { world = world })
        | some resp ↦
            if resp.valid
            then (some resp, record { cache = put token resp (clock world) g.cache; world = world })
            else (none, record g { world = world })
      ]

  -- The response for a token: from the cache, or from the auth service.
  unfoldable pub response_of : Text → Gate W → Option ValidateResponse × Gate W
  unfolding get validate_and_cache
  response_of token g = elim (get token (clock g.world) g.cache) [
    | some resp ↦ (some resp, g)
    | none ↦ validate_and_cache token g
  ]

  -- `JWTMiddleware`
  unfoldable pub jwt_middleware : {B : Type 0} → Handler W B → Handler W B
  unfolding response_of with_auth_context
  jwt_middleware next ctx r g =
      if not (has_prefix r.authorization bearer)
      then (failure 401 "unauthorized", g)
      else (let (found, g') = response_of (trim_prefix r.authorization bearer) g in
          elim found [
            | none ↦ (failure 401 "unauthorized", g')
            | some resp ↦ next (with_auth_context ctx resp) r g'
          ])
