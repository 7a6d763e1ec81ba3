-- ===== src/Auth/Server.antt =====
-- services/auth/internal/transport/grpc/handler.go: the methods of the gRPC server, as the
-- interceptors call them. The message of an error wraps that of the call below it.
pub mod Codes
use analytics_system.Prelude.{
  Bool, true, false, Option, none, some, Result, ok, err, is_nil, ◌||◌, if◌then◌else◌,
}
use analytics_system.Prelude.Text.{Text, is_empty}
use analytics_system.Backoff.{RetryNotify, Counters}
use analytics_system.Auth.Host.{Host}
use analytics_system.Auth.Store.{AnyError, World, DbError}
use analytics_system.Auth.Jwt.{Hs256, parse}
use analytics_system.Auth.Usecase.{
  M, ◌>>=◌, ◌>>◌, pure, or_fail, Error, status, invalid_argument, unauthenticated, internal,
  TokenPair,
}
use analytics_system.Auth.Usecase.Login.{LoginRequest, login}
use analytics_system.Auth.Usecase.Register.{RegisterRequest, register}
use analytics_system.Auth.Usecase.Refresh.{refresh_tokens}
use analytics_system.Auth.Usecase.Token.{
  RevokeTokenRequest, RequestMetadata, ValidateTokenResponse, revoke, validate, logout,
}
use analytics_system.Auth.Interceptor.{Context, text_or_empty}

-- `enrichContextWithMetadata`
unfoldable pub enrich_context_with_metadata : Context → Option RequestMetadata → Context
enrich_context_with_metadata ctx none = ctx
enrich_context_with_metadata ctx (some meta) = record ctx {
  trace_id = if is_empty meta.trace_id then ctx.trace_id else some meta.trace_id;
  ip_address = if is_empty meta.ip_address then ctx.ip_address else some meta.ip_address;
  user_agent = if is_empty meta.user_agent then ctx.user_agent else some meta.user_agent;
}

-- `getStringFromContext` for the three keys
abbrev pub metadata_of : Context → RequestMetadata
metadata_of ctx = record {
  trace_id = text_or_empty ctx.trace_id;
  ip_address = text_or_empty ctx.ip_address;
  user_agent = text_or_empty ctx.user_agent;
}

-- The request, if it is there and its field is not empty.
abbrev field_or : Option Text → Error → Result Error Text
field_or none e = err e
field_or (some t) e = if is_empty t then err e else ok t

abbrev request_or : {A : Type 0} → Option A → (A → Bool) → Error → Result Error A
request_or none bad e = err e
request_or (some r) bad e = if bad r then err e else ok r

module _ (h : Host) (s : Hs256) (lib : RetryNotify DbError AnyError (Counters World)) where
  -- `Server.Login`; the use case does not read the context that is enriched for it
  unfoldable pub server_login : Option LoginRequest → M TokenPair
  unfolding login
  server_login request = do
    req ← λ w. (request_or request (λ r. false) (status invalid_argument "empty request"), w)
    or_fail (login h s lib (some req)) (status unauthenticated "login error")

  -- `Server.RefreshToken`
  unfoldable pub server_refresh : Option Text → M TokenPair
  unfolding refresh_tokens
  server_refresh refresh_token = do
    token ← λ w. (field_or refresh_token (status invalid_argument "empty refresh token"), w)
    or_fail (refresh_tokens h s lib token) (status unauthenticated "refresh failed")

  -- `Server.ValidateToken`
  unfoldable pub server_validate : Context → Option Text → M ValidateTokenResponse
  unfolding validate
  server_validate ctx token = do
    t ← λ w. (field_or token (status invalid_argument "missing access token"), w)
    or_fail (validate h s (metadata_of ctx) t) (status internal "validate failed")

  -- `Server.RevokeToken`
  unfoldable pub server_revoke : Option RevokeTokenRequest → M Bool
  unfolding revoke
  server_revoke request = do
    req ← λ w.
        (request_or request (λ r. is_empty r.token) (status invalid_argument "missing token"), w)
    or_fail (revoke h lib (some req)) (status internal "revoke failed")

  -- `Server.Logout`: the field `Success` of the response
  unfoldable pub server_logout : Option Text → M Bool
  unfolding parse logout
  server_logout refresh_token = do
    token ← λ w. (field_or refresh_token (status invalid_argument "missing refresh token"), w)
    claims ← or_fail (parse h s token) (status invalid_argument "invalid refresh token")
    or_fail (logout h claims.jti) (status internal "revoke failed")
    pure true

  -- `Server.Register`
  unfoldable pub server_register : Option RegisterRequest → M TokenPair
  unfolding register
  server_register request = do
    req ← λ w. (
      request_or request (λ r. is_empty r.username || is_empty r.password || is_nil r.roles)
          (status invalid_argument "missing required fields"),
      w,
    )
    or_fail (register h s lib (some req)) (status internal "register failed")
