-- ===== src/Auth/Usecase/Refresh.antt =====
-- services/auth/internal/usecase/refresh.go
use analytics_system.Prelude.{ok, is_some, not}
use analytics_system.Prelude.Text.{Text}
use analytics_system.Backoff.{RetryNotify, Counters}
use analytics_system.Auth.Host.{Host}
use analytics_system.Auth.Store.{AnyError, World, DbError, tick, find_by_jti, revoke_by_jti, store}
use analytics_system.Auth.Jwt.{Hs256, access, refresh, Claims, generate, parse}
use analytics_system.Auth.Usecase.{
  M, ◌>>=◌, ◌>>◌, require, or_fail, checked, retry, status, unauthenticated, internal,
  seconds_until, TokenPair,
}
use analytics_system.Auth.Usecase.Register.{row_of}

module _ (h : Host) (s : Hs256) (lib : RetryNotify DbError AnyError (Counters World)) where
  -- The old token of the request is revoked; a failure of this is logged and no more.
  unfoldable pub revoke_old : Text → M (Unit {0})
  unfolding revoke_by_jti
  revoke_old jti w = let (r, w') = revoke_by_jti h jti w in (ok tt, w')

  -- The new tokens, for the user and with the roles of the old one.
  unfoldable pub next_tokens : Claims → M TokenPair
  unfolding generate retry store
  next_tokens claims = do
    a ←
        or_fail (generate h s claims.user_id claims.roles access)
          (status internal "generate access")
    r ←
        or_fail (generate h s claims.user_id claims.roles refresh)
          (status internal "generate refresh")
    checked (retry lib (store h (row_of claims.user_id r.0 r.1))) (status internal "store refresh")
    λ w. (
      ok (record {
        access_token = a.0;
        refresh_token = r.0;
        expires_in = seconds_until a.1.expires_at (h.now w.ticks);
      }),
      tick w,
    )

  -- `refreshHandler.Handle`
  unfoldable pub refresh_tokens : Text → M TokenPair
  unfolding parse find_by_jti revoke_old next_tokens
  refresh_tokens refresh_token = do
    claims ← or_fail (parse h s refresh_token) (status unauthenticated "invalid token")
    token ← or_fail (find_by_jti h claims.jti) (status internal "failed to lookup token")
    require (not (is_some token.revoked_at))
        (status unauthenticated "refresh token already used or revoked")
    revoke_old claims.jti
    next_tokens claims
