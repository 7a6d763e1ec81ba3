-- ===== src/Auth/Usecase/Token.antt =====
-- revoke.go, validate.go and logout.go of services/auth/internal/usecase.
use analytics_system.Prelude.{
  ℕ, Bool, true, false, Option, none, some, Result, ok, err, List, is_some, not, if◌then◌else◌,
  ◌||◌,
}
use analytics_system.Prelude.Text.{Text, is_empty}
use analytics_system.Backoff.{RetryNotify, Counters}
use analytics_system.Auth.Host.{Host}
use analytics_system.Auth.Store.{AnyError, World, DbError, find_by_jti, revoke_by_jti}
use analytics_system.Auth.Jwt.{Hs256, parse, parse_unverified_jti}
use analytics_system.Auth.Usecase.{
  M, ◌>>=◌, ◌>>◌, pure, require, or_fail, checked, retry, Error, status, plain, not_found,
  already_exists,
}

-- `authpb.TokenType`
pub data ProtoTokenType : Type 0 where
  unspecified access refresh : ProtoTokenType

abbrev is_refresh : ProtoTokenType → Bool
is_refresh unspecified = false
is_refresh access = false
is_refresh refresh = true

pub record RevokeTokenRequest : Type 0 where
  pub token : Text
  pub typ : ProtoTokenType

-- `RequestMetadata`, as far as `Handle` sets it: the values of the context, empty if they are absent.
pub record RequestMetadata : Type 0 where
  pub trace_id : Text
  pub ip_address : Text
  pub user_agent : Text

pub record ValidateTokenResponse : Type 0 where
  pub valid : Bool
  pub username : Text
  pub roles : List Text
  pub expires_at : ℕ
  pub metadata : RequestMetadata

abbrev revoke_guard : Option RevokeTokenRequest → Result Error RevokeTokenRequest
revoke_guard none = err (plain "only refresh token revocation supported")
revoke_guard (some req) =
    if is_empty req.token || not (is_refresh req.typ)
    then err (plain "only refresh token revocation supported")
    else ok req

module _ (h : Host) where
  -- `revokeHandler.Handle`: the field `Revoked` of the response
  unfoldable pub revoke :
      RetryNotify DbError AnyError (Counters World) → Option RevokeTokenRequest → M Bool
  unfolding parse_unverified_jti retry revoke_by_jti
  revoke lib request = do
    req ← λ w. (revoke_guard request, w)
    claims ← or_fail (λ w. (parse_unverified_jti h req.token, w)) (plain "parse")
    checked (retry lib (revoke_by_jti h claims.jti)) (plain "revoke failed")
    pure true

  -- `validateHandler.Handle`
  unfoldable pub validate : Hs256 → RequestMetadata → Text → M ValidateTokenResponse
  unfolding parse
  validate s meta token = do
    claims ← or_fail (parse h s token) (plain "token invalid")
    pure (record {
      valid = true;
      username = claims.subject;
      roles = claims.roles;
      expires_at = claims.expires_at;
      metadata = meta;
    })

  -- `logoutHandler.Handle`
  unfoldable pub logout : Text → M (Unit {0})
  unfolding find_by_jti revoke_by_jti
  logout jti = do
    token ← or_fail (find_by_jti h jti) (status not_found "refresh token not found")
    require (not (is_some token.revoked_at)) (status already_exists "token already revoked")
    checked (revoke_by_jti h jti) (plain "revoke")
