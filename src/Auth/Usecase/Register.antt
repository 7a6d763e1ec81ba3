-- ===== src/Auth/Usecase/Register.antt =====
-- services/auth/internal/usecase/register.go
use analytics_system.Prelude.{
  List, Option, none, some, Result, ok, err, length, ltb, any, is_nil, if◌then◌else◌, ◌||◌, not,
}
use analytics_system.Prelude.Text.{Text, is_empty, trim_space, to_lower, text_eq}
use analytics_system.Backoff.{RetryNotify, Counters}
use analytics_system.Auth.Host.{Host}
use analytics_system.Auth.Role.{normalize_roles, role_admin}
use analytics_system.Auth.Store.{
  AnyError, World, DbError, RefreshToken, tick, exists_by_username, create_user, store,
}
use analytics_system.Auth.Jwt.{Hs256, access, refresh, Claims, generate}
use analytics_system.Auth.Usecase.{
  M, ◌>>=◌, ◌>>◌, pure, require, or_fail, checked, retry, Error, status, plain, invalid_argument,
  permission_denied, already_exists, seconds_until, TokenPair,
}

pub record RegisterRequest : Type 0 where
  pub username : Text
  pub password : Text
  pub roles : List Text

-- The tests before the roles are read.
abbrev pub register_guard : Option RegisterRequest → Result Error RegisterRequest
register_guard none = err (status invalid_argument "missing required fields")
register_guard (some req) =
    if is_empty (trim_space req.username) || is_empty (trim_space req.password) || is_nil req.roles
    then err (status invalid_argument "missing required fields")
    else (let username = to_lower (trim_space req.username) in
        if ltb (length username) 3 || ltb 128 (length username)
        then err (status invalid_argument "username must be between 3 and 128 characters")
        else (if ltb (length (trim_space req.password)) 8
            then err (status invalid_argument "password must be at least 8 characters")
            else ok req))

-- The row that is stored for a refresh token, whose identifier is its jti.
abbrev pub row_of : Text → Text → Claims → RefreshToken
row_of user_id token claims = record {
  id = claims.jti;
  user_id = user_id;
  jti = claims.jti;
  token = token;
  issued_at = claims.issued_at;
  expires_at = claims.expires_at;
  revoked_at = none;
}

module _ (h : Host) (s : Hs256) (lib : RetryNotify DbError AnyError (Counters World)) where
  -- `bcrypt.GenerateFromPassword`, `uuid.NewString` and `users.Create`: the new user's identifier
  unfoldable pub add_user : Text → Text → List Text → M Text
  unfolding create_user
  add_user username password roles = do
    hash ← λ w. (
      elim (h.generate_hash w.ticks password) [
        | none ↦ err (plain "hash password")
        | some x ↦ ok x
      ],
      tick w,
    )
    user_id ← λ w. (ok (h.new_uuid w.ticks), tick w)
    checked
        (create_user h (record {
          id = user_id;
          username = username;
          password_hash = hash;
          roles = roles;
          created_at = 0;
        }))
        (plain "create user")
    pure user_id

  -- The two tokens of a new user.
  unfoldable pub first_tokens : Text → List Text → M TokenPair
  unfolding generate retry store
  first_tokens user_id roles = do
    a ← or_fail (generate h s user_id roles access) (plain "generate access")
    r ← or_fail (generate h s user_id roles refresh) (plain "generate refresh")
    checked (retry lib (store h (row_of user_id r.0 r.1))) (plain "store refresh")
    λ w. (
      ok (record {
        access_token = a.0;
        refresh_token = r.0;
        expires_in = seconds_until a.1.expires_at (h.now w.ticks);
      }),
      tick w,
    )

  -- `registerHandler.Handle`
  unfoldable pub register : Option RegisterRequest → M TokenPair
  unfolding add_user first_tokens exists_by_username normalize_roles text_eq
  register request = do
    req ← λ w. (register_guard request, w)
    roles ← or_fail (λ w. (normalize_roles req.roles, w)) (status invalid_argument "invalid roles")
    require (not (any (λ role. text_eq role role_admin) roles))
        (status permission_denied "cannot self-register with admin role")
    exists ←
        or_fail (exists_by_username h (to_lower (trim_space req.username))) (plain "check username")
    require (not exists) (status already_exists "username already exists")
    user_id ← add_user (to_lower (trim_space req.username)) (trim_space req.password) roles
    first_tokens user_id roles
