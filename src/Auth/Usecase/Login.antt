-- ===== src/Auth/Usecase/Login.antt =====
-- services/auth/internal/usecase/login.go
use analytics_system.Prelude.{
  Option, none, some, Result, ok, err, length, ltb, all, if◌then◌else◌, ◌||◌,
}
use analytics_system.Prelude.Text.{Text, is_empty, trim_space, to_lower}
use analytics_system.Backoff.{RetryNotify, Counters}
use analytics_system.Auth.Host.{Host}
use analytics_system.Auth.Role.{is_valid_role}
use analytics_system.Auth.Store.{AnyError, World, DbError, User, tick, find_by_username, store}
use analytics_system.Auth.Jwt.{Hs256, access, refresh, Claims, generate}
use analytics_system.Auth.Usecase.{
  M, ◌>>=◌, ◌>>◌, require, or_fail, checked, retry, Error, status, plain, invalid_argument,
  seconds_until, TokenPair,
}

pub record LoginRequest : Type 0 where
  pub username : Text
  pub password : Text

-- The name that is looked up, and the password whose length counts.
abbrev pub login_name : LoginRequest → Text
login_name req = to_lower (trim_space req.username)

-- The tests before the first statement is sent.
abbrev pub login_guard : Option LoginRequest → Result Error LoginRequest
login_guard none = err (status invalid_argument "missing credentials")
login_guard (some req) =
    if is_empty (trim_space req.username) || is_empty (trim_space req.password)
    then err (status invalid_argument "missing credentials")
    else (if ltb (length (login_name req)) 3 || ltb 128 (length (login_name req))
        then err (status invalid_argument "username must be between 3 and 128 characters")
        else (if ltb (length (trim_space req.password)) 8
            then err (status invalid_argument "password must be at least 8 characters")
            else ok req))

module _ (h : Host) (s : Hs256) (lib : RetryNotify DbError AnyError (Counters World)) where
  -- The `select` over the result of the comparison and a timeout of 200 ms; the password is compared
  -- as it was sent.
  unfoldable pub check_password : User → Text → M (Unit {0})
  check_password user password w = (
    if h.hash_late w.ticks
        then err (plain "password check timed out")
        else (if h.compare_hash user.password_hash password
            then ok tt
            else err (plain "invalid credentials")),
    tick w,
  )

  -- The operation that is retried; each try has a new identifier.
  unfoldable pub store_login : User → Text → Claims → World → Option DbError × World
  unfolding store
  store_login user token claims w =
      store h
        (record {
          id = h.new_uuid w.ticks;
          user_id = user.id;
          jti = claims.jti;
          token = token;
          issued_at = claims.issued_at;
          expires_at = claims.expires_at;
          revoked_at = none;
        })
        (tick w)

  -- What follows the lookup of the user.
  unfoldable pub login_user : LoginRequest → User → M TokenPair
  unfolding check_password store_login retry generate is_valid_role
  login_user req user = do
    check_password user req.password
    require (all is_valid_role user.roles) (plain "user has invalid role")
    a ← or_fail (generate h s user.id user.roles access) (plain "generate access")
    r ← or_fail (generate h s user.id user.roles refresh) (plain "generate refresh")
    checked (retry lib (store_login user r.0 r.1)) (plain "store refresh")
    λ w. (
      ok (record {
        access_token = a.0;
        refresh_token = r.0;
        expires_in = seconds_until a.1.expires_at (h.now w.ticks);
      }),
      tick w,
    )

  -- `loginHandler.Handle`
  unfoldable pub login : Option LoginRequest → M TokenPair
  unfolding login_user find_by_username
  login request = do
    req ← λ w. (login_guard request, w)
    user ← or_fail (find_by_username h (login_name req)) (plain "user not found")
    login_user req user
