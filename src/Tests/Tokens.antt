-- ===== src/Tests/Tokens.antt =====
-- services/auth at concrete inputs: one user, a hash that is the password itself, and a token that
-- is the jti that it carries.
use analytics_system.Prelude.{
  ◌*◌, ◌≡◌, refl, sym, ap, ◌∙◌, true, false, List, [], ◌∷◌, Option, none, some, Result, ok, err,
  all, is_ok,
}
use analytics_system.Prelude.Text.{
  Text, codes, text_eq, has_prefix, trim_prefix, to_lower, trim_space, lower_byte,
}
use analytics_system.Prelude.Map.{lookup}
use analytics_system.Interval.{second, minute, truncate}
use analytics_system.Backoff.{RetryNotify, Counters, execute, operation, notify_wrap}
use analytics_system.Auth.Host.{Host, Payload}
use analytics_system.Auth.Role.{is_valid_role}
use analytics_system.Auth.Store.{
  AnyError, World, User, DbError, tick, find_row, find_by_username, find_by_jti, revoke_by_jti,
  store,
}
use analytics_system.Auth.Store.Laws.{IsRevoked}
use analytics_system.Auth.Jwt.{Hs256, of_payload, to_payload, new_claims, generate, parse}
use analytics_system.Auth.Usecase.{
  invalid_argument, unauthenticated, internal, M, Error, TokenPair, seconds_until, Seconds, ◌>>=◌,
  or_fail, require, checked, retry,
}
use analytics_system.Auth.Usecase.Login.{
  LoginRequest, login, login_name, login_user, check_password, store_login,
}
use analytics_system.Auth.Usecase.Register.{RegisterRequest, register}
use analytics_system.Auth.Usecase.Refresh.{refresh_tokens, revoke_old, next_tokens}
use analytics_system.Auth.Usecase.Steady.{Call, perform_all, perform_all-IsRevoked}
use analytics_system.Auth.Usecase.Rotation.{ReadsOneJti, refresh_once}
use analytics_system.Auth.Usecase.Entry.{IsLoginForm, login-ok, register_never}
use analytics_system.Auth.Interceptor.{
  Context, bearer, auth_header, with_claims, method_is_allowed, require_roles,
  unary_jwt_interceptor, unary_rbac_interceptor, chain_unary_interceptor,
}
use analytics_system.Auth.Interceptor.Laws.{chain_unary_interceptor-ok}
use analytics_system.Auth.Server.{
  server_login, server_refresh, server_validate, server_revoke, server_logout, server_register,
}
use analytics_system.Auth.Server.Codes.{FailsWith, server_codes}
use analytics_system.Tests.Common.{once}

abbrev pub payload : Text → Payload
payload jti = record {
  iss = codes "auth";
  aud = codes "api" ∷ [];
  sub = codes "u1";
  roles = codes "admin" ∷ [];
  jti = jti;
  iat = 0;
  exp = 0;
}

abbrev pub host : Host
host = record {
  db_fails = λ n. false;
  no_rows_matches = true;
  now = λ n. n * second;
  new_uuid = λ n. n ∷ [];
  hash_late = λ n. false;
  compare_hash = λ hash password. text_eq hash password;
  generate_hash = λ n password. some password;
  signed_string = λ secret p. some p.jti;
  parse_with_claims = λ secret iss aud now token. some (payload token);
  parse_unverified = λ token. some (payload token);
}

abbrev pub signer : Hs256
signer = record {
  secret = [];
  issuer = codes "auth";
  audience = codes "api";
  access_ttl = minute;
  refresh_ttl = minute;
}

abbrev retries : RetryNotify DbError AnyError (Counters World)
retries = once

abbrev old_token : Text
old_token = codes "j1"

abbrev pub world : World
world = record {
  users =
      record {
        id = codes "u1";
        username = codes "ann";
        password_hash = codes "password";
        roles = codes "user" ∷ [];
        created_at = 0;
      }
      ∷ [];
  tokens =
      record {
        id = old_token;
        user_id = codes "u1";
        jti = old_token;
        token = old_token;
        issued_at = 0;
        expires_at = 0;
        revoked_at = none;
      }
      ∷ [];
  ticks = 1;
}

abbrev jti_of : Option Payload → Text
jti_of none = []
jti_of (some p) = p.jti

one_jti : ReadsOneJti host signer retries old_token
one_jti now now' p p' e e' = sym (ap jti_of e) ∙ ap jti_of e'

abbrev given : {A : Type 0} → A → Result Error A → A
given a (ok x) = x
given a (err e) = a

abbrev no_pair : TokenPair
no_pair = record { access_token = []; refresh_token = []; expires_in = Seconds.past 0 }

abbrev exchanged : Result Error TokenPair × World
exchanged = refresh_tokens host signer retries old_token world

exchanged-ok :
    refresh_tokens host signer retries old_token world
    ≡ (ok (given no_pair exchanged.0), exchanged.1)
unfolding refresh_tokens revoke_old next_tokens ◌>>=◌ or_fail require checked parse find_by_jti
    revoke_by_jti generate retry store execute operation notify_wrap text_eq to_payload of_payload
    new_claims truncate
exchanged-ok = refl

abbrev login_request : LoginRequest
login_request = record { username = codes " Ann"; password = codes "password" }

abbrev calls : List Call
calls = Call.login_call (some login_request) ∷ Call.logout_call old_token ∷ []

refresh_once_example :
    is_ok
      (refresh_tokens host signer retries old_token
        (perform_all host signer retries calls exchanged.1)).0
    ≡ false
refresh_once_example =
    refresh_once host signer retries old_token world exchanged.1 (given no_pair exchanged.0) calls
      one_jti exchanged-ok refl

abbrev entered : Result Error TokenPair × World
entered = login host signer retries (some login_request) world

entered-ok :
    login host signer retries (some login_request) world ≡ (ok (given no_pair entered.0), entered.1)
unfolding login login_user check_password store_login find_by_username to_lower trim_space
    is_valid_role lower_byte ◌>>=◌ or_fail require checked parse find_by_jti revoke_by_jti generate
    retry store execute operation notify_wrap text_eq to_payload of_payload new_claims truncate
entered-ok = refl

login-ok_example :
    (req : LoginRequest) × (user : User) × (some login_request ≡ some req)
    × IsLoginForm req
    × (find_row (λ u. text_eq u.username (login_name req)) world.users ≡ some user)
    × (host.compare_hash user.password_hash req.password ≡ true)
    × (all is_valid_role user.roles ≡ true)
login-ok_example =
    login-ok host signer retries (some login_request) world entered.1 (given no_pair entered.0)
      entered-ok

abbrev register_request : RegisterRequest
register_request = record {
  username = codes "Bob";
  password = codes "longpassword";
  roles = codes "user" ∷ [];
}

abbrev first_pair : TokenPair
first_pair = record { access_token = []; refresh_token = []; expires_in = seconds_until 0 0 }

register_never_example : ¬ (
    register (record host { no_rows_matches = false }) signer retries (some register_request) world
    ≡ (ok first_pair, world))
register_never_example =
    register_never (record host { no_rows_matches = false }) signer retries (some register_request)
      world world first_pair refl

IsRevoked-old : IsRevoked old_token exchanged.1
unfolding refresh_tokens revoke_old next_tokens ◌>>=◌ or_fail require checked parse find_by_jti
    revoke_by_jti generate retry store execute operation notify_wrap text_eq to_payload of_payload
    new_claims truncate
IsRevoked-old = refl

perform_all-IsRevoked_example :
    IsRevoked old_token (perform_all host signer retries calls exchanged.1)
perform_all-IsRevoked_example =
    perform_all-IsRevoked host signer retries calls exchanged.1 old_token IsRevoked-old

abbrev empty_context : Context
empty_context = record {
  user_id = none;
  roles = none;
  jti = none;
  trace_id = none;
  ip_address = none;
  user_agent = none;
}

-- A handler that returns the user that the context names.
abbrev who : Context → M (Option Text)
who ctx w = (ok ctx.user_id, w)

abbrev metadata : Option (List Text)
metadata = some (codes "Bearer j1" ∷ [])

abbrev revoke_method : Text
revoke_method = codes "/market.auth.v1.AuthService/RevokeToken"

passed :
    chain_unary_interceptor host signer metadata revoke_method who empty_context world
    ≡ (ok (some (codes "u1")), tick world)
unfolding chain_unary_interceptor unary_jwt_interceptor unary_rbac_interceptor method_is_allowed
    require_roles lookup has_prefix trim_prefix ◌>>=◌ or_fail require checked parse find_by_jti
    revoke_by_jti generate retry store execute operation notify_wrap text_eq to_payload of_payload
    new_claims truncate
passed = refl

chain_unary_interceptor-ok_example :
    (values : List Text) × (p : Payload) × (metadata ≡ some values)
    × (has_prefix (auth_header values) bearer ≡ true)
    × (host.parse_with_claims signer.secret signer.issuer signer.audience
          (host.now world.ticks)
          (trim_prefix (auth_header values) bearer)
        ≡ some p)
    × (method_is_allowed revoke_method (with_claims (of_payload p) empty_context) ≡ true)
    × (who (with_claims (of_payload p) empty_context) (tick world)
        ≡ (ok (some (codes "u1")), tick world))
chain_unary_interceptor-ok_example =
    chain_unary_interceptor-ok host signer metadata revoke_method who empty_context world
      (tick world) (some (codes "u1")) passed

server_codes_example :
    FailsWith invalid_argument unauthenticated (server_login host signer retries none world).0
    × FailsWith invalid_argument unauthenticated
        (server_refresh host signer retries (some old_token) world).0
    × FailsWith invalid_argument internal
        (server_validate host signer retries empty_context (some old_token) world).0
    × FailsWith invalid_argument internal (server_revoke host signer retries none world).0
    × FailsWith invalid_argument internal
        (server_logout host signer retries (some old_token) world).0
    × FailsWith invalid_argument internal
        (server_register host signer retries (some register_request) world).0
server_codes_example =
    server_codes host signer retries world none (some old_token) empty_context none
      (some register_request)
