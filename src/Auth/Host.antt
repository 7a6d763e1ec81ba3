-- ===== src/Auth/Host.antt =====
-- What the auth service takes from outside: the clock, fresh identifiers, the password hash, the JWT
-- library, and when the database or a hash is too slow. Each use of the outside is one tick of a
-- counter, and the answers are functions of the counter.
use analytics_system.Prelude.{ℕ, Bool, List, Option}
use analytics_system.Prelude.Text.{Text}

-- The JSON object of a token, by its keys.
pub record Payload : Type 0 where
  pub iss : Text
  pub aud : List Text
  pub sub : Text
  pub roles : List Text
  pub jti : Text
  pub iat : ℕ
  pub exp : ℕ

pub record Host : Type 0 where
  -- whether the statement sent to the database at this tick fails
  pub db_fails : ℕ → Bool
  -- `errors.Is(err, pgx.ErrNoRows)` for the error of pgx/v5 on an empty result, where the source
  -- names the `ErrNoRows` of the other package github.com/jackc/pgx
  pub no_rows_matches : Bool
  -- `time.Now()`
  pub now : ℕ → ℕ
  -- `uuid.NewString()`
  pub new_uuid : ℕ → Text
  -- whether the comparison of the hash begun at this tick takes over 200 ms
  pub hash_late : ℕ → Bool
  -- `bcrypt.CompareHashAndPassword(hash, password) == nil`
  pub compare_hash : Text → Text → Bool
  -- `bcrypt.GenerateFromPassword(password)`, which draws a salt
  pub generate_hash : ℕ → Text → Option Text
  -- `token.SignedString(secret)` for HS256
  pub signed_string : Text → Payload → Option Text
  -- `ParseWithClaims` under `WithIssuer` and `WithAudience` at a time: HMAC signature, expiry, issuer
  -- and audience are checked
  pub parse_with_claims : Text → Text → Text → ℕ → Text → Option Payload
  -- `ParseUnverified`
  pub parse_unverified : Text → Option Payload
