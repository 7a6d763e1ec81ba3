-- ===== src/Auth/Jwt.antt =====
-- claims.go, jwt.go and hs256.go of services/auth/internal/jwt.
pub mod RoundTrip
use analytics_system.Prelude.{
  ℕ, ◌+◌, List, [], ◌∷◌, Option, none, some, Result, ok, err, length, ltb, if◌then◌else◌, ◌||◌,
}
use analytics_system.Prelude.Text.{Text, is_empty}
use analytics_system.Interval.{minute, second, truncate}
use analytics_system.Auth.Host.{Host, Payload}
use analytics_system.Auth.Store.{World, tick}

-- `Claims`: the embedded `RegisteredClaims` has the field `Subject`, the outer struct `UserID`; both
-- carry the JSON key `sub`.
pub record Claims : Type 0 where
  pub issuer : Text
  pub audience : List Text
  pub subject : Text
  pub user_id : Text
  pub roles : List Text
  pub jti : Text
  pub issued_at : ℕ
  pub expires_at : ℕ

-- Of two fields with one key, encoding/json takes the one that is embedded less deeply: `UserID`
-- goes out as `sub` and comes back from it, and `Subject` neither goes out nor comes back.
unfoldable pub to_payload : Claims → Payload
to_payload c = record {
  iss = c.issuer;
  aud = c.audience;
  sub = c.user_id;
  roles = c.roles;
  jti = c.jti;
  iat = c.issued_at;
  exp = c.expires_at;
}

unfoldable pub of_payload : Payload → Claims
of_payload p = record {
  issuer = p.iss;
  audience = p.aud;
  subject = [];
  user_id = p.sub;
  roles = p.roles;
  jti = p.jti;
  issued_at = p.iat;
  expires_at = p.exp;
}

pub data TokenType : Type 0 where
  access refresh : TokenType
  other : Text → TokenType

pub data JwtError : Type 0 where
  secret_too_short no_issuer ttl_too_short unsupported_type not_signed not_parsed : JwtError

-- `HS256`
pub record Hs256 : Type 0 where
  pub secret : Text
  pub issuer : Text
  pub audience : Text
  pub access_ttl : ℕ
  pub refresh_ttl : ℕ

-- `NewHS256`
unfoldable pub new_hs256 : Text → Text → Text → ℕ → ℕ → Result JwtError Hs256
new_hs256 secret issuer audience access_ttl refresh_ttl =
    if ltb (length secret) 32
    then err secret_too_short
    else (if is_empty issuer || is_empty audience
        then err no_issuer
        else (if ltb access_ttl minute || ltb refresh_ttl minute
            then err ttl_too_short
            else ok (record {
              secret = secret;
              issuer = issuer;
              audience = audience;
              access_ttl = access_ttl;
              refresh_ttl = refresh_ttl;
            })))

-- The lifetime that `Generate` gives a token of this type.
abbrev pub ttl_of : Hs256 → TokenType → Option ℕ
ttl_of s access = some s.access_ttl
ttl_of s refresh = some s.refresh_ttl
ttl_of s (other t) = none

module _ (h : Host) (s : Hs256) where
  -- The claims that `Generate` signs; `NewNumericDate` cuts the times to whole seconds.
  unfoldable pub new_claims : Text → List Text → ℕ → World → Claims
  unfolding truncate
  new_claims user_id roles ttl w = record {
    issuer = s.issuer;
    audience = s.audience ∷ [];
    subject = user_id;
    user_id = user_id;
    roles = roles;
    jti = h.new_uuid w.ticks;
    issued_at = truncate (h.now w.ticks) second;
    expires_at = truncate (h.now w.ticks + ttl) second;
  }

  -- `HS256.Generate`
  unfoldable pub generate :
      Text → List Text → TokenType → World → Result JwtError (Text × Claims) × World
  unfolding to_payload new_claims
  generate user_id roles typ w = elim (ttl_of s typ) [
    | none ↦ (err unsupported_type, tick w)
    | some ttl ↦
        let claims = new_claims user_id roles ttl w in
        (
          elim (h.signed_string s.secret (to_payload claims)) [
            | none ↦ err not_signed
            | some signed ↦ ok (signed, claims)
          ],
          tick w,
        )
  ]

  -- `HS256.Parse`
  unfoldable pub parse : Text → World → Result JwtError Claims × World
  unfolding of_payload
  parse token w = (
    elim (h.parse_with_claims s.secret s.issuer s.audience (h.now w.ticks) token) [
      | none ↦ err not_parsed
      | some p ↦ ok (of_payload p)
    ],
    tick w,
  )

-- `ParseUnverifiedJTI`
unfoldable pub parse_unverified_jti : Host → Text → Result JwtError Claims
unfolding of_payload
parse_unverified_jti h token = elim (h.parse_unverified token) [
  | none ↦ err not_parsed
  | some p ↦ ok (of_payload p)
]
