-- ===== src/Auth/Interceptor.antt =====
-- services/auth/internal/interceptor, in the order in which services/auth/internal/app/app.go chains
-- the interceptors.
pub mod Laws
use analytics_system.Prelude.{
  ℕ, Bool, true, false, List, [], ◌∷◌, Option, none, some, Result, ok, err, any, if◌then◌else◌,
}
use analytics_system.Prelude.Text.{Text, codes, text_eq, has_prefix, trim_prefix}
use analytics_system.Prelude.Map.{Map, lookup}
use analytics_system.Auth.Host.{Host}
use analytics_system.Auth.Role.{mem_text}
use analytics_system.Auth.Store.{World}
use analytics_system.Auth.Jwt.{Hs256, Claims, parse}
use analytics_system.Auth.Usecase.{
  M, ◌>>=◌, ◌>>◌, require, or_fail, Error, status, unauthenticated, permission_denied,
}

-- The values of a context that the service reads, by their keys.
pub record Context : Type 0 where
  pub user_id : Option Text
  pub roles : Option (List Text)
  pub jti : Option Text
  pub trace_id : Option Text
  pub ip_address : Option Text
  pub user_agent : Option Text

-- The two results of a type assertion on a value, where the second is dropped.
abbrev pub text_or_empty : Option Text → Text
text_or_empty none = []
text_or_empty (some t) = t

abbrev pub roles_or_nil : Option (List Text) → List Text
roles_or_nil none = []
roles_or_nil (some rs) = rs

-- `AuthContext` and `FromContext`
pub record AuthContext : Type 0 where
  pub user_id : Text
  pub roles : List Text
  pub jti : Text

unfoldable pub from_context : Context → AuthContext
from_context ctx = record {
  user_id = text_or_empty ctx.user_id;
  roles = roles_or_nil ctx.roles;
  jti = text_or_empty ctx.jti;
}

abbrev pub bearer : Text
bearer = codes "Bearer "

-- The header that `UnaryJWTInterceptor` reads: the first value, or nothing.
abbrev pub auth_header : List Text → Text
auth_header [] = []
auth_header (v ∷ vs) = v

abbrev pub with_claims : Claims → Context → Context
with_claims c ctx = record ctx { user_id = some c.user_id; roles = some c.roles; jti = some c.jti }

-- `RequireRoles`: whether the error is nil
unfoldable pub require_roles : Context → List Text → Bool
require_roles ctx allowed = any (λ want. mem_text want (roles_or_nil ctx.roles)) allowed

-- `methodRoles`
abbrev pub method_roles : Map (List Text)
method_roles =
    (codes "/market.auth.v1.AuthService/RevokeToken", codes "admin" ∷ [])
    ∷ (codes "/market.auth.v1.AuthService/Register", codes "admin" ∷ [])
    ∷ []

abbrev pub first_value : Option (List Text) → Result Error Text
first_value none = err (status unauthenticated "missing metadata")
first_value (some values) = ok (auth_header values)

-- `UnaryJWTInterceptor`; the metadata is given by the values of its key `authorization`.
unfoldable pub unary_jwt_interceptor :
    {A : Type 0} → Host → Hs256 → Option (List Text) → (Context → M A) → Context → M A
unfolding parse
unary_jwt_interceptor h s metadata handler ctx = do
  header ← λ w. (first_value metadata, w)
  require (has_prefix header bearer)
      (status unauthenticated "missing or invalid authorization header")
  claims ← or_fail (parse h s (trim_prefix header bearer)) (status unauthenticated "invalid token")
  handler (with_claims claims ctx)

-- The test that `UnaryRBACInterceptor` makes.
unfoldable pub method_is_allowed : Text → Context → Bool
unfolding require_roles
method_is_allowed method ctx = elim (lookup method method_roles) [
  | none ↦ true
  | some allowed ↦ require_roles ctx allowed
]

-- `UnaryRBACInterceptor`
unfoldable pub unary_rbac_interceptor : {A : Type 0} → Text → (Context → M A) → Context → M A
unfolding method_is_allowed
unary_rbac_interceptor method handler ctx = do
  require (method_is_allowed method ctx) (status permission_denied "rbac: access denied for method")
  handler ctx

-- `grpc.ChainUnaryInterceptor` over the two: the first given is the outer one.
unfoldable pub chain_unary_interceptor :
    {A : Type 0} → Host → Hs256 → Option (List Text) → Text → (Context → M A) → Context → M A
unfolding unary_jwt_interceptor unary_rbac_interceptor
chain_unary_interceptor h s metadata method handler =
    unary_jwt_interceptor h s metadata (unary_rbac_interceptor method handler)
