-- ===== src/Auth/Interceptor/Laws.antt =====
-- What a call must bring to pass the interceptors of services/auth.
use analytics_system.Prelude.{
  ◌≡◌, refl, sym, ap, subst, ◌∙◌, true, List, Option, none, some, ok, arith,
}
use analytics_system.Prelude.Text.{Text, has_prefix, trim_prefix}
use mathlib.Core.Path.{subst₂}
use analytics_system.Auth.Host.{Host, Payload}
use analytics_system.Auth.Store.{World, tick}
use analytics_system.Auth.Jwt.{Hs256, Claims, parse, of_payload}
use analytics_system.Auth.Usecase.{M}
use analytics_system.Auth.Usecase.Rotation.{bind-ok, or_fail-ok, require-ok, parsed}
use analytics_system.Auth.Interceptor.{
  Context, bearer, auth_header, first_value, with_claims, method_is_allowed, unary_jwt_interceptor,
  unary_rbac_interceptor, chain_unary_interceptor,
}

first_value-ok :
    (metadata : Option (List Text)) (header : Text)
    → first_value metadata ≡ ok header
    → (values : List Text) × (metadata ≡ some values) × (auth_header values ≡ header)
first_value-ok none header e = absurd (ground arith)
first_value-ok (some values) header e = (values, refl, ground arith)

module _ {A : Type 0} (h : Host) (s : Hs256) where
  rbac-ok :
      (method : Text) (handler : Context → M A) (ctx : Context) (w w' : World) (a : A)
      → unary_rbac_interceptor method handler ctx w ≡ (ok a, w')
      → (method_is_allowed method ctx ≡ true) × (handler ctx w ≡ (ok a, w'))
  unfolding unary_rbac_interceptor
  rbac-ok method handler ctx w w' a e =
      let (u, w1, e1, f1) = bind-ok _ _ w e in
      let (allowed, same) = require-ok _ _ w w1 u e1 in
      (allowed, subst (λ (v : World). handler ctx v ≡ (ok a, w')) same f1)

  -- A method succeeds only for a call with a bearer token that parses, whose claims, written to the
  -- context, pass the test of the roles, and then its result is that of the handler in that context.
  pub chain_unary_interceptor-ok :
      (metadata : Option (List Text)) (method : Text) (handler : Context → M A) (ctx : Context)
      (w w' : World) (a : A)
      → chain_unary_interceptor h s metadata method handler ctx w ≡ (ok a, w')
      → (values : List Text) × (p : Payload) × (metadata ≡ some values)
        × (has_prefix (auth_header values) bearer ≡ true)
        × (h.parse_with_claims s.secret s.issuer s.audience
              (h.now w.ticks)
              (trim_prefix (auth_header values) bearer)
            ≡ some p)
        × (method_is_allowed method (with_claims (of_payload p) ctx) ≡ true)
        × (handler (with_claims (of_payload p) ctx) (tick w) ≡ (ok a, w'))
  unfolding chain_unary_interceptor unary_jwt_interceptor
  chain_unary_interceptor-ok metadata method handler ctx w w' a e =
      let (header, w1, e1, f1) = bind-ok _ _ w e in
      let (u, w2, e2, f2) = bind-ok _ _ w1 f1 in
      let (c, w3, e3, f3) = bind-ok _ _ w2 f2 in
      let (values, given, first) = first_value-ok metadata header (ap (λ x. x.0) e1) in
      let (marked, at2) = require-ok _ _ w1 w2 u e2 in
      let token = trim_prefix header bearer in
      let (p, read, same, at3) =
        parsed h s token w2 w3 c (or_fail-ok _ (parse h s token) _ w2 refl e3) in
      let (allowed, ran) = rbac-ok method handler (with_claims c ctx) w3 w' a f3 in
      let at0 : w2 ≡ w = at2 ∙ sym (ap (λ x. x.1) e1) in
      (
        values,
        p,
        given,
        rw first marked,
        rw first (
            subst
              (λ (v : World).
                h.parse_with_claims s.secret s.issuer s.audience (h.now v.ticks) token ≡ some p)
              at0 read),
        subst (λ (x : Claims). method_is_allowed method (with_claims x ctx) ≡ true) same allowed,
        subst₂ (λ (x : Claims) (v : World). handler (with_claims x ctx) v ≡ (ok a, w')) same
            (at3 ∙ ap tick at0) ran,
      )
