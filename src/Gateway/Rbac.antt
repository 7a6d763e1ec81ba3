-- ===== src/Gateway/Rbac.antt =====
-- services/api-gateway/internal/middleware/rbac.go. The permissions are a Go map: the list stands for
-- the order in which `range` visits it.
use analytics_system.Prelude.{
  ◌≡◌, refl, inl, inr, Bool, true, false, List, [], ◌∷◌, Option, none, some, any, is_nil, not, ◌||◌,
  ◌&&◌, if◌then◌else◌, arith, All, Bool-cases,
}
use analytics_system.Prelude.Text.{
  Text, codes, text_eq, equal_fold, has_prefix, has_suffix, trim_suffix, to_lower,
}
use analytics_system.Gateway.Http.{failure, Ctx, Request}
use analytics_system.Gateway.Jwt.{Gate, Handler}

-- `Route`
pub record Route : Type 0 where
  pub verb : Text
  pub path : Text

abbrev star : Text
star = codes "*"

-- The condition of the loop in `findMatchingRoles`.
unfoldable pub route_matches : Route → Text → Text → Bool
unfolding equal_fold has_prefix has_suffix trim_suffix text_eq
route_matches route verb path =
    equal_fold route.verb verb
    && ((has_suffix route.path star && has_prefix path (trim_suffix route.path star))
        || text_eq route.path path)

-- `findMatchingRoles`
unfoldable pub find_matching_roles : List (Route × List Text) → Text → Text → List Text
unfolding route_matches
find_matching_roles [] verb path = []
find_matching_roles ((route, roles) ∷ perms) verb path =
    if route_matches route verb path then roles else find_matching_roles perms verb path

-- `hasAnyRole`: the set of the user's roles in lower case is a list here.
unfoldable pub has_any_role : List Text → List Text → Bool
unfolding to_lower text_eq
has_any_role user_roles required =
    any (λ r. any (λ u. text_eq (to_lower u) (to_lower r)) user_roles) required

abbrev pub roles_or_nil : Option (List Text) → List Text
roles_or_nil none = []
roles_or_nil (some rs) = rs

-- `RBACMiddleware`
unfoldable pub rbac_middleware :
    {W B : Type 0} → List (Route × List Text) → Handler W B → Handler W B
unfolding find_matching_roles has_any_role
rbac_middleware perms next ctx r g =
    let required = find_matching_roles perms r.verb r.path in
    if is_nil required
    then next ctx r g
    else (if not (has_any_role (roles_or_nil ctx.roles) required)
        then (failure 403 "forbidden", g)
        else next ctx r g)

-- A rule that fits the request asks for no roles, or for roles of which the user has one.
abbrev pub Meets : Text → Text → List Text → Route × List Text → Type 0
Meets verb path user_roles (route, roles) =
    route_matches route verb path ≡ true → (is_nil roles || has_any_role user_roles roles) ≡ true

-- A rule that fits the request and asks for roles of which the user has none.
abbrev pub Bars : Text → Text → List Text → Route × List Text → Type 0
Bars verb path user_roles (route, roles) =
    (route_matches route verb path ≡ true
      → (is_nil roles ≡ false) × (has_any_role user_roles roles ≡ false))

found-Meets :
    (verb path : Text) (user_roles : List Text) (perms : List (Route × List Text))
    → All (Meets verb path user_roles) perms
    → (is_nil (find_matching_roles perms verb path)
        || has_any_role user_roles (find_matching_roles perms verb path))
      ≡ true
unfolding find_matching_roles
found-Meets verb path user_roles [] h = refl
found-Meets verb path user_roles ((route, roles) ∷ perms) h =
    elim (Bool-cases (route_matches route verb path)) [
      | inl fits ↦ ground (arith, h.0 fits)
      | inr other ↦ ground (arith, found-Meets verb path user_roles perms h.1)
    ]

found-Bars :
    (verb path : Text) (user_roles : List Text) (perms : List (Route × List Text))
    → any (λ p. route_matches p.0 verb path) perms ≡ true
    → All (Bars verb path user_roles) perms
    → (is_nil (find_matching_roles perms verb path)
        || has_any_role user_roles (find_matching_roles perms verb path))
      ≡ false
unfolding find_matching_roles
found-Bars verb path user_roles [] there h = absurd (ground arith)
found-Bars verb path user_roles ((route, roles) ∷ perms) there h =
    elim (Bool-cases (route_matches route verb path)) [
      | inl fits ↦ ground (arith, h.0 fits)
      | inr other ↦ ground (arith, found-Bars verb path user_roles perms (ground arith) h.1)
    ]

-- If every rule that fits names no roles or one that the user has, the request goes on, in
-- whatever order the rules are visited. If some rule fits, and each rule that fits names roles, of
-- which the user has none, the answer is 403.
pub rbac_middleware_lem :
    {W B : Type 0} (perms : List (Route × List Text)) (next : Handler W B) (ctx : Ctx) (r : Request)
    (g : Gate W)
    → (All (Meets r.verb r.path (roles_or_nil ctx.roles)) perms
        → rbac_middleware perms next ctx r g ≡ next ctx r g)
      × (any (λ p. route_matches p.0 r.verb r.path) perms ≡ true
          → All (Bars r.verb r.path (roles_or_nil ctx.roles)) perms
          → rbac_middleware perms next ctx r g ≡ (failure 403 "forbidden", g))
unfolding rbac_middleware
rbac_middleware_lem perms next ctx r g = (
  λ h. ground (arith, found-Meets r.verb r.path (roles_or_nil ctx.roles) perms h),
  λ there h. ground (arith, found-Bars r.verb r.path (roles_or_nil ctx.roles) perms there h),
)
