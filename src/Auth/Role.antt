-- ===== src/Auth/Role.antt =====
-- services/auth/internal/jwt/role.go: the roles and their normal form.
pub mod Normal
use analytics_system.Prelude.{
  ℕ, ◌≡◌, refl, ◌≢◌, ◌↔◌, Bool, true, false, not, ◌||◌, ◌&&◌, List, [], ◌∷◌, ◌++◌, reverse, map,
  Result, ok, err, Option, none, some, any, all, All, Any, arith, if◌then◌else◌, Bool-cases, inl,
  inr,
}
use analytics_system.Prelude.Text.{
  Text, codes, text_eq, text_eq_iff, to_lower, trim_space, to_lower-to_lower,
}

abbrev pub role_admin : Text
role_admin = codes "admin"

abbrev pub role_user : Text
role_user = codes "user"

abbrev pub role_viewer : Text
role_viewer = codes "viewer"

-- `ValidRoles`
abbrev pub valid_roles : List Text
valid_roles = role_admin ∷ role_user ∷ role_viewer ∷ []

-- `IsValidRole`
unfoldable pub is_valid_role : Text → Bool
unfolding text_eq to_lower
is_valid_role r = any (text_eq (to_lower r)) valid_roles

pub data RoleError : Type 0 where
  invalid_role : Text → RoleError
  no_roles : RoleError

abbrev pub mem_text : Text → List Text → Bool
mem_text r = any (text_eq r)

-- The loop of `NormalizeRoles`. The set `seen` has the entries of `result`, so one list stands for
-- both.
unfoldable pub normalize_loop : List Text → List Text → Result RoleError (List Text)
unfolding is_valid_role
normalize_loop [] result = ok result
normalize_loop (r ∷ rest) result =
    let role = to_lower (trim_space r) in
    let more = normalize_loop rest (if mem_text role result then result else result ++ role ∷ []) in
    if is_valid_role role then more else err (RoleError.invalid_role role)

-- `NormalizeRoles`
unfoldable pub normalize_roles : List Text → Result RoleError (List Text)
unfolding normalize_loop
normalize_roles raw = elim (normalize_loop raw []) [
  | err e ↦ err e
  | ok result ↦ elim result [ [] ↦ err RoleError.no_roles | r ∷ rs ↦ ok (r ∷ rs) ]
]
