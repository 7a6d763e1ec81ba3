-- ===== src/Auth/Usecase/Entry.antt =====
-- Who gets tokens from services/auth/internal/usecase/login.go and register.go.
use analytics_system.Prelude.{
  ◌≡◌, refl, sym, ap, subst, ◌∙◌, Bool, true, false, Option, none, some, ok, List, any, all, not,
  inl, inr, arith, ltb, length, Option-cases,
}
use analytics_system.Prelude.Text.{Text, text_eq, trim_space, to_lower}
use analytics_system.Backoff.{RetryNotify, Counters}
use analytics_system.Auth.Host.{Host}
use analytics_system.Auth.Role.{is_valid_role, normalize_roles, role_admin}
use analytics_system.Auth.Store.{
  AnyError, World, User, DbError, find_row, find_by_username, exists_by_username,
}
use analytics_system.Auth.Jwt.{Hs256}
use analytics_system.Auth.Usecase.{TokenPair}
use analytics_system.Auth.Usecase.Login.{
  LoginRequest, login_name, login_guard, check_password, login_user, login,
}
use analytics_system.Auth.Usecase.Register.{RegisterRequest, register_guard, register}
use analytics_system.Auth.Usecase.Rotation.{bind-ok, or_fail-ok, require-ok}

-- What the first tests of `Login` let pass.
abbrev pub IsLoginForm : LoginRequest → Type 0
IsLoginForm req =
    (ltb (length (login_name req)) 3 ≡ false)
    × (ltb 128 (length (login_name req)) ≡ false)
    × (ltb (length (trim_space req.password)) 8 ≡ false)

login_guard-ok :
    (request : Option LoginRequest) (req : LoginRequest)
    → login_guard request ≡ ok req
    → (request ≡ some req) × IsLoginForm req
login_guard-ok none req e = absurd (ground arith)
login_guard-ok (some r) req e =
    let form = guard_form r req e in (ap (λ x. some x) form.0, subst IsLoginForm form.0 form.1)
  where
    guard_form : (r req : LoginRequest) → login_guard (some r) ≡ ok req → (r ≡ req) × IsLoginForm r
    guard_form r req e = ground arith

register_guard-ok :
    (request : Option RegisterRequest) (req : RegisterRequest)
    → register_guard request ≡ ok req
    → request ≡ some req
register_guard-ok none req e = absurd (ground arith)
register_guard-ok (some r) req e = ground arith

module _ (h : Host) (s : Hs256) (lib : RetryNotify DbError AnyError (Counters World)) where
  found_user :
      (name : Text) (w w' : World) (u : User)
      → find_by_username h name w ≡ (ok u, w')
      → find_row (λ v. text_eq v.username name) w.users ≡ some u
  unfolding find_by_username
  found_user name w w' u e = elim (Option-cases (find_row (λ v. text_eq v.username name) w.users)) [
    | inl missing ↦ absurd (ground arith)
    | inr (v, found) ↦ ground arith
  ]

  checked_password :
      (u : User) (password : Text) (w w' : World) (x : Unit {0})
      → check_password h s lib u password w ≡ (ok x, w')
      → h.compare_hash u.password_hash password ≡ true
  unfolding check_password
  checked_password u password w w' x e = ground arith

  not_taken :
      (name : Text) (w w' : World) (taken : Bool)
      → exists_by_username h name w ≡ (ok taken, w')
      → not taken ≡ true
      → any (λ u. text_eq u.username name) w.users ≡ false
  unfolding exists_by_username
  not_taken name w w' taken e f = ground arith

  -- `Login` gives tokens only for a request of sufficient length, whose lower case name, without
  -- spaces around it, is that of a user, whose password, as it was sent, fits the stored hash, and
  -- whose user has valid roles only.
  pub login-ok :
      (request : Option LoginRequest) (w w' : World) (pair : TokenPair)
      → login h s lib request w ≡ (ok pair, w')
      → (req : LoginRequest) × (user : User) × (request ≡ some req)
        × IsLoginForm req
        × (find_row (λ u. text_eq u.username (login_name req)) w.users ≡ some user)
        × (h.compare_hash user.password_hash req.password ≡ true)
        × (all is_valid_role user.roles ≡ true)
  unfolding login login_user
  login-ok request w w' pair e =
      let (req, w1, e1, f1) = bind-ok _ _ w e in
      let (user, w2, e2, f2) = bind-ok _ _ w1 f1 in
      let (x, w3, e3, f3) = bind-ok _ _ w2 f2 in
      let (y, w4, e4, f4) = bind-ok _ _ w3 f3 in
      let (same, form) = login_guard-ok request req (ap (λ x. x.0) e1) in
      let at1 : w ≡ w1 = ap (λ x. x.1) e1 in
      let found =
        found_user (login_name req) w1 w2 user
          (or_fail-ok _ (find_by_username h (login_name req)) _ w1 refl e2) in
      (
        req,
        user,
        same,
        form,
        subst
            (λ (v : World). find_row (λ u. text_eq u.username (login_name req)) v.users ≡ some user)
            (sym at1) found,
        checked_password user req.password w2 w3 x e3,
        (require-ok (all is_valid_role user.roles) _ w3 w4 y e4).0,
      )

  name_found :
      (name : Text) (w w' : World) (taken : Bool)
      → h.no_rows_matches ≡ false
      → exists_by_username h name w ≡ (ok taken, w')
      → taken ≡ true
  unfolding exists_by_username
  name_found name w w' taken unmatched e = ground arith

  -- Where the error of a missing row does not match the one that `ExistsByUsername` asks for, as that
  -- of pgx/v5 does not match the one of pgx, `Register` never gives tokens.
  pub register_never :
      (request : Option RegisterRequest) (w w' : World) (pair : TokenPair)
      → h.no_rows_matches ≡ false
      → ¬ (register h s lib request w ≡ (ok pair, w'))
  unfolding register
  register_never request w w' pair unmatched e =
      let (req, w1, e1, f1) = bind-ok _ _ w e in
      let (roles, w2, e2, f2) = bind-ok _ _ w1 f1 in
      let (x, w3, e3, f3) = bind-ok _ _ w2 f2 in
      let (taken, w4, e4, f4) = bind-ok _ _ w3 f3 in
      let (y, w5, e5, f5) = bind-ok _ _ w4 f4 in
      let name = to_lower (trim_space req.username) in
      let found =
        name_found name w3 w4 taken unmatched
          (or_fail-ok _ (exists_by_username h name) _ w3 refl e4) in
      let free = (require-ok _ _ w4 w5 y e5).0 in ground (arith, found, free)

  -- `Register` gives tokens only for a request whose roles are accepted, without the role of an
  -- administrator, and whose name, in lower case without spaces around it, no user has.
  pub register-ok :
      (request : Option RegisterRequest) (w w' : World) (pair : TokenPair)
      → register h s lib request w ≡ (ok pair, w')
      → (req : RegisterRequest) × (roles : List Text) × (request ≡ some req)
        × (normalize_roles req.roles ≡ ok roles)
        × (any (λ role. text_eq role role_admin) roles ≡ false)
        × (any (λ u. text_eq u.username (to_lower (trim_space req.username))) w.users ≡ false)
  unfolding register
  register-ok request w w' pair e =
      let (req, w1, e1, f1) = bind-ok _ _ w e in
      let (roles, w2, e2, f2) = bind-ok _ _ w1 f1 in
      let (x, w3, e3, f3) = bind-ok _ _ w2 f2 in
      let (taken, w4, e4, f4) = bind-ok _ _ w3 f3 in
      let (y, w5, e5, f5) = bind-ok _ _ w4 f4 in
      let given = or_fail-ok _ (λ w. (normalize_roles req.roles, w)) _ w1 refl e2 in
      let (plain_role, at3) = require-ok _ _ w2 w3 x e3 in
      let free = (require-ok _ _ w4 w5 y e5).0 in
      let name = to_lower (trim_space req.username) in
      let unused =
        not_taken name w3 w4 taken (or_fail-ok _ (exists_by_username h name) _ w3 refl e4) free in
      let at1 : w3 ≡ w = at3 ∙ sym (ap (λ x. x.1) given) ∙ sym (ap (λ x. x.1) e1) in
      (
        req,
        roles,
        register_guard-ok request req (ap (λ x. x.0) e1),
        ap (λ x. x.0) given,
        ground arith,
        subst (λ (v : World). any (λ u. text_eq u.username name) v.users ≡ false) at1 unused,
      )
