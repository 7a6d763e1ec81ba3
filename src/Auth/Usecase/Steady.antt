-- ===== src/Auth/Usecase/Steady.antt =====
-- What every call of services/auth/internal/usecase keeps of the tables, also when it fails.
use analytics_system.Prelude.{Bool, Option, none, some, Result, ok, err, List, [], ◌∷◌}
use analytics_system.Prelude.Text.{Text, trim_space, to_lower}
use analytics_system.Backoff.{temporary, RetryNotify, Counters}
use analytics_system.Backoff.Counts.{execute_keeps}
use analytics_system.Auth.Host.{Host}
use analytics_system.Auth.Store.{AnyError, World, User, DbError, tick}
use analytics_system.Auth.Store.Laws.{
  IsConsistent, IsRevoked, Grows, Grows-refl, Grows-trans, tick-Grows, find_by_username-Grows,
  find_by_jti-Grows, exists_by_username-Grows, create_user-Grows, store-Grows, revoke_by_jti-Grows,
}
use analytics_system.Auth.Jwt.{Hs256, Claims, TokenType, access, refresh, other, parse, generate}
use analytics_system.Auth.Usecase.{M, Error, ◌>>=◌, after, or_fail, checked, require, retry}
use analytics_system.Auth.Usecase.Login.{
  LoginRequest, check_password, store_login, login_user, login,
}
use analytics_system.Auth.Usecase.Register.{
  RegisterRequest, row_of, add_user, first_tokens, register,
}
use analytics_system.Auth.Usecase.Refresh.{revoke_old, next_tokens, refresh_tokens}
use analytics_system.Auth.Usecase.Token.{RevokeTokenRequest, revoke, logout}

-- From any state the call leaves consistent tables consistent and revoked rows revoked.
pub record IsSteady {A : Type 0} (m : M A) : Type 0 where
  pub grows : (w : World) → Grows w (m w).1

after-Grows :
    {A B : Type 0} (w : World) (r : Result Error A × World) (f : A → M B)
    → Grows w r.1
    → ((a : A) → IsSteady (f a))
    → Grows w (after r f).1
after-Grows w (ok a, w') f g s = Grows-trans g ((s a).grows w')
after-Grows w (err e, w') f g s = g

pub bind-IsSteady :
    {A B : Type 0} {m : M A} {f : A → M B}
    → IsSteady m
    → ((a : A) → IsSteady (f a))
    → IsSteady (m >>= f)
unfolding ◌>>=◌
bind-IsSteady {m} {f} s t = record { grows = λ w. after-Grows w (m w) f (s.grows w) t }

pub still-IsSteady : {A : Type 0} {r : Result Error A} → IsSteady (λ w. (r, w))
still-IsSteady = record { grows = Grows-refl }

pub tick-IsSteady : {A : Type 0} {r : World → Result Error A} → IsSteady (λ w. (r w, tick w))
tick-IsSteady = record { grows = tick-Grows }

pub require-IsSteady : (cond : Bool) (e : Error) → IsSteady (require cond e)
unfolding require
require-IsSteady cond e = record { grows = Grows-refl }

pub or_fail-IsSteady :
    {A E : Type 0} (m : World → Result E A × World) (e : Error)
    → ((w : World) → Grows w (m w).1)
    → IsSteady (or_fail m e)
unfolding or_fail
or_fail-IsSteady m e g = record { grows = g }

pub checked-IsSteady :
    {E : Type 0} (m : World → Option E × World) (e : Error)
    → ((w : World) → Grows w (m w).1)
    → IsSteady (checked m e)
unfolding checked
checked-IsSteady m e g = record { grows = g }

generate-Grows :
    (h : Host) (s : Hs256) (user_id : Text) (roles : List Text) (typ : TokenType) (w : World)
    → Grows w (generate h s user_id roles typ w).1
unfolding generate
generate-Grows h s user_id roles access w = tick-Grows w
generate-Grows h s user_id roles refresh w = tick-Grows w
generate-Grows h s user_id roles (other t) w = tick-Grows w

parse-Grows : (h : Host) (s : Hs256) (token : Text) (w : World) → Grows w (parse h s token w).1
unfolding parse
parse-Grows h s token w = tick-Grows w

retry-Grows :
    (lib : RetryNotify DbError AnyError (Counters World)) (op : World → Option DbError × World)
    → ((w : World) → Grows w (op w).1)
    → (w : World) → Grows w (retry lib op w).1
unfolding retry
retry-Grows lib op s w =
    (execute_keeps 0
      (λ ctx v. let (e, v') = op v in (elim e [ none ↦ none | some x ↦ some (temporary x) ], v'))
      (λ e delay tries v. v) (Grows w) (λ ctx v g. Grows-trans g (s v)) (λ e delay tries v g. g) lib
      (record { world = w; tries = 0; retries = 0; failures = 0; successes = 0 }) (Grows-refl w)).0

-- The calls that a client makes one after another.
pub data Call : Type 0 where
  login_call : Option LoginRequest → Call
  register_call : Option RegisterRequest → Call
  refresh_call : Text → Call
  revoke_call : Option RevokeTokenRequest → Call
  logout_call : Text → Call

module _ (h : Host) (s : Hs256) (lib : RetryNotify DbError AnyError (Counters World)) where
  check_password-IsSteady :
      (user : User) (password : Text) → IsSteady (check_password h s lib user password)
  unfolding check_password
  check_password-IsSteady user password = tick-IsSteady

  store_login-Grows :
      (user : User) (token : Text) (c : Claims) (w : World)
      → Grows w (store_login h s lib user token c w).1
  unfolding store_login
  store_login-Grows user token c w = Grows-trans (tick-Grows w) (
      store-Grows h (tick w) (record {
        id = h.new_uuid w.ticks;
        user_id = user.id;
        jti = c.jti;
        token = token;
        issued_at = c.issued_at;
        expires_at = c.expires_at;
        revoked_at = none;
      }))

  login_user-IsSteady : (req : LoginRequest) (user : User) → IsSteady (login_user h s lib req user)
  unfolding login_user
  login_user-IsSteady req user = bind-IsSteady (check_password-IsSteady user req.password) (λ _.
      bind-IsSteady (require-IsSteady _ _) (λ _.
        bind-IsSteady (or_fail-IsSteady _ _ (generate-Grows h s user.id user.roles access)) (λ a.
          bind-IsSteady (or_fail-IsSteady _ _ (generate-Grows h s user.id user.roles refresh)) (λ r.
            bind-IsSteady
              (checked-IsSteady _ _ (retry-Grows lib _ (store_login-Grows user r.0 r.1)))
              (λ _. tick-IsSteady)))))

  login-IsSteady : (request : Option LoginRequest) → IsSteady (login h s lib request)
  unfolding login
  login-IsSteady request = bind-IsSteady still-IsSteady (λ req.
      bind-IsSteady
        (or_fail-IsSteady _ _
          (λ w. find_by_username-Grows h w (to_lower (trim_space req.username))))
        (login_user-IsSteady req))

  add_user-IsSteady :
      (username password : Text) (roles : List Text)
      → IsSteady (add_user h s lib username password roles)
  unfolding add_user
  add_user-IsSteady username password roles = bind-IsSteady tick-IsSteady (λ hash.
      bind-IsSteady tick-IsSteady (λ user_id.
        bind-IsSteady
          (checked-IsSteady _ _ (λ w. create_user-Grows h w (record {
            id = user_id;
            username = username;
            password_hash = hash;
            roles = roles;
            created_at = 0;
          })))
          (λ _. still-IsSteady)))

  first_tokens-IsSteady :
      (user_id : Text) (roles : List Text) → IsSteady (first_tokens h s lib user_id roles)
  unfolding first_tokens
  first_tokens-IsSteady user_id roles =
      bind-IsSteady (or_fail-IsSteady _ _ (generate-Grows h s user_id roles access)) (λ a.
        bind-IsSteady (or_fail-IsSteady _ _ (generate-Grows h s user_id roles refresh)) (λ r.
          bind-IsSteady
            (checked-IsSteady _ _
              (retry-Grows lib _ (λ w. store-Grows h w (row_of user_id r.0 r.1))))
            (λ _. tick-IsSteady)))

  register-IsSteady : (request : Option RegisterRequest) → IsSteady (register h s lib request)
  unfolding register
  register-IsSteady request = bind-IsSteady still-IsSteady (λ req.
      bind-IsSteady (or_fail-IsSteady _ _ (λ w. Grows-refl w)) (λ roles.
        bind-IsSteady (require-IsSteady _ _) (λ _.
          bind-IsSteady
            (or_fail-IsSteady _ _
              (λ w. exists_by_username-Grows h w (to_lower (trim_space req.username))))
            (λ _. bind-IsSteady (require-IsSteady _ _) (λ _.
              bind-IsSteady (add_user-IsSteady _ _ _)
                (λ user_id. first_tokens-IsSteady user_id roles))))))

  revoke_old-IsSteady : (jti : Text) → IsSteady (revoke_old h s lib jti)
  unfolding revoke_old
  revoke_old-IsSteady jti = record { grows = λ w. revoke_by_jti-Grows h w jti }

  pub next_tokens-IsSteady : (c : Claims) → IsSteady (next_tokens h s lib c)
  unfolding next_tokens
  next_tokens-IsSteady c =
      bind-IsSteady (or_fail-IsSteady _ _ (generate-Grows h s c.user_id c.roles access)) (λ a.
        bind-IsSteady (or_fail-IsSteady _ _ (generate-Grows h s c.user_id c.roles refresh)) (λ r.
          bind-IsSteady
            (checked-IsSteady _ _
              (retry-Grows lib _ (λ w. store-Grows h w (row_of c.user_id r.0 r.1))))
            (λ _. tick-IsSteady)))

  refresh_tokens-IsSteady : (token : Text) → IsSteady (refresh_tokens h s lib token)
  unfolding refresh_tokens
  refresh_tokens-IsSteady token = bind-IsSteady (or_fail-IsSteady _ _ (parse-Grows h s token)) (λ c.
      bind-IsSteady (or_fail-IsSteady _ _ (λ w. find_by_jti-Grows h w c.jti)) (λ _.
        bind-IsSteady (require-IsSteady _ _)
          (λ _. bind-IsSteady (revoke_old-IsSteady _) (λ _. next_tokens-IsSteady c))))

  revoke-IsSteady : (request : Option RevokeTokenRequest) → IsSteady (revoke h lib request)
  unfolding revoke
  revoke-IsSteady request = bind-IsSteady still-IsSteady (λ req.
      bind-IsSteady (or_fail-IsSteady _ _ (λ w. Grows-refl w)) (λ c.
        bind-IsSteady
          (checked-IsSteady _ _ (retry-Grows lib _ (λ w. revoke_by_jti-Grows h w c.jti)))
          (λ _. still-IsSteady)))

  logout-IsSteady : (jti : Text) → IsSteady (logout h jti)
  unfolding logout
  logout-IsSteady jti = bind-IsSteady (or_fail-IsSteady _ _ (λ w. find_by_jti-Grows h w jti)) (λ _.
      bind-IsSteady (require-IsSteady _ _)
        (λ _. checked-IsSteady _ _ (λ w. revoke_by_jti-Grows h w jti)))

  -- The state after a call, whatever it returned.
  unfoldable pub perform : Call → World → World
  unfolding login register refresh_tokens revoke logout
  perform (login_call r) w = (login h s lib r w).1
  perform (register_call r) w = (register h s lib r w).1
  perform (refresh_call t) w = (refresh_tokens h s lib t w).1
  perform (revoke_call r) w = (revoke h lib r w).1
  perform (logout_call j) w = (logout h j w).1

  abbrev pub perform_all : List Call → World → World
  perform_all [] w = w
  perform_all (c ∷ cs) w = perform_all cs (perform c w)

  perform-Grows : (c : Call) (w : World) → Grows w (perform c w)
  unfolding perform
  perform-Grows (login_call r) w = (login-IsSteady r).grows w
  perform-Grows (register_call r) w = (register-IsSteady r).grows w
  perform-Grows (refresh_call t) w = (refresh_tokens-IsSteady t).grows w
  perform-Grows (revoke_call r) w = (revoke-IsSteady r).grows w
  perform-Grows (logout_call j) w = (logout-IsSteady j).grows w

  pub perform_all-Grows : (cs : List Call) (w : World) → Grows w (perform_all cs w)
  perform_all-Grows [] w = Grows-refl w
  perform_all-Grows (c ∷ cs) w =
      Grows-trans (perform-Grows c w) (perform_all-Grows cs (perform c w))

  -- From tables with unique users, unique token identifiers and an owner for each token, any
  -- sequence of calls, successful or not, leads to such tables.
  pub perform_all-IsConsistent :
      (cs : List Call) (w : World) → IsConsistent w → IsConsistent (perform_all cs w)
  perform_all-IsConsistent cs w c = (perform_all-Grows cs w).consistent c

  -- A refresh token that is revoked stays so in any sequence of calls.
  pub perform_all-IsRevoked :
      (cs : List Call) (w : World) (id : Text) → IsRevoked id w → IsRevoked id (perform_all cs w)
  perform_all-IsRevoked cs w id r = (perform_all-Grows cs w).revoked id r
