-- ===== src/Auth/Server/Codes.antt =====
-- The codes of the errors that services/auth/internal/transport/grpc/handler.go returns.
use Prim.Native.String.{String}
use analytics_system.Prelude.{
  [], ◌∷◌, ◌≡◌, refl, ◌⊎◌, inl, inr, Bool, true, Option, none, some, Result, ok, err, Bool-cases,
}
use analytics_system.Prelude.Text.{Text}
use analytics_system.Backoff.{RetryNotify, Counters}
use analytics_system.Auth.Host.{Host}
use analytics_system.Auth.Store.{AnyError, World, DbError}
use analytics_system.Auth.Jwt.{Hs256}
use analytics_system.Auth.Usecase.{
  M, ◌>>=◌, after, or_fail, Error, Code, status, invalid_argument, unauthenticated, internal,
}
use analytics_system.Auth.Usecase.Login.{LoginRequest}
use analytics_system.Auth.Usecase.Register.{RegisterRequest}
use analytics_system.Auth.Usecase.Token.{RevokeTokenRequest}
use analytics_system.Auth.Interceptor.{Context}
use analytics_system.Auth.Server.{
  server_login, server_refresh, server_validate, server_revoke, server_logout, server_register,
  field_or, request_or,
}

-- A value, or an error with one of two codes.
abbrev pub FailsWith : {A : Type 0} → Code → Code → Result Error A → Type 0
FailsWith c d (ok a) = Unit {0}
FailsWith c d (err e) = (msg : String) × ((e ≡ status c msg) ⊎ (e ≡ status d msg))

-- From every state the call ends so.
record Fails {A : Type 0} (c d : Code) (m : M A) : Type 0 where
  ends : (w : World) → FailsWith c d (m w).0

after-FailsWith :
    {A B : Type 0} (c d : Code) (r : Result Error A × World) (f : A → M B)
    → FailsWith c d r.0
    → ((a : A) → Fails c d (f a))
    → FailsWith c d (after r f).0
after-FailsWith c d (ok a, w) f h g = (g a).ends w
after-FailsWith c d (err e, w) f h g = h

bind-Fails :
    {A B : Type 0} {c d : Code} {m : M A} {f : A → M B}
    → Fails c d m
    → ((a : A) → Fails c d (f a))
    → Fails c d (m >>= f)
unfolding ◌>>=◌
bind-Fails {c} {d} {m} {f} h g = record { ends = λ w. after-FailsWith c d (m w) f (h.ends w) g }

replaced :
    {A E : Type 0} (c d : Code) (msg : String) (r : Result E A)
    → FailsWith c d (elim r [ ok a ↦ ok a | err x ↦ err (status d msg) ])
replaced c d msg (ok a) = tt
replaced c d msg (err e) = (msg, inr refl)

replaced_first :
    {A E : Type 0} (c d : Code) (msg : String) (r : Result E A)
    → FailsWith c d (elim r [ ok a ↦ ok a | err x ↦ err (status c msg) ])
replaced_first c d msg (ok a) = tt
replaced_first c d msg (err e) = (msg, inl refl)

or_fail-Fails :
    {A E : Type 0} (c d : Code) (m : World → Result E A × World) (msg : String)
    → Fails c d (or_fail m (status d msg))
unfolding or_fail
or_fail-Fails c d m msg = record { ends = λ w. replaced c d msg (m w).0 }

or_fail-Fails_first :
    {A E : Type 0} (c d : Code) (m : World → Result E A × World) (msg : String)
    → Fails c d (or_fail m (status c msg))
unfolding or_fail
or_fail-Fails_first c d m msg = record { ends = λ w. replaced_first c d msg (m w).0 }

given : {A : Type 0} (c d : Code) (r : Result Error A) → FailsWith c d r → Fails c d (λ w. (r, w))
given c d r h = record { ends = λ w. h }

field_or-FailsWith :
    (c d : Code) (f : Option Text) (msg : String) → FailsWith c d (field_or f (status c msg))
field_or-FailsWith c d none msg = (msg, inl refl)
field_or-FailsWith c d (some []) msg = (msg, inl refl)
field_or-FailsWith c d (some (x ∷ t)) msg = tt

request_or-FailsWith :
    {A : Type 0} (c d : Code) (r : Option A) (bad : A → Bool) (msg : String)
    → FailsWith c d (request_or r bad (status c msg))
request_or-FailsWith c d none bad msg = (msg, inl refl)
request_or-FailsWith c d (some a) bad msg = elim (Bool-cases (bad a)) [
  | inl wrong ↦ rw wrong (msg, inl refl)
  | inr right ↦ rw right tt
]

module _ (h : Host) (s : Hs256) (lib : RetryNotify DbError AnyError (Counters World)) where
  login_codes :
      (r : Option LoginRequest) → Fails invalid_argument unauthenticated (server_login h s lib r)
  unfolding server_login
  login_codes r =
      bind-Fails (given _ _ _ (request_or-FailsWith _ _ r _ _)) (λ a. or_fail-Fails _ _ _ _)

  refresh_codes :
      (f : Option Text) → Fails invalid_argument unauthenticated (server_refresh h s lib f)
  unfolding server_refresh
  refresh_codes f =
      bind-Fails (given _ _ _ (field_or-FailsWith _ _ f _)) (λ a. or_fail-Fails _ _ _ _)

  validate_codes :
      (ctx : Context) (f : Option Text)
      → Fails invalid_argument internal (server_validate h s lib ctx f)
  unfolding server_validate
  validate_codes ctx f =
      bind-Fails (given _ _ _ (field_or-FailsWith _ _ f _)) (λ a. or_fail-Fails _ _ _ _)

  revoke_codes :
      (r : Option RevokeTokenRequest) → Fails invalid_argument internal (server_revoke h s lib r)
  unfolding server_revoke
  revoke_codes r =
      bind-Fails (given _ _ _ (request_or-FailsWith _ _ r _ _)) (λ a. or_fail-Fails _ _ _ _)

  logout_codes : (f : Option Text) → Fails invalid_argument internal (server_logout h s lib f)
  unfolding server_logout
  logout_codes f = bind-Fails (given _ _ _ (field_or-FailsWith _ _ f _)) (λ token.
      bind-Fails (or_fail-Fails_first _ _ _ _)
        (λ claims. bind-Fails (or_fail-Fails _ _ _ _) (λ done. given _ _ (ok true) tt)))

  register_codes :
      (r : Option RegisterRequest) → Fails invalid_argument internal (server_register h s lib r)
  unfolding server_register
  register_codes r =
      bind-Fails (given _ _ _ (request_or-FailsWith _ _ r _ _)) (λ a. or_fail-Fails _ _ _ _)

  -- An error of `Login` or `RefreshToken` has the code InvalidArgument or Unauthenticated, one of
  -- the other methods InvalidArgument or Internal, whatever error the use case gave.
  pub server_codes :
      (w : World) (l : Option LoginRequest) (field : Option Text) (ctx : Context)
      (k : Option RevokeTokenRequest) (r : Option RegisterRequest)
      → FailsWith invalid_argument unauthenticated (server_login h s lib l w).0
        × FailsWith invalid_argument unauthenticated (server_refresh h s lib field w).0
        × FailsWith invalid_argument internal (server_validate h s lib ctx field w).0
        × FailsWith invalid_argument internal (server_revoke h s lib k w).0
        × FailsWith invalid_argument internal (server_logout h s lib field w).0
        × FailsWith invalid_argument internal (server_register h s lib r w).0
  server_codes w l field ctx k r = (
    (login_codes l).ends w,
    (refresh_codes field).ends w,
    (validate_codes ctx field).ends w,
    (revoke_codes k).ends w,
    (logout_codes field).ends w,
    (register_codes r).ends w,
  )
