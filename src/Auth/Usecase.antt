-- ===== src/Auth/Usecase.antt =====
-- What the handlers of services/auth/internal/usecase share: a call returns a value or an error and
-- leaves the tables, also when it fails.
pub mod Login
pub mod Register
pub mod Refresh
pub mod Token
pub mod Steady
pub mod Rotation
pub mod Entry
use Prim.Native.String.{String}
use analytics_system.Prelude.{
  ℕ, ◌-◌, ◌/◌, ◌≡◌, refl, ap, Bool, true, false, Option, none, some, Result, ok, err, leb, ◌==◌,
  if◌then◌else◌, Result-cases, inl, inr, ◌⊎◌, is_some,
}
use analytics_system.Prelude.Text.{Text}
use analytics_system.Interval.{second}
use analytics_system.Backoff.{Fault, temporary, RetryNotify, Counters, execute}
use analytics_system.Backoff.Counts.{execute_keeps}
use analytics_system.Auth.Host.{Host}
use analytics_system.Auth.Store.{AnyError, World, DbError, RefreshToken, tick}

-- The codes of google.golang.org/grpc/codes that the source names.
pub data Code : Type 0 where
  invalid_argument not_found already_exists permission_denied unauthenticated internal unavailable :
      Code

-- `status.Error` with its code, or a plain error; the text is the constant part of the message.
pub data Error : Type 0 where
  status : Code → String → Error
  plain : String → Error

abbrev pub M : Type 0 → Type 0
M A = World → Result Error A × World

-- What a bind does with the result of its first call.
abbrev pub after : {A B : Type 0} → Result Error A × World → (A → M B) → Result Error B × World
after (ok a, w') f = f a w'
after (err e, w') f = (err e, w')

infixl 5 ◌>>=◌ ◌>>◌
unfoldable pub ◌>>=◌ : {A B : Type 0} → M A → (A → M B) → M B
◌>>=◌ m f w = after (m w) f

abbrev pub ◌>>◌ : {B : Type 0} → M (Unit {0}) → M B → M B
m >> k = m >>= λ _. k

abbrev pub pure : {A : Type 0} → A → M A
pure a w = (ok a, w)

abbrev pub fail : {A : Type 0} → Error → M A
fail e w = (err e, w)

-- `if !cond { return err }`
unfoldable pub require : Bool → Error → M (Unit {0})
require cond e w = (if cond then ok tt else err e, w)

-- A call whose error is replaced by `e`, and one that returns only an error.
unfoldable pub or_fail : {A E : Type 0} → (World → Result E A × World) → Error → M A
or_fail m e w = let (r, w') = m w in (elim r [ ok a ↦ ok a | err x ↦ err e ], w')

unfoldable pub checked : {E : Type 0} → (World → Option E × World) → Error → M (Unit {0})
checked m e w = let (r, w') = m w in (elim r [ none ↦ ok tt | some x ↦ err e ], w')

-- `backoff.Execute` over a statement, with no callback.
unfoldable pub retry :
    RetryNotify DbError AnyError (Counters World)
    → (World → Option DbError × World)
    → World
    → Option DbError × World
unfolding execute
retry lib op w =
    let (r, s) =
      execute lib 0
        (λ ctx v. let (e, v') = op v in (elim e [ none ↦ none | some x ↦ some (temporary x) ], v'))
        (λ e delay tries v. v)
        (record { world = w; tries = 0; retries = 0; failures = 0; successes = 0 }) in
    (elim r [ none ↦ none | some x ↦ some x.error ], s.world)

-- A whole number of seconds, as the conversion to `int64` cuts it.
pub data Seconds : Type 0 where
  ahead past : ℕ → Seconds

-- `int64(time.Until(t).Seconds())`
abbrev pub seconds_until : ℕ → ℕ → Seconds
seconds_until t now =
    if leb now t then Seconds.ahead ((t - now) / second) else Seconds.past ((now - t) / second)

-- `LoginResponse`, `RefreshTokenResponse` and `RegisterResponse` have the same fields.
pub record TokenPair : Type 0 where
  pub access_token : Text
  pub refresh_token : Text
  pub expires_in : Seconds
