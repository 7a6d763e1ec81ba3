-- ===== src/Auth/Store.antt =====
-- services/auth/internal/storage/postgres: the tables `users` and `refresh_tokens` of
-- migrations/postgres/0001_create_auth_tables.up.sql, and the statements that the repositories send.
pub mod Laws
use analytics_system.Prelude.{
  ℕ, ◌+◌, Bool, true, false, List, [], ◌∷◌, ◌++◌, Option, none, some, Result, ok, err, any, map,
  if◌then◌else◌, suc, ◌||◌, not,
}
use analytics_system.Prelude.Text.{Text, text_eq}
use analytics_system.Auth.Host.{Host}

pub record User : Type 0 where
  pub id : Text
  pub username : Text
  pub password_hash : Text
  pub roles : List Text
  pub created_at : ℕ

pub record RefreshToken : Type 0 where
  pub id : Text
  pub user_id : Text
  pub jti : Text
  pub token : Text
  pub issued_at : ℕ
  pub expires_at : ℕ
  pub revoked_at : Option ℕ

-- The tables, in the order of insertion, and the counter of the uses of the outside.
pub record World : Type 0 where
  pub users : List User
  pub tokens : List RefreshToken
  pub ticks : ℕ

pub data DbError : Type 0 where
  no_rows : DbError
  failed : DbError
  constraint : DbError

-- Which errors may be those of a context: all, as nothing here depends on telling them apart.
abbrev pub AnyError : DbError → Type 0
AnyError e = Unit {0}

abbrev pub tick : World → World
tick w = record w { ticks = suc w.ticks }

abbrev pub find_row : {A : Type 0} → (A → Bool) → List A → Option A
find_row p [] = none
find_row p (x ∷ xs) = if p x then some x else find_row p xs

abbrev pub revoke_row : Text → ℕ → RefreshToken → RefreshToken
revoke_row jti now t = if text_eq t.jti jti then record t { revoked_at = some now } else t

module _ (h : Host) where
  -- `userRepo.FindByUsername`
  unfoldable pub find_by_username : Text → World → Result DbError User × World
  unfolding text_eq
  find_by_username username w = (
    if h.db_fails w.ticks
        then err failed
        else elim (find_row (λ u. text_eq u.username username) w.users) [
          | none ↦ err no_rows
          | some u ↦ ok u
        ],
    tick w,
  )

  -- `userRepo.Create`: `id` is the primary key and `username` is unique.
  unfoldable pub create_user : User → World → Option DbError × World
  unfolding text_eq
  create_user u w =
      if h.db_fails w.ticks
      then (some failed, tick w)
      else (if any (λ v. text_eq v.id u.id || text_eq v.username u.username) w.users
          then (some constraint, tick w)
          else (
            none,
            record (tick w) { users = w.users ++ record u { created_at = h.now w.ticks } ∷ [] },
          ))

  -- `userRepo.ExistsByUsername`
  unfoldable pub exists_by_username : Text → World → Result DbError Bool × World
  unfolding text_eq
  exists_by_username username w = (
    if h.db_fails w.ticks
        then err failed
        else (if any (λ u. text_eq u.username username) w.users
            then ok true
            else (if h.no_rows_matches then ok false else err no_rows)),
    tick w,
  )

  -- `tokenRepo.Store`: `id` is the primary key, `user_id` refers to a user, `revoked_at` is null.
  unfoldable pub store : RefreshToken → World → Option DbError × World
  unfolding text_eq
  store t w =
      if h.db_fails w.ticks
      then (some failed, tick w)
      else (if any (λ s. text_eq s.id t.id) w.tokens
            || not (any (λ u. text_eq u.id t.user_id) w.users)
          then (some constraint, tick w)
          else (none, record (tick w) { tokens = w.tokens ++ record t { revoked_at = none } ∷ [] }))

  -- `tokenRepo.FindByJTI`
  unfoldable pub find_by_jti : Text → World → Result DbError RefreshToken × World
  unfolding text_eq
  find_by_jti jti w = (
    if h.db_fails w.ticks then err failed else elim (find_row (λ t. text_eq t.jti jti) w.tokens) [
      | none ↦ err no_rows
      | some t ↦ ok t
    ],
    tick w,
  )

  -- `tokenRepo.RevokeByJTI`: it sets `revoked_at` wherever the jti fits, and is content if nowhere.
  unfoldable pub revoke_by_jti : Text → World → Option DbError × World
  unfolding text_eq
  revoke_by_jti jti w =
      if h.db_fails w.ticks
      then (some failed, tick w)
      else (none, record (tick w) { tokens = map (revoke_row jti (h.now w.ticks)) w.tokens })
