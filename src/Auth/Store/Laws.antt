-- ===== src/Auth/Store/Laws.antt =====
-- What the statements of services/auth/internal/storage/postgres keep of the tables.
use analytics_system.Prelude.{
  ℕ, ◌≡◌, refl, Bool, true, false, List, [], ◌∷◌, ◌++◌, none, any, map, All, All-append, All-mono,
  is_some, ◌||◌, if◌then◌else◌, some, ◌&&◌, arith, Bool-cases, inl, inr,
}
use analytics_system.Prelude.Text.{Text, text_eq}
use analytics_system.Auth.Host.{Host}
use analytics_system.Auth.Store.{
  World, User, RefreshToken, tick, find_row, find_by_username, exists_by_username, find_by_jti,
  create_user, store, revoke_row, revoke_by_jti,
}

module _ {A : Type 0} where
  -- No entry is the same as a later one.
  abbrev pub Distinct : (A → A → Bool) → List A → Type 0
  Distinct same [] = Unit {0}
  Distinct same (x ∷ xs) = (any (same x) xs ≡ false) × Distinct same xs

  any-append : (p : A → Bool) (xs ys : List A) → any p (xs ++ ys) ≡ (any p xs || any p ys)
  any-append p [] ys = refl
  any-append p (x ∷ xs) ys = ground (arith, any-append p xs ys)

  any_mono :
      {p q : A → Bool}
      → ((x : A) → p x ≡ true → q x ≡ true)
      → (xs : List A) → any p xs ≡ true
      → any q xs ≡ true
  any_mono f [] h = h
  any_mono f (x ∷ xs) h = ground (arith, f x, any_mono f xs)

  any-map_mono :
      (p q : A → Bool) (g : A → A)
      → ((x : A) → p x ≡ true → q (g x) ≡ true)
      → (xs : List A) → any p xs ≡ true
      → any q (map g xs) ≡ true
  any-map_mono p q g f [] h = h
  any-map_mono p q g f (x ∷ xs) h = ground (arith, f x, any-map_mono p q g f xs)

  any-map_same :
      (p : A → Bool) (g : A → A)
      → ((x : A) → p (g x) ≡ p x)
      → (xs : List A) → any p (map g xs) ≡ any p xs
  any-map_same p g f [] = refl
  any-map_same p g f (x ∷ xs) = ground (arith, f x, any-map_same p g f xs)

  Distinct-snoc :
      (same : A → A → Bool) (xs : List A) (y : A)
      → Distinct same xs
      → any (λ x. same x y) xs ≡ false
      → Distinct same (xs ++ y ∷ [])
  Distinct-snoc same [] y d h = (refl, tt)
  Distinct-snoc same (x ∷ xs) y d h =
      ground (arith, any-append (same x) xs (y ∷ []), Distinct-snoc same xs y d.1)

abbrev pub same_user : User → User → Bool
same_user v u = text_eq v.id u.id || text_eq v.username u.username

abbrev pub same_token : RefreshToken → RefreshToken → Bool
same_token s t = text_eq s.id t.id

abbrev pub is_owned : List User → RefreshToken → Bool
is_owned users t = any (λ u. text_eq u.id t.user_id) users

-- The constraints of the tables: identifiers and user names are unique, each token has a user.
pub record IsConsistent (w : World) : Type 0 where
  pub users_distinct : Distinct same_user w.users
  pub tokens_distinct : Distinct same_token w.tokens
  pub owned : All (λ t. is_owned w.users t ≡ true) w.tokens

abbrev pub is_revoked : Text → RefreshToken → Bool
is_revoked id t = text_eq t.id id && is_some t.revoked_at

-- The row with this identifier is revoked.
abbrev pub IsRevoked : Text → World → Type 0
IsRevoked id w = any (is_revoked id) w.tokens ≡ true

-- The row that a lookup of the jti finds is there, and is revoked.
abbrev pub spent : Text → List RefreshToken → Bool
spent jti [] = false
spent jti (t ∷ ts) = if text_eq t.jti jti then is_some t.revoked_at else spent jti ts

abbrev pub IsSpent : Text → World → Type 0
IsSpent jti w = spent jti w.tokens ≡ true

spent-append :
    (jti : Text) (ts us : List RefreshToken) → spent jti ts ≡ true → spent jti (ts ++ us) ≡ true
spent-append jti [] us h = absurd (ground arith)
spent-append jti (t ∷ ts) us h = ground (arith, spent-append jti ts us)

spent-revoke :
    (jti k : Text) (now : ℕ) (ts : List RefreshToken)
    → spent jti ts ≡ true
    → spent jti (map (revoke_row k now) ts) ≡ true
spent-revoke jti k now [] h = h
spent-revoke jti k now (t ∷ ts) h = ground (arith, spent-revoke jti k now ts)

pub revoke_spends :
    (jti : Text) (now : ℕ) (ts : List RefreshToken) {t : RefreshToken}
    → find_row (λ t. text_eq t.jti jti) ts ≡ some t
    → spent jti (map (revoke_row jti now) ts) ≡ true
revoke_spends jti now [] e = absurd (ground arith)
revoke_spends jti now (t ∷ ts) e = elim (Bool-cases (text_eq t.jti jti)) [
  | inl same ↦ ground arith
  | inr other ↦ ground (arith, revoke_spends jti now ts (rw (other, find_row) at e))
]

pub spent_row :
    (jti : Text) (ts : List RefreshToken)
    → spent jti ts ≡ true
    → (t : RefreshToken) × (find_row (λ t. text_eq t.jti jti) ts ≡ some t)
      × (is_some t.revoked_at ≡ true)
spent_row jti [] e = absurd (ground arith)
spent_row jti (t ∷ ts) e = elim (Bool-cases (text_eq t.jti jti)) [
  | inl same ↦ (t, ground arith, ground arith)
  | inr other ↦ let (u, found, gone) = spent_row jti ts (ground arith) in (u, ground arith, gone)
]

-- What happens to the tables in any call.
pub record Grows (w w' : World) : Type 0 where
  pub consistent : IsConsistent w → IsConsistent w'
  pub revoked : (id : Text) → IsRevoked id w → IsRevoked id w'
  pub spends : (jti : Text) → IsSpent jti w → IsSpent jti w'

pub Grows-refl : (w : World) → Grows w w
Grows-refl w = record { consistent = λ c. c; revoked = λ id r. r; spends = λ jti r. r }

pub Grows-trans : {u v w : World} → Grows u v → Grows v w → Grows u w
Grows-trans a b = record {
  consistent = λ c. b.consistent (a.consistent c);
  revoked = λ id r. b.revoked id (a.revoked id r);
  spends = λ jti r. b.spends jti (a.spends jti r);
}

pub tick-Grows : (w : World) → Grows w (tick w)
tick-Grows w = record {
  consistent = λ c. record {
    users_distinct = c.users_distinct;
    tokens_distinct = c.tokens_distinct;
    owned = c.owned;
  };
  revoked = λ id r. r;
  spends = λ jti r. r;
}

with_user-Grows :
    (w : World) (u : User)
    → any (λ v. same_user v u) w.users ≡ false
    → Grows w (record (tick w) { users = w.users ++ u ∷ [] })
with_user-Grows w u fresh = record {
  consistent = λ c. record {
    users_distinct = Distinct-snoc same_user w.users u c.users_distinct fresh;
    tokens_distinct = c.tokens_distinct;
    owned =
        All-mono (λ t o. ground (arith, any-append (λ v. text_eq v.id t.user_id) w.users (u ∷ [])))
          w.tokens c.owned;
  };
  revoked = λ id r. r;
  spends = λ jti r. r;
}

with_token-Grows :
    (w : World) (t : RefreshToken)
    → any (λ s. same_token s t) w.tokens ≡ false
    → is_owned w.users t ≡ true
    → Grows w (record (tick w) { tokens = w.tokens ++ t ∷ [] })
with_token-Grows w t fresh owner = record {
  consistent = λ c. record {
    users_distinct = c.users_distinct;
    tokens_distinct = Distinct-snoc same_token w.tokens t c.tokens_distinct fresh;
    owned = All-append (λ s. is_owned w.users s ≡ true) w.tokens (t ∷ []) c.owned (owner, tt);
  };
  revoked = λ id r. ground (arith, any-append (is_revoked id) w.tokens (t ∷ []));
  spends = λ jti r. spent-append jti w.tokens (t ∷ []) r;
}

Distinct-revoke :
    (jti : Text) (now : ℕ) (ts : List RefreshToken)
    → Distinct same_token ts
    → Distinct same_token (map (revoke_row jti now) ts)
Distinct-revoke jti now [] d = tt
Distinct-revoke jti now (t ∷ ts) d = (
  ground (arith, any-map_same (same_token t) (revoke_row jti now) (λ x. ground arith) ts),
  Distinct-revoke jti now ts d.1,
)

owned-revoke :
    (users : List User) (jti : Text) (now : ℕ) (ts : List RefreshToken)
    → All (λ t. is_owned users t ≡ true) ts
    → All (λ t. is_owned users t ≡ true) (map (revoke_row jti now) ts)
owned-revoke users jti now [] h = tt
owned-revoke users jti now (t ∷ ts) h = (ground arith, owned-revoke users jti now ts h.1)

revoked-Grows :
    (w : World) (jti : Text) (now : ℕ)
    → Grows w (record (tick w) { tokens = map (revoke_row jti now) w.tokens })
revoked-Grows w jti now = record {
  consistent = λ c. record {
    users_distinct = c.users_distinct;
    tokens_distinct = Distinct-revoke jti now w.tokens c.tokens_distinct;
    owned = owned-revoke w.users jti now w.tokens c.owned;
  };
  revoked = λ id r.
      any-map_mono (is_revoked id) (is_revoked id) (revoke_row jti now) (λ t e. ground arith)
        w.tokens r;
  spends = λ k r. spent-revoke k jti now w.tokens r;
}

module _ (h : Host) (w : World) where
  pub find_by_username-Grows : (username : Text) → Grows w (find_by_username h username w).1
  unfolding find_by_username
  find_by_username-Grows username = tick-Grows w

  pub exists_by_username-Grows : (username : Text) → Grows w (exists_by_username h username w).1
  unfolding exists_by_username
  exists_by_username-Grows username = tick-Grows w

  pub find_by_jti-Grows : (jti : Text) → Grows w (find_by_jti h jti w).1
  unfolding find_by_jti
  find_by_jti-Grows jti = tick-Grows w

  pub create_user-Grows : (u : User) → Grows w (create_user h u w).1
  unfolding create_user
  create_user-Grows u = elim (Bool-cases (h.db_fails w.ticks)) [
    | inl fails ↦ rw fails (tick-Grows w)
    | inr works ↦ elim (Bool-cases (any (λ v. same_user v u) w.users)) [
      | inl clash ↦ rw works (rw clash (tick-Grows w))
      | inr fresh ↦
          rw works (rw fresh (with_user-Grows w (record u { created_at = h.now w.ticks }) fresh))
    ]
  ]

  pub store-Grows : (t : RefreshToken) → Grows w (store h t w).1
  unfolding store
  store-Grows t = elim (Bool-cases (h.db_fails w.ticks)) [
    | inl fails ↦ rw fails (tick-Grows w)
    | inr works ↦ elim (Bool-cases (any (λ s. same_token s t) w.tokens)) [
      | inl clash ↦ rw works (rw clash (tick-Grows w))
      | inr fresh ↦ elim (Bool-cases (is_owned w.users t)) [
        | inl owner ↦
            rw works (
              rw fresh (rw owner (with_token-Grows w (record t { revoked_at = none }) fresh owner)))
        | inr orphan ↦ rw works (rw fresh (rw orphan (tick-Grows w)))
      ]
    ]
  ]

  pub revoke_by_jti-Grows : (jti : Text) → Grows w (revoke_by_jti h jti w).1
  unfolding revoke_by_jti
  revoke_by_jti-Grows jti = elim (Bool-cases (h.db_fails w.ticks)) [
    | inl fails ↦ rw fails (tick-Grows w)
    | inr works ↦ rw works (revoked-Grows w jti (h.now w.ticks))
  ]
