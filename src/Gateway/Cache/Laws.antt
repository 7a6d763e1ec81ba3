-- ===== src/Gateway/Cache/Laws.antt =====
-- What the token cache of the gateway gives back, and when.
use analytics_system.Prelude.{
  ℕ, ◌≡◌, ◌≤◌, refl, subst, ◌∙◌, ◌⊎◌, All-mono, true, List, [], ◌∷◌, none, some, ltb, if◌then◌else◌,
  arith, All, Bool-cases, inl, inr,
}
use analytics_system.Prelude.Text.{Text, text_eq, text_eq_iff, text_eq_refl}
use analytics_system.Prelude.Map.{lookup, erase, IsDistinct, lookup-insert, lookup-erase}
use analytics_system.Gateway.Http.{ValidateResponse}
use analytics_system.Gateway.Cache.{
  CachedToken, JwtCache, is_expired, unless_expired, get, expiry_of, put, delete_expired, cleanup,
}

-- After `Put`, `Get` gives the stored claims for the token up to their expiry and nothing after it,
-- and for every other token what it gave before.
pub get-put :
    (token other : Text) (claims : ValidateResponse) (now later : ℕ) (c : JwtCache)
    → get other later (put token claims now c) ≡ (
        if text_eq token other
        then (if ltb (expiry_of claims now) later then none else some claims)
        else get other later c)
unfolding get put
get-put token other claims now later c = ground (
  arith,
  lookup-insert token other (record { claims = claims; expires_at = expiry_of claims now }) c,
)

-- The map holds this entry under its key, or nothing.
abbrev Held : JwtCache → Text × CachedToken → Type 0
Held c e = (lookup e.0 c ≡ some e.1) ⊎ (lookup e.0 c ≡ none)

Held-erase : (k : Text) (c : JwtCache) (e : Text × CachedToken) → Held c e → Held (erase k c) e
Held-erase k c e (inl h) = ground (arith, lookup-erase k e.0 c)
Held-erase k c e (inr h) = ground (arith, lookup-erase k e.0 c)

get-erase :
    (token k : Text) (v : CachedToken) (now later : ℕ) (c : JwtCache)
    → now ≤ later
    → is_expired now v ≡ true
    → Held c (k, v)
    → get token later (erase k c) ≡ get token later c
unfolding get
get-erase token k v now later c after gone held = elim (Bool-cases (text_eq k token)) [
  | inl same ↦
      subst
        (λ (t : Text).
          unless_expired later (lookup t (erase k c)) ≡ unless_expired later (lookup t c))
        ((text_eq_iff k token).0 same) (ground (arith, lookup-erase k k c, text_eq_refl k, held))
  | inr other ↦ ground (arith, lookup-erase k token c)
]

delete_expired-get :
    (token : Text) (now later : ℕ) (entries : List (Text × CachedToken)) (c : JwtCache)
    → now ≤ later
    → All (Held c) entries
    → get token later (delete_expired now entries c) ≡ get token later c
unfolding delete_expired
delete_expired-get token now later [] c after held = refl
delete_expired-get token now later ((k, v) ∷ entries) c after held =
    elim (Bool-cases (is_expired now v)) [
      | inl gone ↦ rw gone (
          delete_expired-get token now later entries (erase k c) after
            (All-mono (Held-erase k c) entries held.1)
          ∙ get-erase token k v now later c after gone held.0)
      | inr kept ↦ rw kept (delete_expired-get token now later entries c after held.1)
    ]

held_below :
    (k : Text) (v : CachedToken) (m : JwtCache) (e : Text × CachedToken)
    → lookup k m ≡ none
    → lookup e.0 m ≡ some e.1
    → lookup e.0 ((k, v) ∷ m) ≡ some e.1
unfolding lookup
held_below k v m e fresh h = elim (Bool-cases (text_eq k e.0)) [
  | inl same ↦
      absurd
        (ground (arith, subst (λ (t : Text). lookup t m ≡ none) ((text_eq_iff k e.0).0 same) fresh))
  | inr other ↦ rw other h
]

held-All : (c : JwtCache) → IsDistinct c → All (λ e. lookup e.0 c ≡ some e.1) c
held-All [] d = tt
held-All ((k, v) ∷ m) d = (
  unfold lookup in rw (text_eq_refl k) refl,
  All-mono (λ e h. held_below k v m e d.0 h) m (held-All m d.1),
)

-- A tick of the clean-up at a time changes nothing that `Get` gives from then on, if no token is
-- stored twice.
pub get-cleanup :
    (token : Text) (now later : ℕ) (c : JwtCache)
    → IsDistinct c
    → now ≤ later
    → get token later (cleanup now c) ≡ get token later c
unfolding cleanup
get-cleanup token now later c d after =
    delete_expired-get token now later c c after (All-mono (λ e h. inl h) c (held-All c d))
