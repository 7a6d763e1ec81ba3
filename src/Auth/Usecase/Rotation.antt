-- ===== src/Auth/Usecase/Rotation.antt =====
-- Refresh tokens as services/auth/internal/usecase/refresh.go exchanges them: each is good once.
use analytics_system.Prelude.{
  ℕ, suc, ◌≡◌, refl, ap, ap₂, subst, Bool, true, false, some, Result, ok, err, List, is_some, is_ok,
  inl, inr, arith, Option-cases,
}
use analytics_system.Prelude.Text.{Text, text_eq}
use analytics_system.Backoff.{RetryNotify, Counters}
use analytics_system.Auth.Host.{Host, Payload}
use analytics_system.Auth.Store.{
  AnyError, World, RefreshToken, DbError, tick, find_row, find_by_jti, revoke_by_jti,
}
use analytics_system.Auth.Store.Laws.{IsSpent, revoke_spends, spent_row}
use analytics_system.Auth.Jwt.{Hs256, Claims, parse, of_payload}
use analytics_system.Auth.Usecase.{M, Error, ◌>>=◌, after, or_fail, require, TokenPair}
use analytics_system.Auth.Usecase.Refresh.{revoke_old, next_tokens, refresh_tokens}
use analytics_system.Auth.Usecase.Steady.{
  Call, perform_all, next_tokens-IsSteady, perform_all-Grows,
}

after-ok :
    {A B : Type 0} (r : Result Error A × World) (f : A → M B) {b : B} {w'' : World}
    → after r f ≡ (ok b, w'')
    → (a : A) × (w' : World) × (r ≡ (ok a, w')) × (f a w' ≡ (ok b, w''))
after-ok (ok a, w') f e = (a, w', refl, e)
after-ok (err x, w') f e = absurd (ground arith)

-- A call that succeeds is a call that returned a value and then a call on that value.
pub bind-ok :
    {A B : Type 0} (m : M A) (f : A → M B) (w : World) {b : B} {w'' : World}
    → (m >>= f) w ≡ (ok b, w'')
    → (a : A) × (w' : World) × (m w ≡ (ok a, w')) × (f a w' ≡ (ok b, w''))
unfolding ◌>>=◌
bind-ok m f w e = after-ok (m w) f e

pub or_fail-ok :
    {A E : Type 0} (r : Result E A × World) (m : World → Result E A × World) (e : Error) (w : World)
    {a : A} {w' : World}
    → m w ≡ r
    → or_fail m e w ≡ (ok a, w')
    → r ≡ (ok a, w')
unfolding or_fail
or_fail-ok (ok x, v) m e w f g = ground arith
or_fail-ok (err x, v) m e w f g = absurd (ground arith)

pub require-ok :
    (cond : Bool) (e : Error) (w w' : World) (u : Unit {0})
    → require cond e w ≡ (ok u, w')
    → (cond ≡ true) × (w' ≡ w)
unfolding require
require-ok true e w w' u f = (refl, ground arith)
require-ok false e w w' u f = absurd (ground arith)

module _ (h : Host) (s : Hs256) where
  found_row :
      (jti : Text) (w w' : World) (t : RefreshToken)
      → find_by_jti h jti w ≡ (ok t, w')
      → (find_row (λ t. text_eq t.jti jti) w.tokens ≡ some t) × (w' ≡ tick w)
  unfolding find_by_jti
  found_row jti w w' t e = elim (Option-cases (find_row (λ t. text_eq t.jti jti) w.tokens)) [
    | inl missing ↦ absurd (ground arith)
    | inr (u, found) ↦ ground arith
  ]

  pub parsed :
      (token : Text) (w w' : World) (c : Claims)
      → parse h s token w ≡ (ok c, w')
      → (p : Payload) × (h.parse_with_claims s.secret s.issuer s.audience (h.now w.ticks) token
          ≡ some p)
        × (c ≡ of_payload p)
        × (w' ≡ tick w)
  unfolding parse
  parsed token w w' c e =
      elim (Option-cases (h.parse_with_claims s.secret s.issuer s.audience (h.now w.ticks) token)) [
        | inl bad ↦ absurd (ground arith)
        | inr (p, good) ↦ (p, good, ground arith, ground arith)
      ]

module _ (h : Host) (s : Hs256) (lib : RetryNotify DbError AnyError (Counters World)) where
  -- What the service relies on: the jti that is read from a token does not depend on the time.
  abbrev pub ReadsOneJti : Text → Type 0
  ReadsOneJti token =
      (now now' : ℕ) (p p' : Payload)
      → h.parse_with_claims s.secret s.issuer s.audience now token ≡ some p
      → h.parse_with_claims s.secret s.issuer s.audience now' token ≡ some p'
      → p.jti ≡ p'.jti

  revoked_now :
      (jti : Text) (w : World) {t : RefreshToken}
      → h.db_fails w.ticks ≡ false
      → find_row (λ t. text_eq t.jti jti) w.tokens ≡ some t
      → IsSpent jti (revoke_old h s lib jti w).1
  unfolding revoke_old revoke_by_jti
  revoked_now jti w works found = rw works (revoke_spends jti (h.now w.ticks) w.tokens found)

  last_step :
      {c c' : Claims} {w w1 w2 w3 w4 : World} {r : Result Error TokenPair × World}
      → c ≡ c'
      → w1 ≡ tick w
      → w2 ≡ tick w1
      → w3 ≡ w2
      → (revoke_old h s lib c.jti w3).1 ≡ w4
      → next_tokens h s lib c w4 ≡ r
      → next_tokens h s lib c' (revoke_old h s lib c'.jti (tick (tick w))).1 ≡ r
  last_step e f g k l m = cc

  -- What a successful exchange went through.
  refresh_tokens-ok :
      (token : Text) (w w' : World) (pair : TokenPair)
      → refresh_tokens h s lib token w ≡ (ok pair, w')
      → (p : Payload) × (t : RefreshToken) × (h.parse_with_claims s.secret s.issuer s.audience
            (h.now w.ticks)
            token
          ≡ some p)
        × (find_row (λ t. text_eq t.jti p.jti) w.tokens ≡ some t)
        × (is_some t.revoked_at ≡ false)
        × (next_tokens h s lib (of_payload p) (revoke_old h s lib p.jti (tick (tick w))).1
            ≡ (ok pair, w'))
  unfolding refresh_tokens
  refresh_tokens-ok token w w' pair e =
      let (c, w1, e1, f1) = bind-ok _ _ w e in
      let (t, w2, e2, f2) = bind-ok _ _ w1 f1 in
      let (u, w3, e3, f3) = bind-ok _ _ w2 f2 in
      let (v, w4, e4, f4) = bind-ok _ _ w3 f3 in
      let (p, read, same, at1) =
        parsed h s token w w1 c (or_fail-ok _ (parse h s token) _ w refl e1) in
      let (found, at2) =
        found_row h s c.jti w1 w2 t (or_fail-ok _ (find_by_jti h c.jti) _ w1 refl e2) in
      let (live, at3) = require-ok _ _ w2 w3 u e3 in
      (
        p,
        t,
        read,
        subst (λ (x : Claims × World). find_row (λ t. text_eq t.jti x.0.jti) x.1.tokens ≡ some t)
            (ap₂ (λ a b. (a, b)) same at1) found,
        ground arith,
        last_step same at1 at2 at3 (ap (λ x. x.1) e4) f4,
      )

  refresh_spends :
      (token : Text) (w w' : World) (pair : TokenPair)
      → refresh_tokens h s lib token w ≡ (ok pair, w')
      → h.db_fails (suc (suc w.ticks)) ≡ false
      → (p : Payload) × (h.parse_with_claims s.secret s.issuer s.audience (h.now w.ticks) token
          ≡ some p)
        × IsSpent p.jti w'
  refresh_spends token w w' pair e works =
      let (p, t, read, found, live, rest) = refresh_tokens-ok token w w' pair e in
      let mid = (revoke_old h s lib p.jti (tick (tick w))).1 in
      (
        p,
        read,
        subst (λ (v : World). IsSpent p.jti v)
            (ap (λ (x : Result Error TokenPair × World). x.1) rest)
            (((next_tokens-IsSteady h s lib (of_payload p)).grows mid).spends p.jti
              (revoked_now p.jti (tick (tick w)) works found)),
      )

  refuses_spent :
      (token : Text) (v : World)
      → ((p : Payload)
          → h.parse_with_claims s.secret s.issuer s.audience (h.now v.ticks) token ≡ some p
          → IsSpent p.jti v)
      → (r : Result Error TokenPair × World) → refresh_tokens h s lib token v ≡ r
      → is_ok r.0 ≡ false
  refuses_spent token v gone (err e, w) f = refl
  refuses_spent token v gone (ok pair, w) f =
      let (p, t, read, found, live, rest) = refresh_tokens-ok token v w pair f in
      let (t', found', revoked) = spent_row p.jti v.tokens (gone p read) in absurd (ground arith)

  -- A refresh token that was exchanged is not exchanged again, after any sequence of calls, if its
  -- revocation, which is the third use of the
  -- outside of that exchange, did not fail, and if the jti that is read from the token does not
  -- depend on the time.
  pub refresh_once :
      (token : Text) (w w' : World) (pair : TokenPair) (cs : List Call)
      → ReadsOneJti token
      → refresh_tokens h s lib token w ≡ (ok pair, w')
      → h.db_fails (suc (suc w.ticks)) ≡ false
      → is_ok (refresh_tokens h s lib token (perform_all h s lib cs w')).0 ≡ false
  refresh_once token w w' pair cs one e works =
      let (p, read, gone) = refresh_spends token w w' pair e works in
      let v = perform_all h s lib cs w' in
      refuses_spent token v
        (λ p' read'.
          subst (λ (j : Text). IsSpent j v) (one (h.now w.ticks) (h.now v.ticks) p p' read read')
            ((perform_all-Grows h s lib cs w').spends p.jti gone))
        _ refl
