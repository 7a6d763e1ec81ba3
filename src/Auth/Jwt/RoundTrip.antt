-- ===== src/Auth/Jwt/RoundTrip.antt =====
-- A token that services/auth/internal/jwt/hs256.go generates, and what it parses from it.
use analytics_system.Prelude.{
  ℕ, ◌<◌, ◌≡◌, refl, sym, ap, subst, ◌∙◌, List, [], ◌∷◌, some, Result, ok, err, arith, Option-cases,
  inl, inr,
}
use analytics_system.Prelude.Text.{Text}
use analytics_system.Auth.Host.{Host, Payload}
use analytics_system.Auth.Store.{World, tick}
use analytics_system.Auth.Jwt.{
  Claims, TokenType, JwtError, Hs256, ttl_of, to_payload, of_payload, new_claims, generate, parse,
}

abbrev value_or : Text × Claims → Result JwtError (Text × Claims) → Text × Claims
value_or a (ok x) = x
value_or a (err e) = a

module _ (h : Host) (s : Hs256) where
  -- What the service relies on: the library parses a token that it signed under the same secret, for
  -- this issuer and this audience, before the expiry, to the payload that was signed.
  abbrev pub ParsesSigned : Type 0
  ParsesSigned =
      (p : Payload) (token : Text) (now : ℕ)
      → h.signed_string s.secret p ≡ some token
      → p.iss ≡ s.issuer
      → p.aud ≡ s.audience ∷ []
      → now < p.exp
      → h.parse_with_claims s.secret s.issuer s.audience now token ≡ some p

  -- What a token that was generated is made of.
  signed_by :
      (user_id : Text) (roles : List Text) (typ : TokenType) (w w' : World) (token : Text)
      (c : Claims)
      → generate h s user_id roles typ w ≡ (ok (token, c), w')
      → (ttl : ℕ) × (ttl_of s typ ≡ some ttl)
        × (c ≡ new_claims h s user_id roles ttl w)
        × (h.signed_string s.secret (to_payload c) ≡ some token)
  unfolding generate
  signed_by user_id roles typ w w' token c e = elim (Option-cases (ttl_of s typ)) [
    | inl unsupported ↦ absurd (ground arith)
    | inr (ttl, known) ↦
        let claims = new_claims h s user_id roles ttl w in
        elim (Option-cases (h.signed_string s.secret (to_payload claims))) [
          | inl unsigned ↦ absurd (ground arith)
          | inr (t, signed) ↦
              let made : generate h s user_id roles typ w ≡ (ok (t, claims), tick w) =
                rw (known, generate) (rw signed refl) in
              let both = ap (λ x. value_or (token, c) x.0) (sym made ∙ e) in
              (
                ttl,
                known,
                sym (ap (λ x. x.1) both),
                subst (λ (x : Claims). h.signed_string s.secret (to_payload x) ≡ some token)
                    (ap (λ x. x.1) both) (signed ∙ ap (λ x. some x.0) both),
              )
        ]
  ]

  -- A generated token parses, before its expiry, to the claims that were signed, but for the
  -- subject: it was the user's identifier, and it comes back
  -- empty; if the library parses what it signed.
  pub parse-generate :
      (user_id : Text) (roles : List Text) (typ : TokenType) (w w' v : World) (token : Text)
      (c : Claims)
      → ParsesSigned
      → generate h s user_id roles typ w ≡ (ok (token, c), w')
      → h.now v.ticks < c.expires_at
      → (c.subject ≡ user_id)
        × (c.user_id ≡ user_id)
        × (c.roles ≡ roles)
        × (parse h s token v ≡ (ok (record c { subject = [] }), tick v))
  unfolding parse to_payload of_payload new_claims
  parse-generate user_id roles typ w w' v token c parses e before =
      let (ttl, known, same, signed) = signed_by user_id roles typ w w' token c e in
      let read =
        parses (to_payload c) token (h.now v.ticks) signed (ap (λ (x : Claims). x.issuer) same)
          (ap (λ (x : Claims). x.audience) same) before in
      (
        ap (λ (x : Claims). x.subject) same,
        ap (λ (x : Claims). x.user_id) same,
        ap (λ (x : Claims). x.roles) same,
        rw (read, parse) refl,
      )
