-- ===== src/Tests/Signing.antt =====
-- A token of services/auth that is generated and parsed at a concrete input.
use analytics_system.Prelude.{
  arith, ◌<◌, Bool, if◌then◌else◌, ap₂, ◌&&◌, ◌==◌, ==_iff, ◌≡◌, refl, sym, ap, true, false, List,
  [], ◌∷◌, none, some, ok,
}
use analytics_system.Prelude.Text.{text_eq_iff, Text, codes, text_eq}
use analytics_system.Interval.{minute, truncate}
use analytics_system.Auth.Host.{Host, Payload}
use analytics_system.Auth.Store.{tick}
use analytics_system.Auth.Jwt.{Claims, access, to_payload, new_claims, generate, parse}
use analytics_system.Auth.Jwt.RoundTrip.{ParsesSigned, parse-generate}
use analytics_system.Tests.Tokens.{host, signer, world}

-- A signature that is empty, on the one payload that the service signs first.
abbrev signed_claims : Claims
signed_claims = new_claims host signer (codes "u1") (codes "user" ∷ []) minute world

abbrev all_equal : List Text → List Text → Bool
all_equal [] [] = true
all_equal [] (b ∷ bs) = false
all_equal (a ∷ xs) [] = false
all_equal (a ∷ xs) (b ∷ bs) = text_eq a b && all_equal xs bs

abbrev is_signed : Payload → Bool
is_signed p =
    text_eq p.sub (codes "u1")
    && all_equal p.roles (codes "user" ∷ [])
    && text_eq p.jti signed_claims.jti
    && p.iat == signed_claims.issued_at
    && p.exp == signed_claims.expires_at

abbrev speller : Host
speller = record host {
  signed_string = λ secret p. if is_signed p then some [] else none;
  parse_with_claims = λ secret iss aud now token. some (record {
    iss = iss;
    aud = aud ∷ [];
    sub = codes "u1";
    roles = codes "user" ∷ [];
    jti = signed_claims.jti;
    iat = signed_claims.issued_at;
    exp = signed_claims.expires_at;
  });
}

all_equal→≡ : (xs ys : List Text) → all_equal xs ys ≡ true → xs ≡ ys
all_equal→≡ [] [] e = refl
all_equal→≡ [] (y ∷ ys) e = absurd (ground arith)
all_equal→≡ (x ∷ xs) [] e = absurd (ground arith)
all_equal→≡ (x ∷ xs) (y ∷ ys) e =
    ap₂ (◌∷◌) ((text_eq_iff x y).0 (ground arith)) (all_equal→≡ xs ys (ground arith))

five :
    (a b c d e : Bool)
    → (a && b && c && d && e) ≡ true
    → (a ≡ true) × (b ≡ true) × (c ≡ true) × (d ≡ true) × (e ≡ true)
five a b c d e h = ground arith

only_signed :
    (p : Payload) (token : Text)
    → (if is_signed p then some [] else none) ≡ some token
    → is_signed p ≡ true
only_signed p token e =
    elim (is_signed p) as (λ b. (if b then some [] else none) ≡ some token → b ≡ true) [
      | true ↦ λ h. refl
      | false ↦ λ h. absurd (ground arith)
    ]
      e

payload_eq :
    (p q : Payload)
    → p.iss ≡ q.iss
    → p.aud ≡ q.aud
    → p.sub ≡ q.sub
    → p.roles ≡ q.roles
    → p.jti ≡ q.jti
    → p.iat ≡ q.iat
    → p.exp ≡ q.exp
    → p ≡ q
payload_eq p q a b c d e f g = cc

parses : ParsesSigned speller signer
parses p token now signed iss aud before =
    let (sub, roles, jti, iat, exp) =
      five (text_eq p.sub (codes "u1")) (all_equal p.roles (codes "user" ∷ []))
        (text_eq p.jti signed_claims.jti) (p.iat == signed_claims.issued_at)
        (p.exp == signed_claims.expires_at) (only_signed p token signed) in
    ap (λ x. some x)
      (sym (
        payload_eq p _ iss aud ((text_eq_iff _ _).0 sub) (all_equal→≡ _ _ roles)
          ((text_eq_iff _ _).0 jti) ((==_iff _ _).0 iat) ((==_iff _ _).0 exp)))

generated :
    generate speller signer (codes "u1") (codes "user" ∷ []) access world
    ≡ (ok ([], signed_claims), tick world)
unfolding generate to_payload new_claims truncate text_eq
generated = refl

before : speller.now world.ticks < signed_claims.expires_at
unfolding new_claims truncate
before = omega arith

parse-generate_example :
    (signed_claims.subject ≡ codes "u1")
    × (signed_claims.user_id ≡ codes "u1")
    × (signed_claims.roles ≡ codes "user" ∷ [])
    × (parse speller signer [] world ≡ (ok (record signed_claims { subject = [] }), tick world))
parse-generate_example =
    parse-generate speller signer (codes "u1") (codes "user" ∷ []) access world (tick world) world
      [] signed_claims parses generated before
