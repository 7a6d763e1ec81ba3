-- ===== src/Gateway/Jwt/Safety.antt =====
-- Which requests services/api-gateway/internal/middleware/jwt.go lets through.
use analytics_system.Prelude.{
  ℕ, ◌≡◌, refl, subst, ◌⊎◌, inl, inr, Bool, true, false, Option, none, some, if◌then◌else◌, arith,
  Bool-cases, Option-cases,
}
use analytics_system.Prelude.Text.{Text, has_prefix, trim_prefix}
use analytics_system.Prelude.Map.{lookup, All-insert, All-lookup}
use analytics_system.Gateway.Http.{failure, Ctx, Request, ValidateResponse}
use analytics_system.Gateway.Cache.{CachedToken, JwtCache, expiry_of, get, put}
use analytics_system.Gateway.Jwt.{
  Gate, Handler, bearer, with_auth_context, CacheIsSound, validate_and_cache, response_of,
  jwt_middleware,
}

get-stored :
    (token : Text) (now : ℕ) (c : JwtCache) (resp : ValidateResponse)
    → get token now c ≡ some resp
    → (e : CachedToken) × (lookup token c ≡ some e) × (e.claims ≡ resp)
unfolding get
get-stored token now c resp h = elim (Option-cases (lookup token c)) [
  | inl missing ↦ absurd (ground arith)
  | inr (e, found) ↦ (e, found, ground arith)
]

some-injective :
    {x y : ValidateResponse} → ◌≡◌ {A = Option ValidateResponse} (some x) (some y) → x ≡ y
some-injective e = ground arith

module _ {W : Type 0} (clock : W → ℕ)
    (validate_token : Text → W → Option ValidateResponse × W) where
  -- What the gateway relies on: an answer of the auth service for a token fits the token.
  abbrev pub AnswersFit : (Text → ValidateResponse → Type 0) → Type 0
  AnswersFit Fits =
      (token : Text) (w : W) (resp : ValidateResponse)
      → (validate_token token w).0 ≡ some resp
      → Fits token resp

  -- What holds of the response that is found for a token, and of the cache after it.
  abbrev IsGood :
      (Text → ValidateResponse → Type 0) → Text → Option ValidateResponse × Gate W → Type 0
  IsGood Fits token x =
      CacheIsSound Fits x.1
      × ((resp : ValidateResponse) → x.0 ≡ some resp → (resp.valid ≡ true) × Fits token resp)

  module _ (Fits : Text → ValidateResponse → Type 0) (answers : AnswersFit Fits) where
    refused : (token : Text) (g : Gate W) → CacheIsSound Fits g → IsGood Fits token (none, g)
    refused token g sound = (sound, λ resp e. absurd (ground arith))

    stored :
        (token : Text) (g : Gate W) (world : W) (resp : ValidateResponse) (b : Bool)
        → resp.valid ≡ b
        → Fits token resp
        → CacheIsSound Fits g
        → IsGood Fits token (
            if b
            then (some resp, record { cache = put token resp (clock world) g.cache; world = world })
            else (none, record g { world = world }))
    unfolding put
    stored token g world resp true valid fits sound = (
      All-insert (λ e. (e.1.claims.valid ≡ true) × Fits e.0 e.1.claims) token
          (record { claims = resp; expires_at = expiry_of resp (clock world) }) g.cache
          (valid, fits) sound,
      λ r e.
          subst (λ (x : ValidateResponse). (x.valid ≡ true) × Fits token x) (some-injective e)
            (valid, fits),
    )
    stored token g world resp false invalid fits sound =
        refused token (record g { world = world }) sound

    validated :
        (token : Text) (g : Gate W)
        → CacheIsSound Fits g
        → IsGood Fits token (validate_and_cache clock validate_token token g)
    unfolding validate_and_cache
    validated token g sound = elim (Option-cases (validate_token token g.world).0) [
      | inl none_found ↦
          rw (none_found, validate_and_cache)
            (refused token (record g { world = (validate_token token g.world).1 }) sound)
      | inr (resp, found) ↦
          rw (found, validate_and_cache)
            (stored token g (validate_token token g.world).1 resp resp.valid refl
              (answers token g.world resp found) sound)
    ]

    response_of_sound :
        (token : Text) (g : Gate W)
        → CacheIsSound Fits g
        → IsGood Fits token (response_of clock validate_token token g)
    unfolding response_of
    response_of_sound token g sound = elim (Option-cases (get token (clock g.world) g.cache)) [
      | inl missing ↦ rw (missing, response_of) (validated token g sound)
      | inr (resp, cached) ↦
          let (e, found, same) = get-stored token (clock g.world) g.cache resp cached in
          let fits =
            subst (λ (x : ValidateResponse). (x.valid ≡ true) × Fits token x) same
              (All-lookup (λ e. (e.1.claims.valid ≡ true) × Fits e.0 e.1.claims) token e g.cache
                sound found) in
          rw (cached, response_of)
            (
              sound,
              λ r f.
                  subst (λ (x : ValidateResponse). (x.valid ≡ true) × Fits token x)
                    (some-injective f) fits,
            )
    ]

    -- From a sound cache the middleware answers 401, or it calls the next handler with a valid
    -- response that fits the bearer token of the request; the cache is sound in
    -- both cases. What fits is any relation in which the auth service's answers stand to the tokens.
    pub jwt_middleware-safe :
        {B : Type 0} (next : Handler W B) (ctx : Ctx) (r : Request) (g : Gate W)
        → CacheIsSound Fits g
        → (g' : Gate W) × CacheIsSound Fits g'
          × ((jwt_middleware clock validate_token next ctx r g ≡ (failure 401 "unauthorized", g'))
              ⊎ ((resp : ValidateResponse) × (has_prefix r.authorization bearer ≡ true)
                  × (resp.valid ≡ true)
                  × Fits (trim_prefix r.authorization bearer) resp
                  × (jwt_middleware clock validate_token next ctx r g
                      ≡ next (with_auth_context ctx resp) r g')))
    unfolding jwt_middleware
    jwt_middleware-safe next ctx r g sound = elim (Bool-cases (has_prefix r.authorization bearer)) [
      | inr unmarked ↦ (g, sound, inl (rw unmarked refl))
      | inl marked ↦
          let token = trim_prefix r.authorization bearer in
          let (sound', good) = response_of_sound token g sound in
          let g' = (response_of clock validate_token token g).1 in
          elim (Option-cases (response_of clock validate_token token g).0) [
            | inl missing ↦ (g', sound', inl (rw marked (rw missing refl)))
            | inr (resp, found) ↦
                let (valid, fits) = good resp found in
                (g', sound', inr (resp, marked, valid, fits, rw marked (rw found refl)))
          ]
    ]
