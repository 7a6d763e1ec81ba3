-- ===== src/Tests/Gate.antt =====
-- The middleware of services/api-gateway at concrete inputs.
use analytics_system.Prelude.{
  false, ◌<◌, ok, ℕ, ◌≡◌, ◌⊎◌, refl, true, List, [], ◌∷◌, Option, none, some, All, any, arith, ltb,
  if◌then◌else◌, suc,
}
use analytics_system.Prelude.Text.{is_empty, Text, codes, text_eq, has_prefix, trim_prefix}
use analytics_system.Prelude.Map.{IsDistinct, lookup}
use Prim.Native.String.{String}
use analytics_system.Interval.{from_proto}
use analytics_system.Gateway.Handlers.{
  CandlesRequest, OrderBookRequest, get_candles, get_order_book, reply_or,
}
use analytics_system.Gateway.Handlers.Laws.{get_candles_lem, get_order_book_lem}
use analytics_system.Gateway.Http.{
  bad_request, internal_error, failure, answer, Ctx, Request, ValidateResponse,
}
use analytics_system.Gateway.Cache.{JwtCache, get, put, cleanup, expiry_of}
use analytics_system.Gateway.Cache.Laws.{get-put, get-cleanup}
use analytics_system.Gateway.Jwt.{
  Gate, Handler, bearer, with_auth_context, CacheIsSound, jwt_middleware,
}
use analytics_system.Gateway.Jwt.Safety.{AnswersFit, jwt_middleware-safe}
use analytics_system.Gateway.Rbac.{
  Route, route_matches, Meets, Bars, roles_or_nil, rbac_middleware, rbac_middleware_lem,
}
use analytics_system.Gateway.Limit.{Rate, verdicts, times_of, answers_to, answers_to_lem}

abbrev token : Text
token = codes "t1"

abbrev valid_response : ValidateResponse
valid_response = record {
  valid = true;
  username = codes "ann";
  roles = codes "user" ∷ [];
  expires_at = some 50;
  metadata = none;
}

get-put_example : get token 60 (put token valid_response 10 []) ≡ (
    if text_eq token token
    then (if ltb (expiry_of valid_response 10) 60 then none else some valid_response)
    else get token 60 [])
get-put_example = get-put token token valid_response 10 60 []

abbrev cache : JwtCache
cache =
    (token, record { claims = valid_response; expires_at = 50 })
    ∷ (codes "t2", record { claims = valid_response; expires_at = 90 })
    ∷ []

cache-IsDistinct : IsDistinct cache
unfolding lookup text_eq
cache-IsDistinct = (refl, (refl, tt))

get-cleanup_example : get (codes "t2") 80 (cleanup 70 cache) ≡ get (codes "t2") 80 cache
get-cleanup_example = get-cleanup (codes "t2") 70 80 cache cache-IsDistinct (omega arith)

-- The time is the state, and each validation takes one unit of it.
abbrev clock : ℕ → ℕ
clock w = w

abbrev validate_token : Text → ℕ → Option ValidateResponse × ℕ
validate_token t w = (some valid_response, suc w)

abbrev IsAnn : Text → ValidateResponse → Type 0
IsAnn t resp = resp.username ≡ codes "ann"

answers : AnswersFit clock validate_token IsAnn
answers t w resp e = ground arith

abbrev gate : Gate ℕ
gate = record { cache = cache; world = 60 }

abbrev ctx : Ctx
ctx = record {
  user_id = none;
  roles = some (codes "User" ∷ []);
  trace_id = none;
  ip_address = none;
  user_agent = none;
}

abbrev request : Request
request = record {
  verb = codes "GET";
  path = codes "/admin/x";
  authorization = codes "Bearer t1";
  remote_addr = codes "10.0.0.1:80";
}

abbrev next : Handler ℕ (Option Text)
next c r g = (answer c.user_id, g)

sound : CacheIsSound IsAnn gate
sound = ((refl, refl), ((refl, refl), tt))

jwt_middleware-safe_example :
    (g' : Gate ℕ) × CacheIsSound IsAnn g'
    × ((jwt_middleware clock validate_token next ctx request gate
          ≡ (failure 401 "unauthorized", g'))
        ⊎ ((resp : ValidateResponse) × (has_prefix request.authorization bearer ≡ true)
            × (resp.valid ≡ true)
            × IsAnn (trim_prefix request.authorization bearer) resp
            × (jwt_middleware clock validate_token next ctx request gate
                ≡ next (with_auth_context ctx resp) request g')))
jwt_middleware-safe_example =
    jwt_middleware-safe clock validate_token IsAnn answers next ctx request gate sound

abbrev permissions : List (Route × List Text)
permissions =
    (record { verb = codes "POST"; path = codes "/admin/*" }, codes "admin" ∷ [])
    ∷ (record { verb = codes "GET"; path = codes "/candles" }, codes "user" ∷ [])
    ∷ []

rbac_middleware_lem_example :
    (All (Meets request.verb request.path (roles_or_nil ctx.roles)) permissions
      → rbac_middleware permissions next ctx request gate ≡ next ctx request gate)
    × (any (λ p. route_matches p.0 request.verb request.path) permissions ≡ true
        → All (Bars request.verb request.path (roles_or_nil ctx.roles)) permissions
        → rbac_middleware permissions next ctx request gate ≡ (failure 403 "forbidden", gate))
rbac_middleware_lem_example = rbac_middleware_lem permissions next ctx request gate

-- A limiter that lets two requests pass.
abbrev two : Rate ℕ
two = record { new_limiter = 0; allow = λ n now. (ltb n 2, suc n) }

abbrev requests : List (Text × ℕ)
requests = (codes "ip:a", 1) ∷ (codes "ip:b", 2) ∷ (codes "ip:a", 3) ∷ (codes "ip:a", 4) ∷ []

answers_to_lem_example :
    answers_to two (codes "ip:a") requests []
    ≡ verdicts two 0 (times_of two (codes "ip:a") requests)
answers_to_lem_example = answers_to_lem two (codes "ip:a") requests

abbrev query : Text → Text
query key =
    if text_eq key (codes "symbol")
    then codes "BTC"
    else (if text_eq key (codes "interval")
        then codes "1h"
        else (if text_eq key (codes "start") then codes "7" else codes "9"))

abbrev length_time : Text → Option ℕ
length_time s = elim s [ [] ↦ none | c ∷ t ↦ some c ]

abbrev count_calls : {A : Type 0} → A → ℕ → Option A × ℕ
count_calls a n = (some a, suc n)

get_candles_lem_example :
    ((msg : String) × (get_candles query length_time count_calls 0 ≡ (bad_request msg, 0)))
    ⊎ ((req : CandlesRequest) × (is_empty req.symbol ≡ false)
        × (req.symbol ≡ query (codes "symbol"))
        × (from_proto req.interval ≡ ok (query (codes "interval")))
        × (length_time (query (codes "start")) ≡ some req.start)
        × (length_time (query (codes "end")) ≡ some req.end)
        × (get_candles query length_time count_calls 0
            ≡ reply_or (λ b. b) (internal_error "query failed") (count_calls req 0)))
get_candles_lem_example = get_candles_lem query length_time count_calls 0

get_order_book_lem_example :
    ((msg : String) × (get_order_book query length_time count_calls ctx 50 60 0
        ≡ (bad_request msg, 0)))
    ⊎ ((req : OrderBookRequest) × (is_empty req.symbol ≡ false)
        × (req.symbol ≡ query (codes "symbol"))
        × (req.start < req.end)
        × (get_order_book query length_time count_calls ctx 50 60 0
            ≡ reply_or (λ b. b) (internal_error "failed to fetch order book") (count_calls req 0)))
get_order_book_lem_example = get_order_book_lem query length_time count_calls ctx 50 60 0
