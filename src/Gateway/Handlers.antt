-- ===== src/Gateway/Handlers.antt =====
-- services/api-gateway/internal/handler and transport/http/middleware.go: the HTTP handlers over the
-- gRPC clients. A body is what encoding/json makes of it, or nothing if that fails; a query is the
-- function `r.URL.Query().Get`.
pub mod Laws
use Prim.Native.String.{String}
use analytics_system.Prelude.{
  ◌==◌, ℕ, ◌+◌, ◌-◌, ◌*◌, ◌%◌, ◌^◌, ℤ, pos, to_int32, Bool, true, false, List, [], ◌∷◌, ◌++◌,
  Option, none, some, Result, ok, err, ltb, leb, ◌==◌, not, ◌&&◌, ◌||◌, if◌then◌else◌,
}
use analytics_system.Prelude.Text.{Text, codes, is_empty, has_prefix, trim_prefix}
use analytics_system.Interval.{AggregationInterval, to_proto, minute}
use analytics_system.Gateway.Http.{
  Ctx, Metadata, Reply, failure, answer, bad_request, unauthorized, internal_error, Request,
  ValidateResponse,
}
use analytics_system.Gateway.Jwt.{bearer}

-- A call of a gRPC client: its response, or an error.
abbrev pub ClientCall : Type 0 → Type 0 → Type 0 → Type 0
ClientCall W A B = A → W → Option B × W

-- `loginRequest`
pub record Credentials : Type 0 where
  pub username : Text
  pub password : Text

pub record Registration : Type 0 where
  pub username : Text
  pub password : Text
  pub roles : List Text

-- `loginResponse`; the number of seconds is the one that the client got.
pub record Tokens : Type 0 where
  pub access_token : Text
  pub refresh_token : Text
  pub expires_in : ℕ

-- The body that `Me` writes.
pub record Identity : Type 0 where
  pub user_id : Text
  pub roles : List Text
  pub expires_at : Option ℕ
  pub trace_id : Text

abbrev pub reply_or : {W B C : Type 0} → (B → C) → Reply C → Option B × W → Reply C × W
reply_or f e (none, w) = (e, w)
reply_or f e (some b, w) = (answer (f b), w)

-- `extractBearerToken`
unfoldable pub extract_bearer_token : Request → Text
unfolding has_prefix trim_prefix
extract_bearer_token r =
    if has_prefix r.authorization bearer then trim_prefix r.authorization bearer else []

-- `Middleware.WithContext`: the authorization value that is sent along with the calls of the clients
unfoldable pub outgoing_authorization : Request → Option Text
unfolding has_prefix trim_prefix
outgoing_authorization r =
    if has_prefix r.authorization bearer
    then some (bearer ++ trim_prefix r.authorization bearer)
    else none

abbrev identity_of : ValidateResponse → Identity
identity_of resp = record {
  user_id = resp.username;
  roles = resp.roles;
  expires_at = resp.expires_at;
  trace_id = elim resp.metadata [ none ↦ [] | some meta ↦ meta.trace_id ];
}

module _ {W : Type 0} where
  -- `Handler.Login`
  unfoldable pub post_login :
      ClientCall W Credentials Tokens → Option Credentials → W → Reply Tokens × W
  post_login call none w = (bad_request "invalid json", w)
  post_login call (some req) w = reply_or (λ t. t) (unauthorized "login failed") (call req w)

  -- `Handler.Register`
  unfoldable pub post_register :
      ClientCall W Registration Tokens → Option Registration → W → Reply Tokens × W
  post_register call none w = (bad_request "invalid json", w)
  post_register call (some req) w =
      reply_or (λ t. t) (bad_request "registration failed") (call req w)

  -- `Handler.Refresh`
  unfoldable pub post_refresh : ClientCall W Text Tokens → Option Text → W → Reply Tokens × W
  post_refresh call none w = (bad_request "invalid json", w)
  post_refresh call (some token) w =
      reply_or (λ t. t) (unauthorized "refresh failed") (call token w)

  -- `Handler.Me`; the time is written in the format of RFC 3339.
  unfoldable pub get_me : ClientCall W Text ValidateResponse → Request → W → Reply Identity × W
  unfolding extract_bearer_token
  get_me call r w =
      let (found, w') = call (extract_bearer_token r) w in
      (
        elim found [
          | none ↦ unauthorized "invalid token"
          | some resp ↦
              if not resp.valid then unauthorized "invalid token" else answer (identity_of resp)
        ],
        w',
      )

  -- `Handler.Logout`: the response of the client is its field `Success`; 204 has no body.
  unfoldable pub post_logout : ClientCall W Text Bool → Option Text → W → Reply (Unit {0}) × W
  post_logout call none w = (bad_request "missing refresh_token", w)
  post_logout call (some token) w =
      if is_empty token
      then (bad_request "missing refresh_token", w)
      else (let (done, w') = call token w in
          (
            elim done [
              | none ↦ internal_error "logout failed"
              | some success ↦ if not success then internal_error "logout failed" else answer tt
            ],
            w',
          ))

-- `QueryCandlesRequest`
pub record CandlesRequest : Type 0 where
  pub symbol : Text
  pub interval : AggregationInterval
  pub start : ℕ
  pub end : ℕ
  pub page_size : ℤ

-- `GetOrderBookRequest`
pub record OrderBookRequest : Type 0 where
  pub symbol : Text
  pub start : ℕ
  pub end : ℕ
  pub page_size : ℤ
  pub page_token : Text
  pub metadata : Metadata

abbrev text_or_empty : Option Text → Text
text_or_empty none = []
text_or_empty (some s) = s

-- `ExtractMetadataFromContext`
unfoldable pub extract_metadata : Ctx → Metadata
extract_metadata ctx = record {
  trace_id = text_or_empty ctx.trace_id;
  ip_address = text_or_empty ctx.ip_address;
  user_agent = text_or_empty ctx.user_agent;
}

-- The value of the decimal digits in front of which stands `acc`, if there is nothing else.
unfoldable pub digits_value : ℕ → Text → Option ℕ
digits_value acc [] = some acc
digits_value acc (c ∷ s) =
    let rest = digits_value (acc * 10 + (c - 48)) s in if leb 48 c && leb c 57 then rest else none

abbrev unsigned : Text → Text
unsigned [] = []
unsigned (c ∷ s) = if c == 43 then s else c ∷ s

-- `strconv.Atoi`, where its result is positive: digits after an optional plus sign, within 64 bits.
unfoldable pub atoi_positive : Text → Option ℕ
unfolding digits_value
atoi_positive v = if is_empty (unsigned v) then none else elim (digits_value 0 (unsigned v)) [
  | none ↦ none
  | some n ↦ if ltb 0 n && ltb n (2 ^ 63) then some n else none
]

-- `parseInt32Query`
unfoldable pub parse_int32_query : (Text → Text) → Text → ℤ → ℤ
unfolding atoi_positive
parse_int32_query query key def =
    if is_empty (query key)
    then def
    else elim (atoi_positive (query key)) [ none ↦ def | some n ↦ to_int32 n ]

module _ (query : Text → Text) (parse_time : Text → Option ℕ) where
  -- `parseTimeQuery`
  unfoldable pub parse_time_query : Text → ℕ → Option ℕ
  parse_time_query s def = if is_empty s then some def else parse_time s

  -- The request that `Handler.GetCandles` sends, or the message of its answer 400.
  unfoldable pub candles_request : Result String CandlesRequest
  unfolding to_proto
  candles_request =
      if is_empty (query (codes "symbol"))
        || is_empty (query (codes "interval"))
        || is_empty (query (codes "start"))
        || is_empty (query (codes "end"))
      then err "missing query parameters"
      else elim (parse_time (query (codes "start"))) [
        | none ↦ err "invalid time format"
        | some start ↦ elim (parse_time (query (codes "end"))) [
          | none ↦ err "invalid time format"
          | some end' ↦ elim (to_proto (query (codes "interval"))) [
            | err e ↦ err "invalid interval"
            | ok iv ↦ ok (record {
              symbol = query (codes "symbol");
              interval = iv;
              start = start;
              end = end';
              page_size = pos 500;
            })
          ]
        ]
      ]

  -- The request that `Handler.GetOrderBook` sends, or the message of its answer 400; the clock
  -- is read twice.
  unfoldable pub order_book_request : Ctx → ℕ → ℕ → Result String OrderBookRequest
  unfolding parse_time_query parse_int32_query extract_metadata
  order_book_request ctx now later =
      if is_empty (query (codes "symbol"))
      then err "missing ?symbol="
      else elim (parse_time_query (query (codes "start")) (now - 5 * minute)) [
        | none ↦ err "invalid start timestamp"
        | some start ↦ elim (parse_time_query (query (codes "end")) later) [
          | none ↦ err "invalid end timestamp"
          | some end' ↦
              if not (ltb start end')
              then err "start must be before end"
              else ok (record {
                symbol = query (codes "symbol");
                start = start;
                end = end';
                page_size = parse_int32_query query (codes "page_size") (pos 100);
                page_token = query (codes "page_token");
                metadata = extract_metadata ctx;
              })
        ]
      ]

  -- `Handler.GetCandles`
  unfoldable pub get_candles : {W B : Type 0} → ClientCall W CandlesRequest B → W → Reply B × W
  unfolding candles_request
  get_candles call w = elim candles_request [
    | err msg ↦ (bad_request msg, w)
    | ok req ↦ reply_or (λ b. b) (internal_error "query failed") (call req w)
  ]

  -- `Handler.GetOrderBook`
  unfoldable pub get_order_book :
      {W B : Type 0} → ClientCall W OrderBookRequest B → Ctx → ℕ → ℕ → W → Reply B × W
  unfolding order_book_request
  get_order_book call ctx now later w = elim (order_book_request ctx now later) [
    | err msg ↦ (bad_request msg, w)
    | ok req ↦ reply_or (λ b. b) (internal_error "failed to fetch order book") (call req w)
  ]

-- `Handler.GetSymbols`: a page size that is no positive number is 100; the client takes the size
-- and the token.
unfoldable pub get_symbols :
    {W B : Type 0} → (Text → Text) → ClientCall W (ℤ × Text) B → W → Reply B × W
unfolding parse_int32_query
get_symbols query call w =
    reply_or (λ b. b) (internal_error "failed to fetch symbols")
      (call (parse_int32_query query (codes "page_size") (pos 100), query (codes "page_token")) w)
