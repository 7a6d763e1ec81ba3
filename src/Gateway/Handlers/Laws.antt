-- ===== src/Gateway/Handlers/Laws.antt =====
-- What the HTTP handlers of services/api-gateway send to the services.
use Prim.Native.String.{String}
use analytics_system.Prelude.{
  pos, ℕ, ◌<◌, ◌≡◌, refl, ap, ◌∙◌, ◌⊎◌, inl, inr, true, false, Option, some, ok, ltb, ltb→lt, arith,
  Result-cases,
}
use analytics_system.Prelude.Text.{Text, codes, is_empty}
use analytics_system.Interval.{to_proto, from_proto}
use analytics_system.Interval.Laws.{to_proto_iff_from_proto}
use analytics_system.Gateway.Http.{Ctx, bad_request, internal_error}
use analytics_system.Gateway.Handlers.{
  ClientCall, CandlesRequest, OrderBookRequest, candles_request, order_book_request, get_candles,
  get_order_book, reply_or,
}

module _ (query : Text → Text) (parse_time : Text → Option ℕ) where
  candles_request-ok :
      (r : CandlesRequest)
      → candles_request query parse_time ≡ ok r
      → (is_empty (query (codes "symbol")) ≡ false)
        × (r.symbol ≡ query (codes "symbol"))
        × (to_proto (query (codes "interval")) ≡ ok r.interval)
        × (parse_time (query (codes "start")) ≡ some r.start)
        × (parse_time (query (codes "end")) ≡ some r.end)
        × (r.page_size ≡ pos 500)
  unfolding candles_request
  candles_request-ok r e = ground arith

  order_book_request-ok :
      (ctx : Ctx) (now later : ℕ) (r : OrderBookRequest)
      → order_book_request query parse_time ctx now later ≡ ok r
      → (is_empty (query (codes "symbol")) ≡ false)
        × (r.symbol ≡ query (codes "symbol"))
        × (ltb r.start r.end ≡ true)
  unfolding order_book_request
  order_book_request-ok ctx now later r e = ground arith

  -- `GetCandles` answers 400 without a call, or it sends one request, for the symbol of the query,
  -- which is not empty, with the interval whose internal name the query gives, and with both times
  -- as they parse, and answers what the service does.
  pub get_candles_lem :
      {W B : Type 0} (call : ClientCall W CandlesRequest B) (w : W)
      → ((msg : String) × (get_candles query parse_time call w ≡ (bad_request msg, w)))
        ⊎ ((req : CandlesRequest) × (is_empty req.symbol ≡ false)
            × (req.symbol ≡ query (codes "symbol"))
            × (from_proto req.interval ≡ ok (query (codes "interval")))
            × (parse_time (query (codes "start")) ≡ some req.start)
            × (parse_time (query (codes "end")) ≡ some req.end)
            × (get_candles query parse_time call w
                ≡ reply_or (λ b. b) (internal_error "query failed") (call req w)))
  unfolding get_candles
  get_candles_lem call w = elim (Result-cases (candles_request query parse_time)) [
    | inr (msg, refused) ↦ inl (msg, rw (refused, get_candles) refl)
    | inl (req, sent) ↦
        let (given, symbol, interval, start, finish, size) = candles_request-ok req sent in
        inr (
          req,
          ap is_empty symbol ∙ given,
          symbol,
          (to_proto_iff_from_proto (query (codes "interval")) req.interval).0 interval,
          start,
          finish,
          rw (sent, get_candles) refl,
        )
  ]

  -- `GetOrderBook` answers 400 without a call, or it sends one request, for the symbol of the query,
  -- which is not empty, and for a time that ends after it starts, and answers what the service does.
  pub get_order_book_lem :
      {W B : Type 0} (call : ClientCall W OrderBookRequest B) (ctx : Ctx) (now later : ℕ) (w : W)
      → ((msg : String) × (get_order_book query parse_time call ctx now later w
            ≡ (bad_request msg, w)))
        ⊎ ((req : OrderBookRequest) × (is_empty req.symbol ≡ false)
            × (req.symbol ≡ query (codes "symbol"))
            × (req.start < req.end)
            × (get_order_book query parse_time call ctx now later w
                ≡ reply_or (λ b. b) (internal_error "failed to fetch order book") (call req w)))
  unfolding get_order_book
  get_order_book_lem call ctx now later w =
      elim (Result-cases (order_book_request query parse_time ctx now later)) [
        | inr (msg, refused) ↦ inl (msg, rw (refused, get_order_book) refl)
        | inl (req, sent) ↦
            let (given, symbol, before) = order_book_request-ok ctx now later req sent in
            inr (
              req,
              ap is_empty symbol ∙ given,
              symbol,
              ltb→lt req.start req.end before,
              rw (sent, get_order_book) refl,
            )
      ]
