-- ===== src/Lib.antt =====
-- Verification of analytics-system: a platform that collects market data, aggregates it to candles
-- and serves it to users that an auth service knows. Paths are those of the repository.
--
-- The parts and how they interact. services/market-data-collector reads frames of Binance from a
-- WebSocket and publishes trades as ticks on a topic of Kafka. services/preprocessor consumes the
-- ticks, and its aggregator turns them into candles for the intervals of common/interval; the bars
-- not yet complete are kept in Redis, the complete ones go to a table of Timescale and to topics,
-- one for each interval. services/analytics-api reads the table in pages and streams the topics.
-- services/auth keeps users and refresh tokens in two tables and signs tokens; its statements are
-- retried by common/backoff.
-- services/api-gateway stands before the services: it validates tokens through the auth service, or
-- by its cache, tests roles and limits the rate of requests. services/query-service sends the
-- statements of users to a database, if they only select.
--
-- Which file models what:
--   * Prelude: shared helpers; Prelude/Text has the functions of package strings that the source
--     uses, on lists of bytes of ASCII texts; Prelude/Map has maps as association lists.
--   * Interval: common/interval/interval.go, and `AlignToInterval` of
--     services/preprocessor/internal/aggregator/types.go. Times are nanoseconds from Go's zero time.
--   * Backoff: common/backoff/backoff.go. `RetryNotify` of github.com/cenkalti/backoff is a
--     parameter with the runs that its documentation allows; `cancelled` tells which errors a
--     context that has ended may give.
--   * Redis: common/redis/redis.go, over the driver's four calls and the retry loop.
--   * Kafka/Producer and Kafka/Consumer: common/kafka/producer and common/kafka/consumer, and
--     interface.go. sarama's calls are parameters.
--   * HttpServer: common/httpserver. The handlers of net/http are functions that may panic.
--   * Settings: config.go of common/backoff, common/kafka, common/redis, common/logger, common/telemetry
--     and of services/preprocessor, defaults and checks; Settings/Load has the map of
--     defaults and the order of the checks.
--   * Aggregator/Candle, Aggregator/Manager and Aggregator/MultiSink: candle.go, manager.go and
--     multisink.go of services/preprocessor/internal/aggregator. Sink, storage and clock are a
--     parameter `Env`; Aggregator/Manager/Trace gives one that records its calls. `float64` is a
--     parameter with a comparison and a sum.
--   * Storage/Adapter and Storage/Sinks: services/preprocessor/internal/storage/redis,
--     services/preprocessor/internal/storage/kafkasink, marshaler.go and the handler of the ticks.
--   * Timescale: services/preprocessor/internal/storage/timescaledb/timescale.go and
--     services/analytics-api/internal/storage/timescaledb/reader.go. The table is a list of rows,
--     and the INSERT and the SELECT of candles are functions on it. Timescale/Symbols has ListSymbols
--     over the server as a parameter; Timescale/Flushed joins the writer to the reader.
--   * Collector, Collector/Pipeline and Collector/Socket: the processors and the pump of
--     services/market-data-collector/internal, and the loop of its pkg/binance/ws.go.
--   * Analytics and Analytics/Subscription: the handler, the use cases and the streams of
--     services/analytics-api/internal; the goroutines of a subscription are steps on one state,
--     with the channel of a hundred places between them and the reader.
--   * Auth/Role and Auth/Jwt: role.go, claims.go, jwt.go and hs256.go of services/auth/internal/jwt.
--   * Auth/Host: what the auth service takes from outside. Each use of the outside is one tick of a
--     counter in the state, and an answer is a function of the counter, so any sequence of answers
--     is covered.
--   * Auth/Store: services/auth/internal/storage/postgres, with the constraints of the migration.
--   * Auth/Usecase: services/auth/internal/usecase, each `Handle` as a call that leaves the tables
--     and returns a value or an error.
--   * Auth/Interceptor and Auth/Server: services/auth/internal/interceptor and
--     services/auth/internal/transport/grpc/handler.go.
--   * Gateway: services/api-gateway/internal/middleware and services/api-gateway/internal/handler.
--   * Query: services/query-service/internal, the use case and its repository. The order in which
--     the map of parameters is visited is the order of a list. The digits of a placeholder's number
--     are taken on fuel, the number itself, which is enough as each step divides it by ten.
--   * Tests: the theorems at concrete inputs.
--
-- Bounds. The loops run over lists, with three exceptions. The digits are the first. The loop over
-- the sessions of a consumer group is bounded by fuel, as the source repeats it until its context
-- ends; without fuel left it says that the loop goes on. The reading of all pages of a
-- table takes the pages as fuel, and fuel that is enough is part of its theorem.
-- A lock of the source makes a method one step, so methods are functions on states, and an
-- interleaving is a sequence of calls. Go's maps are visited in the order of the list, which is
-- arbitrary. Machine integers are natural numbers where the source neither overflows nor goes below
-- zero, and ℤ where a number of the configuration may be negative.
--
-- Not modelled: logs and traces, and the metrics that no behaviour depends on; the wiring of the
-- services; the reading of configuration files; the opening of connections to Kafka, Redis and the
-- databases; the dial and the pings of the WebSocket; the generated protocol code.
pub mod Prelude
pub mod Interval
pub mod Backoff
pub mod HttpServer
pub mod Kafka
pub mod Settings
pub mod Redis
pub mod Storage
pub mod Timescale
pub mod Aggregator
pub mod Auth
pub mod Gateway
pub mod Query
pub mod Analytics
pub mod Collector
pub mod Tests
