-- ===== src/Settings.antt =====
-- The configurations of the shared packages: common/backoff/config.go, common/redis/config.go,
-- common/kafka/consumer/config.go, common/telemetry/config.go, common/logger/config.go and
-- services/preprocessor/internal/storage/timescaledb/config.go, and the checks of
-- services/preprocessor/internal/config/config.go. Those of the producer and of the HTTP server are
-- in Kafka/Producer and HttpServer. Floats are a parameter.
pub mod Load
use analytics_system.Prelude.{
  ℕ, ◌*◌, Bool, true, false, not, ◌||◌, ◌&&◌, List, [], ◌∷◌, Option, none, some, if◌then◌else◌, ℤ,
  pos, is_positive, is_negative, is_nil,
}
use analytics_system.Prelude.Text.{Text, codes, is_empty}
use analytics_system.Interval.{second}
use analytics_system.HttpServer.{or_seconds, or_text}

-- The comparisons of floats and the constants that the configurations use.
pub record FloatTests (F : Type 0) : Type 0 where
  pub less : F → F → Bool
  pub at_most : F → F → Bool
  pub float_zero : F
  pub half : F
  pub float_one : F
  pub float_two : F

pub record BackoffConfig (F : Type 0) : Type 0 where
  pub initial_interval : ℤ
  pub randomization_factor : F
  pub multiplier : F
  pub max_interval : ℤ
  pub max_elapsed_time : ℤ
  pub per_attempt_timeout : ℤ

module _ {F : Type 0} (o : FloatTests F) where
  -- `ApplyDefaults` of common/backoff
  unfoldable pub backoff_defaults : BackoffConfig F → BackoffConfig F
  backoff_defaults c = record c {
    initial_interval = or_seconds c.initial_interval 1;
    randomization_factor =
        if o.at_most c.randomization_factor o.float_zero then o.half else c.randomization_factor;
    multiplier = if o.at_most c.multiplier o.float_zero then o.float_two else c.multiplier;
    max_interval = or_seconds c.max_interval 30;
  }

  -- `Validate` of common/backoff
  unfoldable pub backoff_is_valid : BackoffConfig F → Bool
  backoff_is_valid c =
      not (o.less c.randomization_factor o.float_zero || o.less o.float_one c.randomization_factor)
      && (not (o.less c.multiplier o.float_one) && not (is_negative c.per_attempt_timeout))

pub record RedisConfig : Type 0 where
  pub addr : Text
  pub db : ℤ

unfoldable pub redis_defaults : RedisConfig → RedisConfig
redis_defaults c = record c { db = if is_negative c.db then pos 0 else c.db }

unfoldable pub redis_is_valid : RedisConfig → Bool
redis_is_valid c = not (is_empty c.addr) && not (is_negative c.db)

pub record ConsumerConfig : Type 0 where
  pub consumer_brokers : List Text
  pub group_id : Text
  pub version : Text

unfoldable pub consumer_defaults : ConsumerConfig → ConsumerConfig
consumer_defaults c = record c { version = or_text c.version (codes "2.8.0") }

unfoldable pub consumer_is_valid : ConsumerConfig → Bool
consumer_is_valid c =
    not (is_nil c.consumer_brokers) && (not (is_empty c.group_id) && not (is_empty c.version))

pub record TelemetryConfig (F : Type 0) : Type 0 where
  pub endpoint : Text
  pub reconnect_period : ℤ
  pub timeout : ℤ
  pub sampler_ratio : F
  pub service_name : Text
  pub service_version : Text

module _ {F : Type 0} (o : FloatTests F) where
  unfoldable pub telemetry_defaults : TelemetryConfig F → TelemetryConfig F
  telemetry_defaults c = record c {
    timeout = or_seconds c.timeout 5;
    reconnect_period = or_seconds c.reconnect_period 5;
    sampler_ratio =
        if o.at_most c.sampler_ratio o.float_zero || o.less o.float_one c.sampler_ratio
        then o.float_one
        else c.sampler_ratio;
  }

  unfoldable pub telemetry_is_valid : TelemetryConfig F → Bool
  telemetry_is_valid c =
      not (is_empty c.endpoint)
      && (not (is_empty c.service_name)
          && (not (is_empty c.service_version)
              && not (o.less c.sampler_ratio o.float_zero || o.less o.float_one c.sampler_ratio)))

pub record LoggerConfig : Type 0 where
  pub level : Text
  pub format : Text

unfoldable pub logger_defaults : LoggerConfig → LoggerConfig
logger_defaults c = record c {
  level = or_text c.level (codes "info");
  format = or_text c.format (codes "console");
}

unfoldable pub logger_is_valid : LoggerConfig → Bool
logger_is_valid c = not (is_empty c.level)

pub record TimescaleConfig : Type 0 where
  pub dsn : Text
  pub migrations_dir : Text

unfoldable pub timescale_defaults : TimescaleConfig → TimescaleConfig
timescale_defaults c = record c {
  migrations_dir = or_text c.migrations_dir (codes "/app/migrations/timescaledb");
}

unfoldable pub timescale_is_valid : TimescaleConfig → Bool
timescale_is_valid c = not (is_empty c.dsn) && not (is_empty c.migrations_dir)
