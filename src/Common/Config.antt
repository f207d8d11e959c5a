-- ===== src/Common/Config.antt =====
-- common/src/config/types.rs: the configuration of the services. `to_string` is the decimal text of
-- a number.
pub mod Validation
pub mod Fields
pub mod Names
pub mod Loader
pub mod Agreement
use Prim.Native.String.{◌++◌}
use k_url.Prelude.{Bool, Option, String, false, none, some, ℕ}
use k_url.Prelude.Time.{Duration, from_millis, from_secs}

pub record Streams : Type 0 where
  pub events : String

pub record RedisConfig : Type 0 where
  pub host : String
  pub port : ℕ
  pub cache_ttl : Duration
  pub streams : Streams

pub record DatabaseConfig : Type 0 where
  pub host : String
  pub port : ℕ
  pub user : String
  pub password : String
  pub db_name : String

pub record LoggingConfig : Type 0 where
  pub level : String
  pub enabled : Bool
  pub otlp_endpoint : Option String

pub record ServiceAddress : Type 0 where
  pub scheme : Option String
  pub host : String
  pub port : ℕ

pub record GatewayServiceConfig : Type 0 where
  pub host : String
  pub port : ℕ

pub record CoreServiceConfig : Type 0 where
  pub host : String
  pub port : ℕ

pub record AnalyticsServiceConfig : Type 0 where
  pub host : String
  pub port : ℕ
  pub read_batch_size : ℕ
  pub read_block : Duration
  pub flush_interval : Duration

pub record AppConfig : Type 0 where
  pub redis : RedisConfig
  pub database : DatabaseConfig
  pub logging : LoggingConfig
  pub gateway : GatewayServiceConfig
  pub core : CoreServiceConfig
  pub analytics : AnalyticsServiceConfig

pub record GatewayConfig : Type 0 where
  pub gateway : GatewayServiceConfig
  pub redis : RedisConfig
  pub core : ServiceAddress
  pub analytics : ServiceAddress
  pub logging : LoggingConfig

pub record CoreConfig : Type 0 where
  pub core : CoreServiceConfig
  pub redis : RedisConfig
  pub database : DatabaseConfig
  pub logging : LoggingConfig

pub record AnalyticsConfig : Type 0 where
  pub analytics : AnalyticsServiceConfig
  pub redis : RedisConfig
  pub database : DatabaseConfig
  pub logging : LoggingConfig

-- The values that stand where the sources give none.
abbrev pub default_streams : Streams
default_streams = record { events = "Events" }

abbrev pub default_redis : RedisConfig
default_redis = record {
  host = "localhost";
  port = 6379;
  cache_ttl = from_secs 300;
  streams = default_streams;
}

abbrev pub default_database : DatabaseConfig
default_database = record {
  host = "localhost";
  port = 5432;
  user = "postgres";
  password = "postgres";
  db_name = "kurlyk";
}

abbrev pub default_logging : LoggingConfig
default_logging = record {
  level = "info";
  enabled = false;
  otlp_endpoint = some "http://alloy:4317";
}

abbrev pub default_gateway : GatewayServiceConfig
default_gateway = record { host = "localhost"; port = 3000 }

abbrev pub default_core : CoreServiceConfig
default_core = record { host = "localhost"; port = 3001 }

abbrev pub default_analytics : AnalyticsServiceConfig
default_analytics = record {
  host = "localhost";
  port = 3002;
  read_batch_size = 100;
  read_block = from_millis 250;
  flush_interval = from_secs 60;
}

abbrev pub default_config : AppConfig
default_config = record {
  redis = default_redis;
  database = default_database;
  logging = default_logging;
  gateway = default_gateway;
  core = default_core;
  analytics = default_analytics;
}

-- The part of the configuration that a service takes.
unfoldable pub gateway_config : AppConfig → GatewayConfig
gateway_config value = record {
  gateway = value.gateway;
  redis = value.redis;
  core = record { scheme = some "grpc"; host = value.core.host; port = value.core.port };
  analytics = record {
    scheme = some "grpc";
    host = value.analytics.host;
    port = value.analytics.port;
  };
  logging = value.logging;
}

unfoldable pub core_config : AppConfig → CoreConfig
core_config value = record {
  core = value.core;
  redis = value.redis;
  database = value.database;
  logging = value.logging;
}

unfoldable pub analytics_config : AppConfig → AnalyticsConfig
analytics_config value = record {
  analytics = value.analytics;
  redis = value.redis;
  logging = value.logging;
  database = value.database;
}

module _ (to_string : ℕ → String) where
  unfoldable pub show_redis : RedisConfig → String
  show_redis c = "redis://" ++ (c.host ++ (":" ++ to_string c.port))

  unfoldable pub show_database : DatabaseConfig → String
  show_database c =
      "postgresql://"
      ++ (c.user
          ++ (":"
              ++ (c.password
                  ++ ("@" ++ (c.host ++ (":" ++ (to_string c.port ++ ("/" ++ c.db_name))))))))

  unfoldable pub show_service : ServiceAddress → String
  show_service a = elim a.scheme [
    | some scheme ↦ scheme ++ ("://" ++ (a.host ++ (":" ++ to_string a.port)))
    | none ↦ a.host ++ (":" ++ to_string a.port)
  ]

  unfoldable pub show_core : CoreServiceConfig → String
  show_core c = "grpc://" ++ (c.host ++ (":" ++ to_string c.port))

  unfoldable pub show_analytics : AnalyticsServiceConfig → String
  show_analytics c = "grpc://" ++ (c.host ++ (":" ++ to_string c.port))
