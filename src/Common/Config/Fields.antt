-- ===== src/Common/Config/Fields.antt =====
-- common/src/config/types.rs: how the types of the configuration are read, by their attributes of serde.
-- A field that the sources do not give keeps its default, and a name that is no field is refused.
use k_url.Common.Config.{
  AnalyticsServiceConfig, AppConfig, CoreServiceConfig, DatabaseConfig, GatewayServiceConfig,
  LoggingConfig, RedisConfig, Streams, default_analytics, default_core, default_database,
  default_gateway, default_logging, default_redis, default_streams,
}
use k_url.Common.Config.Validation.{ConfigError}
use k_url.Common.RedisKeys.Distinct.{name}
use k_url.Prelude.{
  Bool, List, Option, Result, String, [], err, if◌then◌else◌, map_ok, ok, ℕ, ◌>>=◌, ◌∷◌,
}
use k_url.Prelude.Maps.{◌==◌, string_key}
use k_url.Prelude.Sums.{value}
use k_url.Prelude.Time.{Duration, from_millis, from_secs}

-- What serde and the crate config read from a value: the members of a table, or a value of a type.
pub record Deserializer (Value : Type 0) : Type 0 where
  pub entries : Value → Result ConfigError (List (String × Value))
  pub string : Value → Result ConfigError String
  pub optional : Value → Result ConfigError (Option String)
  pub bool : Value → Result ConfigError Bool
  pub u16 : Value → Result ConfigError ℕ
  pub u64 : Value → Result ConfigError ℕ
  pub usize : Value → Result ConfigError ℕ
  pub unknown_field : String → ConfigError

-- Each member in turn sets the field that it names.
unfoldable pub set_fields :
    {V A : Type 0}
    → (String × V → A → Result ConfigError A)
    → List (String × V)
    → A
    → Result ConfigError A
set_fields set [] a = ok a
set_fields set (entry ∷ rest) a = set entry a >>= set_fields set rest

module _ {Value : Type 0} (de : Deserializer Value) where
  unfoldable pub read_table :
      {A : Type 0} → (String × Value → A → Result ConfigError A) → A → Value → Result ConfigError A
  unfolding set_fields
  read_table set default value = de.entries value >>= λ es. set_fields set es default

  unfoldable pub duration_from_secs : Value → Result ConfigError Duration
  duration_from_secs v = map_ok from_secs (de.u64 v)

  unfoldable pub duration_from_millis : Value → Result ConfigError Duration
  duration_from_millis v = map_ok from_millis (de.u64 v)

  unfoldable pub set_streams : String × Value → Streams → Result ConfigError Streams
  set_streams (name, v) c =
      if name == "events"
      then map_ok (λ x. record c { events = x }) (de.string v)
      else err (de.unknown_field name)

  unfoldable pub set_redis : String × Value → RedisConfig → Result ConfigError RedisConfig
  unfolding read_table set_streams duration_from_secs
  set_redis (name, v) c =
      if name == "host"
      then map_ok (λ x. record c { host = x }) (de.string v)
      else if name == "port"
      then map_ok (λ x. record c { port = x }) (de.u16 v)
      else if name == "cache_ttl_secs"
      then map_ok (λ x. record c { cache_ttl = x }) (duration_from_secs v)
      else if name == "streams"
      then map_ok (λ x. record c { streams = x }) (read_table set_streams default_streams v)
      else err (de.unknown_field name)

  unfoldable pub set_database : String × Value → DatabaseConfig → Result ConfigError DatabaseConfig
  set_database (name, v) c =
      if name == "host"
      then map_ok (λ x. record c { host = x }) (de.string v)
      else if name == "port"
      then map_ok (λ x. record c { port = x }) (de.u16 v)
      else if name == "user"
      then map_ok (λ x. record c { user = x }) (de.string v)
      else if name == "password"
      then map_ok (λ x. record c { password = x }) (de.string v)
      else if name == "db_name"
      then map_ok (λ x. record c { db_name = x }) (de.string v)
      else err (de.unknown_field name)

  unfoldable pub set_logging : String × Value → LoggingConfig → Result ConfigError LoggingConfig
  set_logging (name, v) c =
      if name == "level"
      then map_ok (λ x. record c { level = x }) (de.string v)
      else if name == "enabled"
      then map_ok (λ x. record c { enabled = x }) (de.bool v)
      else if name == "otlp_endpoint"
      then map_ok (λ x. record c { otlp_endpoint = x }) (de.optional v)
      else err (de.unknown_field name)

  unfoldable pub set_gateway :
      String × Value → GatewayServiceConfig → Result ConfigError GatewayServiceConfig
  set_gateway (name, v) c =
      if name == "host"
      then map_ok (λ x. record c { host = x }) (de.string v)
      else if name == "port"
      then map_ok (λ x. record c { port = x }) (de.u16 v)
      else err (de.unknown_field name)

  unfoldable pub set_core :
      String × Value → CoreServiceConfig → Result ConfigError CoreServiceConfig
  set_core (name, v) c =
      if name == "host"
      then map_ok (λ x. record c { host = x }) (de.string v)
      else if name == "port"
      then map_ok (λ x. record c { port = x }) (de.u16 v)
      else err (de.unknown_field name)

  unfoldable pub set_analytics :
      String × Value → AnalyticsServiceConfig → Result ConfigError AnalyticsServiceConfig
  unfolding duration_from_secs duration_from_millis
  set_analytics (name, v) c =
      if name == "host"
      then map_ok (λ x. record c { host = x }) (de.string v)
      else if name == "port"
      then map_ok (λ x. record c { port = x }) (de.u16 v)
      else if name == "read_batch_size"
      then map_ok (λ x. record c { read_batch_size = x }) (de.usize v)
      else if name == "read_block_millis"
      then map_ok (λ x. record c { read_block = x }) (duration_from_millis v)
      else if name == "flush_interval_secs"
      then map_ok (λ x. record c { flush_interval = x }) (duration_from_secs v)
      else err (de.unknown_field name)

  unfoldable pub set_app : String × Value → AppConfig → Result ConfigError AppConfig
  unfolding read_table set_redis set_database set_logging set_gateway set_core set_analytics
  set_app (name, v) c =
      if name == "redis"
      then map_ok (λ x. record c { redis = x }) (read_table set_redis default_redis v)
      else if name == "database"
      then map_ok (λ x. record c { database = x }) (read_table set_database default_database v)
      else if name == "logging"
      then map_ok (λ x. record c { logging = x }) (read_table set_logging default_logging v)
      else if name == "gateway"
      then map_ok (λ x. record c { gateway = x }) (read_table set_gateway default_gateway v)
      else if name == "core"
      then map_ok (λ x. record c { core = x }) (read_table set_core default_core v)
      else if name == "analytics"
      then map_ok (λ x. record c { analytics = x }) (read_table set_analytics default_analytics v)
      else err (de.unknown_field name)
