-- ===== src/Common/Config/Validation.antt =====
-- common/src/config/validation.rs: what a configuration must satisfy. `blank` is
-- `trim().is_empty()` of a text.
use Prim.Native.String.{◌++◌}
use k_url.Common.Config.{
  AnalyticsServiceConfig, AppConfig, CoreServiceConfig, DatabaseConfig, GatewayServiceConfig,
  LoggingConfig, RedisConfig, Streams,
}
use k_url.Prelude.{
  Bool, Result, String, err, false, leb, not, ok, true, ℕ, ◌&&◌, ◌<◌, ◌==◌, ◌>>◌, ◌≡◌, ◌≤◌, ◌↔◌,
  arith,
}
use k_url.Prelude.Time.{as_millis}

-- config::ConfigError: the variant that the source makes, and what the crate says on its own.
pub data ConfigError : Type 0 where
  message : String → ConfigError
  of_crate : String → ConfigError

abbrev Check : Type 0
Check = Result ConfigError (Unit {0})

invalid : String → String → Check
invalid field text = err (message ("invalid configuration `" ++ (field ++ ("`: " ++ text))))

unfoldable pub require : Bool → String → String → Check
unfolding invalid
require true field text = ok tt
require false field text = invalid field text

unfoldable pub require_port : ℕ → String → Check
unfolding require
require_port port field = require (not (port == 0)) field "must be greater than zero"

module _ (blank : String → Bool) where
  unfoldable pub require_non_blank : String → String → Check
  unfolding require
  require_non_blank value field = require (not (blank value)) field "must not be blank"

  unfoldable pub validate_streams : Streams → Check
  unfolding require_non_blank
  validate_streams s = require_non_blank s.events "redis.streams.events"

  unfoldable pub validate_redis : RedisConfig → Check
  unfolding validate_streams require_port
  validate_redis r =
      require_non_blank r.host "redis.host"
      >> require_port r.port "redis.port"
      >> require (not (r.cache_ttl == 0)) "redis.cache_ttl_secs" "must be greater than zero"
      >> validate_streams r.streams

  unfoldable pub validate_database : DatabaseConfig → Check
  unfolding require_non_blank require_port
  validate_database d =
      require_non_blank d.host "database.host"
      >> require_port d.port "database.port"
      >> require_non_blank d.user "database.user"
      >> require_non_blank d.db_name "database.db_name"

  unfoldable pub validate_logging : LoggingConfig → Check
  unfolding require_non_blank
  validate_logging l = require_non_blank l.level "logging.level"

  unfoldable pub validate_gateway : GatewayServiceConfig → Check
  unfolding require_non_blank require_port
  validate_gateway g = require_non_blank g.host "gateway.host" >> require_port g.port "gateway.port"

  unfoldable pub validate_core : CoreServiceConfig → Check
  unfolding require_non_blank require_port
  validate_core c = require_non_blank c.host "core.host" >> require_port c.port "core.port"

  unfoldable pub validate_analytics : AnalyticsServiceConfig → Check
  unfolding require_non_blank require_port
  validate_analytics a =
      require_non_blank a.host "analytics.host"
      >> require_port a.port "analytics.port"
      >> require (not (a.read_batch_size == 0)) "analytics.read_batch_size"
          "must be greater than zero"
      >> require (leb 1 (as_millis a.read_block) && leb (as_millis a.read_block) 500)
          "analytics.read_block_millis" "must be between 1 and 500"
      >> require (not (a.flush_interval == 0)) "analytics.flush_interval_secs"
          "must be greater than zero"

  unfoldable pub validate : AppConfig → Check
  unfolding validate_redis validate_database validate_logging validate_gateway validate_core
      validate_analytics
  validate c =
      validate_redis c.redis
      >> validate_database c.database
      >> validate_logging c.logging
      >> validate_gateway c.gateway
      >> validate_core c.core
      >> validate_analytics c.analytics

  -- A host and a port that can be reached.
  abbrev pub Reachable : String → ℕ → Type 0
  Reachable host port = (blank host ≡ false) × (0 < port)

  pub record IsValid (c : AppConfig) : Type 0 where
    pub redis : Reachable c.redis.host c.redis.port
    pub redis_ttl : 0 < c.redis.cache_ttl
    pub events : blank c.redis.streams.events ≡ false
    pub database : Reachable c.database.host c.database.port
    pub names : (blank c.database.user ≡ false) × (blank c.database.db_name ≡ false)
    pub level : blank c.logging.level ≡ false
    pub gateway : Reachable c.gateway.host c.gateway.port
    pub core : Reachable c.core.host c.core.port
    pub analytics : Reachable c.analytics.host c.analytics.port
    pub batch : 0 < c.analytics.read_batch_size
    pub read_block :
        (1 ≤ as_millis c.analytics.read_block) × (as_millis c.analytics.read_block ≤ 500)
    pub flush : 0 < c.analytics.flush_interval

  -- A configuration is accepted exactly where every constraint holds.
  pub validate-IsValid : (c : AppConfig) → (validate c ≡ ok tt) ↔ IsValid c
  unfolding validate
  validate-IsValid c = (
    λ h. record {
      redis = ground arith;
      redis_ttl = ground arith;
      events = ground arith;
      database = ground arith;
      names = ground arith;
      level = ground arith;
      gateway = ground arith;
      core = ground arith;
      analytics = ground arith;
      batch = ground arith;
      read_block = ground arith;
      flush = ground arith;
    },
    λ v. ground (
      arith, v.redis, v.redis_ttl, v.events, v.database, v.names, v.level, v.gateway, v.core,
      v.analytics, v.batch, v.read_block, v.flush,
    ),
  )
