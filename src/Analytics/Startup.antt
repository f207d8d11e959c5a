-- ===== src/Analytics/Startup.antt =====
-- analytics/src/init.rs, and analytics/src/main.rs up to the start of its tasks. The drivers, the sources
-- of the configuration and the parser of addresses are parameters.
use Prim.Native.String.{◌++◌}
use k_url.Common.Config.{AnalyticsConfig, analytics_config}
use k_url.Common.Config.Fields.{Deserializer}
use k_url.Common.Config.Loader.{Environment, File, load_as}
use k_url.Common.Config.Validation.{ConfigError}
use k_url.Common.Connections.{ConnectError, Drivers, connect_postgres, connect_redis, try_join}
use k_url.Common.Retry.Strategies.{JitterTy}
use k_url.Prelude.{Bool, Option, Result, String, err, if◌then◌else◌, map_err, ok, ℕ, ◌>>=◌}
use k_url.Prelude.Faults.{Fault, panicked, raised}
use k_url.Prelude.Time.{Duration}

module _ {E Pg Pool Connection Value : Type 0} (drivers : Drivers E Pg Pool Connection)
    (scale : JitterTy → ℕ → Duration → Duration) (to_string : ℕ → String) (blank : String → Bool)
    (de : Deserializer Value) (build : File → Environment → Result ConfigError Value) where
  unfoldable pub init : Bool → AnalyticsConfig → Result (ConnectError E) (Pg × Pool)
  unfolding connect_postgres connect_redis try_join
  init postgres_first config =
      try_join postgres_first (connect_postgres scale drivers to_string config.database)
        (connect_redis scale drivers to_string config.redis)

  abbrev ensure : Bool → Fault (ConnectError E) → Result (Fault (ConnectError E)) (Unit {0})
  ensure test e = if test then ok tt else err e

  -- What the event consumer and the service are given, with `parses` for the text of an address.
  unfoldable pub start_main :
      (String → Bool)
      → Bool
      → Option String
      → Result (Fault (ConnectError E)) (AnalyticsConfig × (Pg × Pool))
  unfolding load_as analytics_config init
  start_main parses postgres_first explicit_path = do
    config ← map_err (λ e. panicked) (load_as blank de build analytics_config explicit_path)
    pools ← map_err (λ e. raised e) (init postgres_first config)
    _ ← ensure (parses ("0.0.0.0:" ++ to_string config.analytics.port)) panicked
    ok (config, pools)
