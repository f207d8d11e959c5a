-- ===== src/Gateway/Startup.antt =====
-- gateway/src/init.rs, and gateway/src/main.rs up to the start of the server. The drivers, the sources
-- of the configuration, the parser of addresses and the binding of a socket are parameters.
use Prim.Native.String.{◌++◌}
use text.Mathlib.TextLemmas.{append_assoc}
use k_url.Common.Config.{
  AppConfig, GatewayConfig, gateway_config, show_analytics, show_core, show_service,
}
use k_url.Common.Config.Fields.{Deserializer}
use k_url.Common.Config.Loader.{Environment, File, load}
use k_url.Common.Config.Validation.{ConfigError}
use k_url.Common.Connections.{ConnectError, Drivers, connect_redis, retry_connection, try_join}
use k_url.Common.Retry.Strategies.{JitterTy}
use k_url.Gateway.InFlight.{Client, new}
use k_url.Prelude.{
  Bool, Option, Result, String, err, if◌then◌else◌, map_err, ok, ℕ, ◌≡◌, ◌>>=◌, sym,
}
use k_url.Prelude.Faults.{Fault, panicked, raised}
use k_url.Prelude.Time.{Duration}

-- How main ends before the server runs, other than by a panic.
pub data StartError : Type 0 where
  bad_config : ConfigError → StartError
  bad_address cannot_bind : StartError

-- What the process finds outside: whether the text of an address is one, and can be bound.
pub record Outside : Type 0 where
  pub parses : String → Bool
  pub binds : String → Bool

-- What the gateway is made of when its server starts: the cache, the channels to the services, and the
-- requests in flight.
pub record Gateway (Pool Core Analytics : Type 0) : Type 0 where
  pub config : GatewayConfig
  pub redis : Pool
  pub core : Core
  pub core_client : Client
  pub analytics_client : Analytics

module _ {E Pg Pool Connection Core Analytics Value : Type 0}
    (drivers : Drivers E Pg Pool Connection) (connect_core : String → ℕ → Result E Core)
    (connect_analytics : String → ℕ → Result E Analytics)
    (scale : JitterTy → ℕ → Duration → Duration) (to_string : ℕ → String) (blank : String → Bool)
    (de : Deserializer Value) (build : File → Environment → Result ConfigError Value) where
  -- The three connections, with which of two errors comes first.
  unfoldable pub init :
      Bool → Bool → GatewayConfig → Result (ConnectError E) (Pool × (Core × Analytics))
  unfolding connect_redis retry_connection show_service try_join
  init redis_first core_first config =
      let core_url = show_service to_string config.core in
      let analytics_url = show_service to_string config.analytics in
      try_join redis_first (connect_redis scale drivers to_string config.redis) (
        try_join core_first (retry_connection scale "Core gRPC" (connect_core core_url))
          (retry_connection scale "Analytics gRPC" (connect_analytics analytics_url)))

  abbrev ensure : Bool → Fault StartError → Result (Fault StartError) (Unit {0})
  ensure test e = if test then ok tt else err e

  unfoldable pub start_main :
      Outside
      → Bool
      → Bool
      → Option String
      → Result (Fault StartError) (Gateway Pool Core Analytics)
  unfolding load gateway_config init new
  start_main outside redis_first core_first explicit_path = do
    value ← map_err (λ e. raised (bad_config e)) (load blank de build explicit_path)
    let config = gateway_config value
    made ← map_err (λ e. panicked) (init redis_first core_first config)
    let addr = "0.0.0.0:" ++ to_string config.gateway.port
    _ ← ensure (outside.parses addr) (raised bad_address)
    _ ← ensure (outside.binds addr) (raised cannot_bind)
    ok (record {
      config = config;
      redis = made.0;
      core = made.1.0;
      core_client = new;
      analytics_client = made.1.1;
    })

-- The addresses of the services as the gateway writes them are those that the services write of
-- themselves.
pub show_service-gateway_config :
    (to_string : ℕ → String) (c : AppConfig)
    → (show_service to_string (gateway_config c).core ≡ show_core to_string c.core)
      × (show_service to_string (gateway_config c).analytics ≡ show_analytics to_string c.analytics)
unfolding show_service gateway_config show_core show_analytics
show_service-gateway_config to_string c = (
  sym (append_assoc "grpc" "://" (c.core.host ++ (":" ++ to_string c.core.port))),
  sym (append_assoc "grpc" "://" (c.analytics.host ++ (":" ++ to_string c.analytics.port))),
)
