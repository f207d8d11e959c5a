-- ===== src/Core/Startup.antt =====
-- core/src/init.rs, and core/src/main.rs up to the start of the server. The drivers, the sources of the
-- configuration, the parser of addresses and the binding of a socket are parameters.
use Prim.Native.String.{◌++◌}
use k_url.Common.Config.{CoreConfig, core_config}
use k_url.Common.Config.Fields.{Deserializer}
use k_url.Common.Config.Loader.{Environment, File, load}
use k_url.Common.Config.Validation.{ConfigError}
use k_url.Common.Connections.{ConnectError, Drivers, connect_postgres, connect_redis, try_join}
use k_url.Common.Retry.Strategies.{JitterTy}
use k_url.Core.Cache.{Redis}
use k_url.Core.Main.{Process, started}
use k_url.Core.Repository.{LinkRepository}
use k_url.Core.Service.{Env}
use k_url.Prelude.{Bool, Option, Result, String, err, if◌then◌else◌, ok, ℕ, ◌>>=◌}
use k_url.Prelude.Faults.{Fault, panicked, raised}
use k_url.Prelude.Time.{Duration}

-- What ends main before the server runs, other than a panic.
pub data StartError : Type 0 where
  bad_address cannot_bind : StartError

-- What the process finds outside: whether the text of an address is one, and can be bound; and
-- which connection fails first where both do.
pub record Outside : Type 0 where
  pub parses : String → Bool
  pub binds : String → Bool
  pub postgres_first : Bool

module _ (db : LinkRepository) {E Connection Value : Type 0}
    (drivers : Drivers E db.Store Redis Connection) (scale : JitterTy → ℕ → Duration → Duration)
    (to_string : ℕ → String) (blank : String → Bool) (de : Deserializer Value)
    (build : File → Environment → Result ConfigError Value) where
  unfoldable pub init : Bool → CoreConfig → Result (ConnectError E) (db.Store × Redis)
  unfolding connect_postgres connect_redis try_join
  init postgres_first config =
      try_join postgres_first (connect_postgres scale drivers to_string config.database)
        (connect_redis scale drivers to_string config.redis)

  -- `.expect(…)`
  abbrev expect : {F A : Type 0} → Result F A → Result (Fault StartError) A
  expect r = elim r [ ok a ↦ ok a | err e ↦ err panicked ]

  abbrev ensure : Bool → StartError → Result (Fault StartError) (Unit {0})
  ensure test e = if test then ok tt else err (raised e)

  unfoldable pub start_main :
      Env db → Outside → Option String → Result (Fault StartError) ((env : Env db) × Process db env)
  unfolding load core_config init started
  start_main env outside explicit_path = do
    value ← expect (load blank de build explicit_path)
    pools ← expect (init outside.postgres_first (core_config value))
    let addr = "0.0.0.0:" ++ to_string value.core.port
    _ ← ensure (outside.parses addr) bad_address
    _ ← ensure (outside.binds addr) cannot_bind
    let own : Env db = record env { cache_ttl = value.redis.cache_ttl }
    ok (own, started db own pools.0 pools.1)

  value_or : {F A : Type 0} → A → Result F A → A
  value_or a (ok b) = b
  value_or a (err e) = a
