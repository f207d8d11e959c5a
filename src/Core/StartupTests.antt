-- ===== src/Core/StartupTests.antt =====
-- A start of the core service: no source gives a value, and the first attempt to connect fails.
use k_url.Common.Config.{default_redis}
use k_url.Common.Config.Fields.{Deserializer}
use k_url.Common.Config.Loader.{load}
use k_url.Common.Config.Validation.{ConfigError, of_crate}
use k_url.Common.Connections.{Drivers, backoff_run, retry_with_exp_backoff}
use k_url.Common.Database.{PgPool}
use k_url.Common.Retry.{into_future}
use k_url.Common.Retry.Strategies.{JitterTy}
use k_url.Core.Cache.{Redis}
use k_url.Core.Main.{Process, started}
use k_url.Core.Repository.Pg.{pg_repository}
use k_url.Core.Service.{Env}
use k_url.Core.Startup.{Outside, start_main}
use k_url.Prelude.{Bool, Result, String, [], err, if◌then◌else◌, none, ok, refl, some, true, ℕ, ◌≡◌}
use k_url.Prelude.Maps.{◌==◌, nat_key, string_key}
use k_url.Prelude.Time.{Duration, from_secs}

abbrev refuses : {A : Type 0} → Result ConfigError A
refuses = err (of_crate "no value")

-- Sources with no value at all.
abbrev empty : Deserializer (Unit {0})
empty = record {
  entries = λ v. ok [];
  string = λ v. refuses;
  optional = λ v. refuses;
  bool = λ v. refuses;
  u16 = λ v. refuses;
  u64 = λ v. refuses;
  usize = λ v. refuses;
  unknown_field = λ name. of_crate name;
}

abbrev store : PgPool
store = record {
  db = record { links = []; link_daily_clicks = []; global_daily_clicks = []; total_clicks = 0 };
  outages = [];
}

abbrev drivers : Drivers String PgPool Redis (Unit {0})
drivers = record {
  connect = λ url attempt. if attempt == 0 then err "starting up" else ok store;
  create_pool = λ url. ok [];
  get = λ attempt pool. ok tt;
  ping = λ attempt connection. if attempt == 0 then err "loading" else ok tt;
}

abbrev outside : Outside
outside = record { parses = λ a. true; binds = λ a. true; postgres_first = true }

abbrev unscaled : JitterTy → ℕ → Duration → Duration
unscaled ty n d = d

abbrev decimal : ℕ → String
decimal n = "0"

abbrev is_blank : String → Bool
is_blank s = s == ""

abbrev env : Env pg_repository
env = record { cache_ttl = from_secs 300; to_system_time = λ t. some t.seconds; samples = λ i. "x" }

abbrev own : Env pg_repository
own = record env { cache_ttl = default_redis.cache_ttl }

abbrev ready : (own : Env pg_repository) × Process pg_repository own
ready = (own, started pg_repository own store [])

starts :
    start_main pg_repository drivers unscaled decimal is_blank empty
      (λ file vars. ok tt)
      env
      outside
      none
    ≡ ok ready
unfolding start_main load retry_with_exp_backoff backoff_run into_future
starts = refl
