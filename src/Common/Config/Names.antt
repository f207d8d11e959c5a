-- ===== src/Common/Config/Names.antt =====
-- common/src/config/types.rs: names that are no fields are refused at every level, which is what
-- deny_unknown_fields asks for.
pub mod Sections
use mathlib.Core.Path.{subst}
use k_url.Analytics.EventConsumer.Reading.{known}
use k_url.Analytics.Redis.{Value, has}
use k_url.Common.Config.{
  AnalyticsServiceConfig, AppConfig, CoreServiceConfig, DatabaseConfig, GatewayServiceConfig,
  LoggingConfig, RedisConfig, Streams, default_analytics, default_config, default_core,
  default_database, default_gateway, default_logging, default_redis, default_streams,
}
use k_url.Common.Config.Fields.{
  Deserializer, read_table, set_analytics, set_app, set_core, set_database, set_fields, set_gateway,
  set_logging, set_redis, set_streams,
}
use k_url.Common.Config.Validation.{ConfigError}
use k_url.Prelude.{
  All, Bool, List, Result, String, [], arith, bind-steps, false, if◌then◌else◌, inl, inr, ok, refl,
  sym, true, ◌||◌, ◌∙◌, ◌∷◌, ◌≡◌, ◌≢◌, ◌⊎◌,
}
use k_url.Prelude.Maps.{string_key, ◌==◌}

unfoldable pub member : String → List String → Bool
member name [] = false
member name (other_name ∷ rest) = name == other_name || member name rest

-- The names that each table of the configuration may have.
unfoldable pub names_of : String → List String
names_of table =
    if table == "redis"
    then "host" ∷ "port" ∷ "cache_ttl_secs" ∷ "streams" ∷ []
    else if table == "redis.streams"
    then "events" ∷ []
    else if table == "database"
    then "host" ∷ "port" ∷ "user" ∷ "password" ∷ "db_name" ∷ []
    else if table == "logging"
    then "level" ∷ "enabled" ∷ "otlp_endpoint" ∷ []
    else if table == "analytics"
    then "host" ∷ "port" ∷ "read_batch_size" ∷ "read_block_millis" ∷ "flush_interval_secs" ∷ []
    else "host" ∷ "port" ∷ []

abbrev pub tables : List String
tables = "redis" ∷ "database" ∷ "logging" ∷ "gateway" ∷ "core" ∷ "analytics" ∷ []

module _ {Value : Type 0} (de : Deserializer Value) where
  -- Every member of the table has one of the names, and its value is as it should be.
  unfoldable pub HasMembers : (String → Value → Type 0) → List String → Value → Type 0
  unfolding member
  HasMembers P names v =
      (es : List (String × Value))
      → de.entries v ≡ ok es
      → All (λ e. (member e.0 names ≡ true) × P e.0 e.1) es

  abbrev pub AnyValue : String → Value → Type 0
  AnyValue name v = Unit {0}

  -- A table of the section redis, whose streams are a table of their own.
  unfoldable pub HasStreams : String → Value → Type 0
  unfolding HasMembers names_of
  HasStreams name v = (name ≡ "streams") → HasMembers AnyValue (names_of "redis.streams") v

  unfoldable pub HasTable : String → Value → Type 0
  unfolding HasMembers HasStreams names_of
  HasTable name v =
      ((name ≡ "redis") → HasMembers HasStreams (names_of "redis") v)
      × ((name ≢ "redis") → HasMembers AnyValue (names_of name) v)

  -- A configuration with known names alone.
  unfoldable pub HasKnownNames : Value → Type 0
  unfolding HasMembers HasTable
  HasKnownNames v = HasMembers HasTable tables v

  set_fields-All :
      {A : Type 0} (P : String × Value → Type 0) (set : String × Value → A → Result ConfigError A)
      → ((e : String × Value) (a b : A) → set e a ≡ ok b → P e)
      → (es : List (String × Value)) (a b : A) → set_fields set es a ≡ ok b
      → All P es
  unfolding set_fields
  set_fields-All P set kept [] a b h = tt
  set_fields-All P set kept (e ∷ es) a b h =
      let (c, one, rest) = bind-steps (set e a) _ h in
      (kept e a c one, set_fields-All P set kept es c b rest)

  pub read_table-HasMembers :
      {A : Type 0} (P : String → Value → Type 0) (names : List String)
      (set : String × Value → A → Result ConfigError A) (default c : A) (v : Value)
      → ((name : String) (w : Value) (a b : A)
          → set (name, w) a ≡ ok b
          → (member name names ≡ true) × P name w)
      → read_table de set default v ≡ ok c
      → HasMembers P names v
  unfolding read_table HasMembers
  read_table-HasMembers P names set default c v kept h = λ es members.
      let (fields, found, done) = bind-steps (de.entries v) _ h in
      set_fields-All (λ e. (member e.0 names ≡ true) × P e.0 e.1) set
        (λ e a b one. kept e.0 e.1 a b one) es default c (ground (arith, found, members, done))

  pub set_streams-names :
      (name : String) (w : Value) (a b : Streams)
      → set_streams de (name, w) a ≡ ok b
      → (member name (names_of "redis.streams") ≡ true) × Unit {0}
  unfolding set_streams member names_of
  set_streams-names name w a b h = (ground (arith, h), tt)

  pub set_database-names :
      (name : String) (w : Value) (a b : DatabaseConfig)
      → set_database de (name, w) a ≡ ok b
      → (member name (names_of "database") ≡ true) × Unit {0}
  unfolding set_database member names_of
  set_database-names name w a b h = (ground (arith, h), tt)

  pub set_logging-names :
      (name : String) (w : Value) (a b : LoggingConfig)
      → set_logging de (name, w) a ≡ ok b
      → (member name (names_of "logging") ≡ true) × Unit {0}
  unfolding set_logging member names_of
  set_logging-names name w a b h = (ground (arith, h), tt)

  pub set_gateway-names :
      (name : String) (w : Value) (a b : GatewayServiceConfig)
      → set_gateway de (name, w) a ≡ ok b
      → (member name (names_of "gateway") ≡ true) × Unit {0}
  unfolding set_gateway member names_of
  set_gateway-names name w a b h = (ground (arith, h), tt)

  pub set_core-names :
      (name : String) (w : Value) (a b : CoreServiceConfig)
      → set_core de (name, w) a ≡ ok b
      → (member name (names_of "core") ≡ true) × Unit {0}
  unfolding set_core member names_of
  set_core-names name w a b h = (ground (arith, h), tt)

  pub set_analytics-names :
      (name : String) (w : Value) (a b : AnalyticsServiceConfig)
      → set_analytics de (name, w) a ≡ ok b
      → (member name (names_of "analytics") ≡ true) × Unit {0}
  unfolding set_analytics member names_of
  set_analytics-names name w a b h = (ground (arith, h), tt)

  streams_read :
      (w : Value) (a b : RedisConfig)
      → set_redis de ("streams", w) a ≡ ok b
      → read_table de (set_streams de) default_streams w ≡ ok b.streams
  unfolding set_redis
  streams_read w a b h = ground (arith, h)

  pub set_redis-names :
      (name : String) (w : Value) (a b : RedisConfig)
      → set_redis de (name, w) a ≡ ok b
      → (member name (names_of "redis") ≡ true) × HasStreams name w
  unfolding set_redis member names_of HasStreams
  set_redis-names name w a b h = (
    ground (arith, h),
    λ named.
        read_table-HasMembers AnyValue (names_of "redis.streams") (set_streams de) default_streams
          b.streams w set_streams-names
          (streams_read w a b (subst (λ n. set_redis de (n, w) a ≡ ok b) named h)),
  )
