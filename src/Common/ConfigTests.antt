-- ===== src/Common/ConfigTests.antt =====
-- The loaders of common/src/config/loader.rs on small sources: values are tables, texts and numbers.
use Prim.Native.String.{◌++◌}
use k_url.Common.Config.{AppConfig, default_config, default_database, default_redis, show_redis}
use k_url.Common.Config.Agreement.{load-HasKnownNames, load_database-load}
use k_url.Common.Config.Fields.{Deserializer, set_app}
use k_url.Common.Config.Loader.{
  Environment, File, app_environment, config_file, default_config_file, load, load_database,
}
use k_url.Common.Config.Names.{HasKnownNames}
use k_url.Common.Config.Validation.{ConfigError, IsValid, of_crate}
use k_url.Prelude.{
  Bool, List, Result, String, [], err, if◌then◌else◌, map_ok, none, ok, refl, some, ℕ, ◌∷◌, ◌≡◌,
  ◌≢◌, Option,
}
use k_url.Prelude.Maps.{◌==◌, string_key}
use k_url.Prelude.Time.{from_secs}

mutual
  data Value : Type 0 where
    text : String → Value
    number : ℕ → Value
    table : Members → Value

  data Members : Type 0 where
    nothing : Members
    also : String → Value → Members → Members

members : Members → List (String × Value)
members nothing = []
members (also name v rest) = (name, v) ∷ members rest

abbrev refused : {A : Type 0} → Result ConfigError A
refused = err (of_crate "invalid type")

entries : Value → Result ConfigError (List (String × Value))
unfolding members
entries (text s) = refused
entries (number n) = refused
entries (table es) = ok (members es)

as_text : Value → Result ConfigError String
as_text (text s) = ok s
as_text (number n) = refused
as_text (table es) = refused

as_number : Value → Result ConfigError ℕ
as_number (text s) = refused
as_number (number n) = ok n
as_number (table es) = refused

abbrev named : Option String
named = some "kurlyk.toml"

abbrev no_text : String → Bool
no_text s = s == ""

reader : Deserializer Value
reader = record {
  entries = entries;
  string = as_text;
  optional = λ v. map_ok some (as_text v);
  bool = λ v. refused;
  u16 = as_number;
  u64 = as_number;
  usize = as_number;
  unknown_field = λ name. of_crate ("unknown field " ++ name);
}

-- The default file is not there, and another file has a database and a time to live.
sources : File → Environment → Result ConfigError Value
sources file env =
    if file.path == "kurlyk.toml"
    then ok (
        table (
          also "redis"
            (table (also "cache_ttl_secs" (number 120) (also "streams" (table nothing) nothing)))
            (also "database" (table (also "host" (text "db") nothing)) nothing)))
    else if file.required
    then err (of_crate "not found")
    else ok (table nothing)

abbrev from_file : AppConfig
from_file = record default_config {
  redis = record default_redis { cache_ttl = from_secs 120 };
  database = record default_database { host = "db" };
}

loaded : load no_text reader sources named ≡ ok from_file
unfolding load sources reader entries members as_text as_number
loaded = refl

defaults : load no_text reader sources none ≡ ok default_config
unfolding load sources reader entries members
defaults = refl

missing_file : load no_text reader sources (some "gone.toml") ≡ err (of_crate "not found")
unfolding load sources
missing_file = refl

load_database-load_example :
    IsValid no_text from_file × (load_database no_text reader sources named ≡ ok from_file.database)
load_database-load_example = load_database-load no_text reader sources named from_file loaded

load-HasKnownNames_example :
    (named ≢ some "")
    × (file : File) × (v : Value) × (config_file named default_config_file ≡ ok file)
    × (sources file app_environment ≡ ok v)
    × HasKnownNames reader v
load-HasKnownNames_example = load-HasKnownNames no_text reader sources named from_file loaded

-- A misspelt name is an error.
misspelt :
    set_app reader ("redis", table (also "prot" (number 1) nothing)) default_config
    ≡ err (of_crate "unknown field prot")
unfolding set_app reader entries members
misspelt = refl

core_address : show_redis (λ n. "6379") default_redis ≡ "redis://localhost:6379"
unfolding show_redis
core_address = refl
