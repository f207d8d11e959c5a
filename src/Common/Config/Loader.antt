-- ===== src/Common/Config/Loader.antt =====
-- common/src/config/loader.rs and the function load of common/src/config/mod.rs: the configuration from
-- a file and the environment.
use Prim.Native.String.{◌++◌}
use k_url.Common.Config.{AppConfig, DatabaseConfig, default_database, default_config}
use k_url.Common.Config.Fields.{Deserializer, read_table, set_app, set_database}
use k_url.Common.Config.Validation.{ConfigError, message, validate, validate_database}
use k_url.Prelude.{
  Bool, Option, Result, String, err, false, if◌then◌else◌, none, ok, some, true, ◌>>=◌,
}
use k_url.Prelude.Faults.{Fault, panicked}
use k_url.Prelude.Maps.{◌==◌, string_key}

abbrev pub config_file_env : String
config_file_env = "KURLYK_CONFIG_FILE"

abbrev pub default_config_file : String
default_config_file = "./config/config.toml"

-- config::File
pub record File : Type 0 where
  pub path : String
  pub required : Bool

-- config::Environment
pub record Environment : Type 0 where
  pub prefix : String
  pub prefix_separator : String
  pub separator : String
  pub try_parsing : Bool

unfoldable pub app_environment : Environment
app_environment = record {
  prefix = "APP";
  prefix_separator = "_";
  separator = "__";
  try_parsing = true;
}

unfoldable pub config_file : Option String → String → Result ConfigError File
config_file (some path) fallback_path =
    if path == ""
    then err (message (config_file_env ++ " must not be empty"))
    else ok (record { path = path; required = true })
config_file none fallback_path = ok (record { path = fallback_path; required = false })

module _ {Value : Type 0} (de : Deserializer Value) where
  -- The member of a table that is named database; the others are ignored.
  unfoldable pub set_database_only :
      String × Value → DatabaseConfig → Result ConfigError DatabaseConfig
  unfolding read_table set_database
  set_database_only (name, v) c =
      if name == "database" then read_table de (set_database de) default_database v else ok c

-- `blank` is `trim().is_empty()` of a text, and `build` is `Config::builder()` with a file and then an
-- environment added, on the files and the variables that are there.
module _ (blank : String → Bool) {Value : Type 0} (de : Deserializer Value)
    (build : File → Environment → Result ConfigError Value) where
  unfoldable pub load_sources : File → Environment → Result ConfigError AppConfig
  unfolding set_app validate read_table
  load_sources file env = do
    value ← build file env
    config ← read_table de (set_app de) default_config value
    _ ← validate blank config
    ok config

  unfoldable pub load_database_sources : File → Environment → Result ConfigError DatabaseConfig
  unfolding set_database_only validate_database read_table
  load_database_sources file env = do
    value ← build file env
    database ← read_table de (set_database_only de) default_database value
    _ ← validate_database blank database
    ok database

  -- AppConfig::load, with the value of the environment variable for the file.
  unfoldable pub load : Option String → Result ConfigError AppConfig
  unfolding config_file load_sources app_environment
  load explicit_path = do
    file ← config_file explicit_path default_config_file
    load_sources file app_environment

  unfoldable pub load_database : Option String → Result ConfigError DatabaseConfig
  unfolding config_file load_database_sources app_environment
  load_database explicit_path = do
    file ← config_file explicit_path default_config_file
    load_database_sources file app_environment

  -- The function load of common/src/config/mod.rs, which panics where there is no configuration.
  unfoldable pub load_as :
      {T : Type 0} → (AppConfig → T) → Option String → Result (Fault ConfigError) T
  unfolding load
  load_as from explicit_path = elim (load explicit_path) [
    | ok config ↦ ok (from config)
    | err e ↦ err panicked
  ]
