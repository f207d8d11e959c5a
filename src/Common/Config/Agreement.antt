-- ===== src/Common/Config/Agreement.antt =====
-- common/src/config/loader.rs: what the two loaders of the configuration promise.
use mathlib.Core.Path.{subst}
use k_url.Common.Config.{AppConfig, default_config}
use k_url.Common.Config.Fields.{Deserializer, read_table, set_app, set_fields}
use k_url.Common.Config.Loader.{
  Environment, File, app_environment, config_file, default_config_file, load, load_database,
  load_database_sources, load_sources, set_database_only,
}
use k_url.Common.Config.Names.{HasKnownNames}
use k_url.Common.Config.Names.Sections.{read_table-HasKnownNames}
use k_url.Common.Config.Validation.{
  ConfigError, IsValid, validate, validate-IsValid, validate_database,
}
use k_url.Prelude.{
  Bool, Bool-cases, List, Option, Result, Result-cases, String, [], arith, bind-steps, inl, inr, ok,
  refl, some, ◌∷◌, ◌≡◌, ◌≢◌,
}
use k_url.Prelude.Maps.{string_key, ◌==◌}

module _ (blank : String → Bool) {Value : Type 0} (de : Deserializer Value)
    (build : File → Environment → Result ConfigError Value) where
  database_member :
      (v : Value) (c d : AppConfig)
      → set_app de ("database", v) c ≡ ok d
      → set_database_only de ("database", v) c.database ≡ ok d.database
  unfolding set_app set_database_only
  database_member v c d h = ground (arith, h)

  -- One member sets the same database in both.
  set_app-database :
      (entry : String × Value) (c d : AppConfig)
      → set_app de entry c ≡ ok d
      → set_database_only de entry c.database ≡ ok d.database
  unfolding set_app set_database_only
  set_app-database (name, v) c d h = elim (Bool-cases (name == "database")) [
    | inr apart ↦ ground (arith, apart, h)
    | inl same ↦
        let named = (string_key.same_iff name "database").0 same in
        rw named (database_member v c d (subst (λ n. set_app de (n, v) c ≡ ok d) named h))
  ]

  set_fields-database :
      (es : List (String × Value)) (c d : AppConfig)
      → set_fields (set_app de) es c ≡ ok d
      → set_fields (set_database_only de) es c.database ≡ ok d.database
  unfolding set_fields
  set_fields-database [] c d h = ground arith
  set_fields-database (e ∷ es) c d h = elim (Result-cases (set_app de e c)) [
    | inl (b, set) ↦
        rw (set_app-database e c b set) (set_fields-database es b d (ground (arith, set)))
    | inr (x, failed) ↦ absurd (ground (arith, failed))
  ]

  -- The database alone is valid where the whole configuration is.
  validate-database :
      (c : AppConfig) → validate blank c ≡ ok tt → validate_database blank c.database ≡ ok tt
  unfolding validate
  validate-database c h = ground arith

  load_sources-database :
      (file : File) (env : Environment) (c : AppConfig)
      → load_sources blank de build file env ≡ ok c
      → IsValid blank c × (load_database_sources blank de build file env ≡ ok c.database)
  unfolding load_sources load_database_sources
  load_sources-database file env c h =
      let (v, built, read) = bind-steps (build file env) _ h in
      let (b, fields, checked) = bind-steps (read_table de (set_app de) default_config v) _ read in
      let (u, valid, same) = bind-steps (validate blank b) _ checked in
      let (es, members, set) = bind-steps (de.entries v) _ fields in
      let at_c : b ≡ c = ground (arith, same) in
      let database = set_fields-database es default_config c (ground (arith, set, at_c)) in
      let valid_c : validate blank c ≡ ok tt = ground (arith, valid, at_c) in
      (
        (validate-IsValid blank c).0 valid_c,
        rw (built, members, database, validate-database c valid_c) refl,
      )

  -- Where a configuration is loaded, it satisfies every constraint, and the database that the other
  -- loader gives for the same file and environment is its own.
  pub load_database-load :
      (explicit_path : Option String) (c : AppConfig)
      → load blank de build explicit_path ≡ ok c
      → IsValid blank c × (load_database blank de build explicit_path ≡ ok c.database)
  unfolding load load_database
  load_database-load explicit_path c h =
      elim (Result-cases (config_file explicit_path default_config_file)) [
        | inr (e, failed) ↦ absurd (ground (arith, failed))
        | inl (file, found) ↦
            let (valid, same) =
              load_sources-database file app_environment c (ground (arith, found)) in
            (valid, rw found same)
      ]

  empty_path : (file : File) → config_file (some "") default_config_file ≢ ok file
  unfolding config_file
  empty_path file h = cc

  -- Where a configuration is loaded, the sources have no name at any level, that of the tables, of
  -- their members and of the streams of redis, that is not a field; and the file was not named by the
  -- empty text. So a misspelt name or an empty path is an error and never a default.
  pub load-HasKnownNames :
      (explicit_path : Option String) (c : AppConfig)
      → load blank de build explicit_path ≡ ok c
      → (explicit_path ≢ some "")
        × (file : File) × (v : Value) × (config_file explicit_path default_config_file ≡ ok file)
        × (build file app_environment ≡ ok v)
        × HasKnownNames de v
  unfolding load load_sources
  load-HasKnownNames explicit_path c h =
      let (file, named, loaded) = bind-steps (config_file explicit_path default_config_file) _ h in
      let (v, built, read) = bind-steps (build file app_environment) _ loaded in
      let (b, fields, checked) = bind-steps (read_table de (set_app de) default_config v) _ read in
      (
        λ empty.
            empty_path file (subst (λ p. config_file p default_config_file ≡ ok file) empty named),
        file,
        v,
        named,
        built,
        read_table-HasKnownNames de v b fields,
      )
