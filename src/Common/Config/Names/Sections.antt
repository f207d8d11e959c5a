-- ===== src/Common/Config/Names/Sections.antt =====
-- common/src/config/types.rs: the names in the tables of a whole configuration.
use k_url.Analytics.Redis.{has}
use k_url.Common.Config.{
  AppConfig, default_analytics, default_config, default_core, default_database, default_gateway,
  default_logging, default_redis,
}
use k_url.Common.Config.Fields.{
  Deserializer, read_table, set_analytics, set_app, set_core, set_database, set_gateway,
  set_logging, set_redis,
}
use k_url.Common.Config.Names.{
  AnyValue, HasKnownNames, HasMembers, HasStreams, HasTable, member, names_of,
  read_table-HasMembers, set_analytics-names, set_core-names, set_database-names, set_gateway-names,
  set_logging-names, set_redis-names, tables,
}
use k_url.Prelude.{String, arith, false, inl, inr, ok, refl, sym, true, ◌∙◌, ◌≡◌, ◌≢◌, ◌⊎◌}
use k_url.Prelude.Maps.{string_key, ◌==◌}

module _ {Value : Type 0} (de : Deserializer Value) where
  -- What a section was read as.
  abbrev Section : String → Value → AppConfig → Type 0
  Section name w b =
      ((name ≡ "redis") × (read_table de (set_redis de) default_redis w ≡ ok b.redis))
      ⊎ ((name ≡ "database") × (read_table de (set_database de) default_database w ≡ ok b.database))
      ⊎ ((name ≡ "logging") × (read_table de (set_logging de) default_logging w ≡ ok b.logging))
      ⊎ ((name ≡ "gateway") × (read_table de (set_gateway de) default_gateway w ≡ ok b.gateway))
      ⊎ ((name ≡ "core") × (read_table de (set_core de) default_core w ≡ ok b.core))
      ⊎ ((name ≡ "analytics")
          × (read_table de (set_analytics de) default_analytics w ≡ ok b.analytics))

  set_app-Section :
      (name : String) (w : Value) (a b : AppConfig)
      → set_app de (name, w) a ≡ ok b
      → Section name w b
  unfolding set_app
  set_app-Section name w a b h = ground (
    arith,
    h,
    string_key.same_iff name "redis",
    string_key.same_iff name "database",
    string_key.same_iff name "logging",
    string_key.same_iff name "gateway",
    string_key.same_iff name "core",
    string_key.same_iff name "analytics",
  )

  -- A section other than redis has the plain names of its table.
  plain_section :
      (table name : String) (w : Value)
      → name ≡ table
      → member table tables ≡ true
      → (table == "redis") ≡ false
      → HasMembers de (AnyValue de) (names_of table) w
      → (member name tables ≡ true) × HasTable de name w
  unfolding HasTable
  plain_section table name w named known apart has =
      (rw named known, (λ same. absurd (differs same), λ _. rw named has))
    where
      differs : name ≢ "redis"
      differs same = ground (arith, (string_key.same_iff table "redis").1 (sym named ∙ same))

  Section-names :
      (name : String) (w : Value) (b : AppConfig)
      → Section name w b
      → (member name tables ≡ true) × HasTable de name w
  unfolding HasTable member
  Section-names name w b (inl (named, read)) = (
    rw named refl,
    (
      λ same.
          read_table-HasMembers de (HasStreams de) (names_of "redis") (set_redis de) default_redis
            b.redis w (set_redis-names de) read,
      λ apart. absurd (apart named),
    ),
  )
  Section-names name w b (inr (inl (named, read))) =
      plain_section "database" name w named refl refl (
        read_table-HasMembers de (AnyValue de) (names_of "database") (set_database de)
          default_database b.database w (set_database-names de) read)
  Section-names name w b (inr (inr (inl (named, read)))) =
      plain_section "logging" name w named refl refl (
        read_table-HasMembers de (AnyValue de) (names_of "logging") (set_logging de) default_logging
          b.logging w (set_logging-names de) read)
  Section-names name w b (inr (inr (inr (inl (named, read))))) =
      plain_section "gateway" name w named refl refl (
        read_table-HasMembers de (AnyValue de) (names_of "gateway") (set_gateway de) default_gateway
          b.gateway w (set_gateway-names de) read)
  Section-names name w b (inr (inr (inr (inr (inl (named, read)))))) =
      plain_section "core" name w named refl refl (
        read_table-HasMembers de (AnyValue de) (names_of "core") (set_core de) default_core b.core w
          (set_core-names de) read)
  Section-names name w b (inr (inr (inr (inr (inr (named, read)))))) =
      plain_section "analytics" name w named refl refl (
        read_table-HasMembers de (AnyValue de) (names_of "analytics") (set_analytics de)
          default_analytics b.analytics w (set_analytics-names de) read)

  pub read_table-HasKnownNames :
      (v : Value) (c : AppConfig)
      → read_table de (set_app de) default_config v ≡ ok c
      → HasKnownNames de v
  unfolding HasKnownNames
  read_table-HasKnownNames v c read =
      read_table-HasMembers de (HasTable de) tables (set_app de) default_config c v
        (λ name w a b one. Section-names name w b (set_app-Section name w a b one)) read
