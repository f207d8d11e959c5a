-- ===== src/Analytics/Persistence.antt =====
-- analytics/src/redis_persistence.rs: the counters of Redis are restored from the database, and
-- snapshots of them are merged into it.
pub mod Beside
pub mod Quiet
pub mod FlushTotals
pub mod Reads
pub mod Fields
pub mod Captured
pub mod Restores
pub mod Guarantees
pub mod Raises
pub mod Flush
pub mod Capture
pub mod Rehydrate
use k_url.Analytics.Queries
use k_url.Analytics.Merge
use Prim.Native.Char.{code}
use k_url.Analytics.Redis.{RedisError, RedisPool, Store}
use k_url.Analytics.Snapshot.{MergeOutcome, RedisSnapshot, RehydrationData}
use k_url.Common.Database.{NaiveDate, PgPool}
use k_url.Common.DbErrors.{DbError}
use k_url.Common.RedisKeys.{link_stats_key}
use k_url.Prelude.{
  List, Option, String, false, filter_by, if◌then◌else◌, map, map_err, none, some, true, ℕ, ◌+◌,
  ◌-◌, ◌==◌,
}
use k_url.Prelude.Effects.{Exec}
use k_url.Prelude.Int.{ℤ}
use k_url.Prelude.Time.{DateTime}

-- The trait SnapshotRepository of analytics/src/db/mod.rs.
pub record SnapshotRepository : Type 1 where
  pub Db : Type 0
  pub get_daily_clicks_since : NaiveDate → Exec Db DbError RehydrationData
  pub merge_snapshot : RedisSnapshot → Exec Db DbError MergeOutcome

-- SnapshotRepoPg of analytics/src/db/pg_snapshot_repo.rs.
abbrev pub snapshot_repo_pg : SnapshotRepository
snapshot_repo_pg = record {
  Db = PgPool;
  get_daily_clicks_since = Queries.get_daily_clicks_since;
  merge_snapshot = Merge.merge_snapshot;
}

abbrev pub rolling_window_days : ℕ
rolling_window_days = 7

abbrev pub stale_grace_days : ℕ
stale_grace_days = 1

-- The date of `Utc::now()` less so many days.
unfoldable pub rolling_window_start : NaiveDate → NaiveDate
rolling_window_start today = today - rolling_window_days

unfoldable pub stale_cutoff : NaiveDate → NaiveDate
stale_cutoff today = today - (rolling_window_days + stale_grace_days)

-- anyhow::Error, without the contexts.
pub data Failure : Type 0 where
  from_redis : RedisError → Failure
  from_db : DbError → Failure

-- What chrono reads and writes: a date at `%Y-%m-%d`, and an instant in milliseconds, if in range.
pub record Calendar : Type 0 where
  pub show_date : NaiveDate → String
  pub parse_date : String → Option NaiveDate
  pub at_millis : ℤ → Option DateTime

-- str::strip_prefix
unfoldable pub strip_prefix : String → String → Option String
strip_prefix String.[] s = some s
strip_prefix (String.◌∷◌ c p) String.[] = none
strip_prefix (String.◌∷◌ c p) (String.◌∷◌ d s) =
    let more = strip_prefix p s in if code c == code d then more else none

-- SCAN with the pattern `stats:link:*`: the keys of hashes that start with the prefix.
unfoldable pub scan_keys : Store → List String
unfolding strip_prefix
scan_keys r =
    filter_by (λ key. elim (strip_prefix (link_stats_key "") key) [ none ↦ false | some c ↦ true ])
      (map (λ e. e.0) r.hashes)

module _ (repo : SnapshotRepository) where
  pub record Services : Type 0 where
    pub redis : RedisPool
    pub db : repo.Db
    pub snapshot_success_total : ℕ
    pub snapshot_failures_total : ℕ

  unfoldable pub on_redis : {A : Type 0} → Exec RedisPool RedisError A → Exec Services Failure A
  on_redis m s = let (r, redis') = m s.redis in (map_err from_redis r, record s { redis = redis' })

  unfoldable pub on_db : {A : Type 0} → Exec repo.Db DbError A → Exec Services Failure A
  on_db m s = let (r, db') = m s.db in (map_err from_db r, record s { db = db' })
