-- ===== src/Analytics/Persistence/Rehydrate.antt =====
-- rehydrate of analytics/src/redis_persistence.rs: the counters of the last days are raised to those
-- of the database.
use k_url.Analytics.Persistence.{
  Calendar, Failure, Services, SnapshotRepository, on_db, on_redis, rolling_window_start,
}
use k_url.Analytics.Redis.{RedisPool, acquire, command}
use k_url.Analytics.RedisStats.{hmax}
use k_url.Analytics.Snapshot.{GlobalDailyStats, LinkDailyStats}
use k_url.Common.Database.{NaiveDate}
use k_url.Common.RedisKeys.{global_stats_key, link_stats_key}
use k_url.Prelude.{List, [], ◌∷◌}
use k_url.Prelude.Effects.{Exec, modify, ◌>>=◌, ◌>>◌}
use k_url.Prelude.Maps.{nat_key, pair_key, string_key}

module _ (cal : Calendar) where
  -- A counter that cannot be restored is passed over.
  unfoldable pub restore_global : List GlobalDailyStats → RedisPool → RedisPool
  restore_global [] pool = pool
  restore_global (stat ∷ rest) pool =
      restore_global rest (hmax global_stats_key (cal.show_date stat.day) stat.clicks pool).1

  unfoldable pub restore_links : List LinkDailyStats → RedisPool → RedisPool
  restore_links [] pool = pool
  restore_links (stat ∷ rest) pool =
      restore_links rest
        (hmax (link_stats_key stat.short_code) (cal.show_date stat.day) stat.clicks pool).1

  module _ (repo : SnapshotRepository) where
    unfoldable pub rehydrate : NaiveDate → Exec (Services repo) Failure (Unit {0})
    unfolding rolling_window_start on_db on_redis restore_global restore_links
    rehydrate today = do
      data_since ← on_db repo (repo.get_daily_clicks_since (rolling_window_start today))
      on_redis repo (command {A = Unit {0}} acquire (λ r. (tt, r)))
      modify (λ s. record s {
        redis =
            restore_links data_since.link_daily (restore_global data_since.global_daily s.redis);
      })
