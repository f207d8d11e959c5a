-- ===== src/Analytics/Persistence/Guarantees.antt =====
-- What flush and rehydrate of analytics/src/redis_persistence.rs leave in Redis.
use k_url.Analytics.Merge.{is_empty}
use k_url.Analytics.Persistence.{
  Calendar, Services, SnapshotRepository, on_db, on_redis, rolling_window_start,
}
use k_url.Analytics.Persistence.Capture.{capture_snapshot}
use k_url.Analytics.Persistence.Flush.{flush, flush_snapshot, reconcile_and_cleanup, reconcile_half}
use k_url.Analytics.Persistence.Raises.{
  Raises, hmax-Raises, reconcile_half-Raises, same-Raises, trans-Raises,
}
use k_url.Analytics.Persistence.Reads.{ReadsOnly, capture_snapshot-ReadsOnly}
use k_url.Analytics.Persistence.Rehydrate.{rehydrate, restore_global, restore_links}
use k_url.Analytics.Redis.{RedisPool, acquire}
use k_url.Analytics.Redis.Commands.{after, command-cases}
use k_url.Analytics.RedisStats.{hmax}
use k_url.Analytics.Snapshot.{GlobalDailyStats, LinkDailyStats, MergeOutcome, RedisSnapshot}
use k_url.Common.Database.{NaiveDate}
use k_url.Common.RedisKeys.{global_stats_key, link_stats_key}
use k_url.Prelude.{Bool-cases, List, Result-cases, [], inl, inr, refl, ◌&&◌, ◌∷◌}
use k_url.Prelude.Maps.{nat_key, pair_key, string_key}

module _ (cal : Calendar) where
  reconcile_and_cleanup-Raises :
      (snapshot : RedisSnapshot) (outcome : MergeOutcome) (pool : RedisPool)
      → Raises pool.store (reconcile_and_cleanup cal snapshot outcome pool).1.store
  unfolding reconcile_and_cleanup
  reconcile_and_cleanup-Raises snapshot outcome pool =
      let first =
        reconcile_half (λ date. global_stats_key) cal.show_date outcome.committed_global
          snapshot.stale_global (after pool.store pool) in
      let kept = same-Raises pool.store pool.store refl in
      elim (command-cases acquire (λ r. (tt {0}, r)) pool) [
        | inl p ↦
            rw (reconcile_and_cleanup, p)
              (trans-Raises pool.store first.store _
                (reconcile_half-Raises (λ date. global_stats_key) cal.show_date
                  outcome.committed_global snapshot.stale_global (after pool.store pool))
                (reconcile_half-Raises (λ k. link_stats_key k.0) (λ k. cal.show_date k.1)
                  outcome.committed_links snapshot.stale_links first))
        | inr (inl p) ↦ rw (reconcile_and_cleanup, p) kept
        | inr (inr p) ↦ rw (reconcile_and_cleanup, p) kept
      ]

  pub restore_global-Raises :
      (stats : List GlobalDailyStats) (pool : RedisPool)
      → Raises pool.store (restore_global cal stats pool).store
  unfolding restore_global
  restore_global-Raises [] pool = same-Raises pool.store pool.store refl
  restore_global-Raises (stat ∷ rest) pool =
      let step = hmax global_stats_key (cal.show_date stat.day) stat.clicks pool in
      trans-Raises pool.store step.1.store _
        (hmax-Raises global_stats_key (cal.show_date stat.day) stat.clicks pool)
        (restore_global-Raises rest step.1)

  pub restore_links-Raises :
      (stats : List LinkDailyStats) (pool : RedisPool)
      → Raises pool.store (restore_links cal stats pool).store
  unfolding restore_links
  restore_links-Raises [] pool = same-Raises pool.store pool.store refl
  restore_links-Raises (stat ∷ rest) pool =
      let key = link_stats_key stat.short_code in
      let step = hmax key (cal.show_date stat.day) stat.clicks pool in
      trans-Raises pool.store step.1.store _
        (hmax-Raises key (cal.show_date stat.day) stat.clicks pool)
        (restore_links-Raises rest step.1)

  module _ (repo : SnapshotRepository) where
    flush_snapshot-Raises :
        (snapshot : RedisSnapshot) (s : Services repo)
        → Raises s.redis.store (flush_snapshot cal repo snapshot s).1.redis.store
    unfolding flush_snapshot on_db
    flush_snapshot-Raises snapshot s =
        elim (Bool-cases (is_empty snapshot.global_daily && is_empty snapshot.link_daily)) [
          | inl p ↦ rw (flush_snapshot, p) (same-Raises s.redis.store s.redis.store refl)
          | inr p ↦ elim (Result-cases (repo.merge_snapshot snapshot s.db).0) [
            | inl (outcome, q) ↦
                rw (flush_snapshot, p, q) (reconcile_and_cleanup-Raises snapshot outcome s.redis)
            | inr (error, q) ↦
                rw (flush_snapshot, p, q) (same-Raises s.redis.store s.redis.store refl)
          ]
        ]

    -- Whatever Redis and the database answer, a flush lowers no counter of Redis, where a counter that is
    -- missing is zero.
    pub flush-Raises :
        (today : NaiveDate) (s : Services repo)
        → Raises s.redis.store (flush cal repo today s).1.redis.store
    unfolding flush on_redis ReadsOnly
    flush-Raises today s =
        let kept = capture_snapshot-ReadsOnly cal today s.redis in
        elim (Result-cases (capture_snapshot cal today s.redis).0) [
          | inl (snapshot, q) ↦
              rw (flush, q)
                (trans-Raises s.redis.store (capture_snapshot cal today s.redis).1.store _
                  (same-Raises _ _ kept)
                  (flush_snapshot-Raises snapshot
                    (record s { redis = (capture_snapshot cal today s.redis).1 })))
          | inr (error, q) ↦ rw (flush, q) (same-Raises s.redis.store _ kept)
        ]

    -- Whatever Redis and the database answer, restoring lowers no counter of Redis.
    pub rehydrate-Raises :
        (today : NaiveDate) (s : Services repo)
        → Raises s.redis.store (rehydrate cal repo today s).1.redis.store
    unfolding rehydrate on_redis on_db
    rehydrate-Raises today s =
        let fetched = repo.get_daily_clicks_since (rolling_window_start today) s.db in
        let kept = same-Raises s.redis.store s.redis.store refl in
        elim (Result-cases fetched.0) [
          | inr (error, q) ↦ rw (rehydrate, q) kept
          | inl (found, q) ↦ elim (command-cases acquire (λ r. (tt {0}, r)) s.redis) [
            | inl p ↦
                let pool = after s.redis.store s.redis in
                rw (rehydrate, q, p)
                  (trans-Raises s.redis.store (restore_global cal found.global_daily pool).store _
                    (restore_global-Raises found.global_daily pool)
                    (restore_links-Raises found.link_daily
                      (restore_global cal found.global_daily pool)))
            | inr (inl p) ↦ rw (rehydrate, q, p) kept
            | inr (inr p) ↦ rw (rehydrate, q, p) kept
          ]
        ]
