-- ===== src/Analytics/Persistence/Beside.antt =====
-- flush and rehydrate of analytics/src/redis_persistence.rs beside the reading of the stream.
use k_url.Prelude.Maps.{string_key, nat_key, pair_key}
use k_url.Analytics.Merge.{is_empty}
use k_url.Analytics.Persistence.{
  Calendar, Services, SnapshotRepository, on_db, on_redis, rolling_window_start,
}
use k_url.Analytics.Persistence.Capture.{capture_snapshot}
use k_url.Analytics.Persistence.Flush.{flush, flush_snapshot}
use k_url.Analytics.Persistence.Quiet.{
  IsQuiet, Quiet, capture_snapshot-IsQuiet, reconcile_and_cleanup-IsQuiet, refl-Quiet,
  restore_global-Quiet, restore_links-Quiet, trans-Quiet,
}
use k_url.Analytics.Persistence.Rehydrate.{rehydrate, restore_global, restore_links}
use k_url.Analytics.Redis.{acquire}
use k_url.Analytics.Redis.Commands.{after, command-cases}
use k_url.Analytics.Snapshot.{RedisSnapshot}
use k_url.Common.Database.{NaiveDate}
use k_url.Common.RedisKeys.{stats}
use k_url.Prelude.{Bool-cases, Result-cases, inl, inr, ◌&&◌}

module _ (cal : Calendar) (repo : SnapshotRepository) where
  flush_snapshot-Quiet :
      (snapshot : RedisSnapshot) (s : Services repo)
      → Quiet s.redis (flush_snapshot cal repo snapshot s).1.redis
  unfolding flush_snapshot on_db IsQuiet
  flush_snapshot-Quiet snapshot s =
      elim (Bool-cases (is_empty snapshot.global_daily && is_empty snapshot.link_daily)) [
        | inl p ↦ rw (flush_snapshot, p) (refl-Quiet s.redis)
        | inr p ↦ elim (Result-cases (repo.merge_snapshot snapshot s.db).0) [
          | inl (outcome, q) ↦
              rw (flush_snapshot, p, q) (reconcile_and_cleanup-IsQuiet cal snapshot outcome s.redis)
          | inr (error, q) ↦ rw (flush_snapshot, p, q) (refl-Quiet s.redis)
        ]
      ]

  pub flush-Quiet :
      (today : NaiveDate) (s : Services repo) → Quiet s.redis (flush cal repo today s).1.redis
  unfolding flush on_redis IsQuiet
  flush-Quiet today s =
      let kept = capture_snapshot-IsQuiet cal today s.redis in
      let captured = (capture_snapshot cal today s.redis).1 in
      let s' : Services repo = record s { redis = captured } in
      elim (Result-cases (capture_snapshot cal today s.redis).0) [
        | inl (snapshot, q) ↦
            rw (flush, q)
              (trans-Quiet s.redis captured (flush_snapshot cal repo snapshot s').1.redis kept
                (flush_snapshot-Quiet snapshot s'))
        | inr (error, q) ↦ rw (flush, q) kept
      ]

  pub rehydrate-Quiet :
      (today : NaiveDate) (s : Services repo) → Quiet s.redis (rehydrate cal repo today s).1.redis
  unfolding rehydrate on_redis on_db
  rehydrate-Quiet today s =
      let fetched = repo.get_daily_clicks_since (rolling_window_start today) s.db in
      let kept = refl-Quiet s.redis in
      elim (Result-cases fetched.0) [
        | inr (error, q) ↦ rw (rehydrate, q) kept
        | inl (stats, q) ↦ elim (command-cases acquire (λ r. (tt {0}, r)) s.redis) [
          | inl p ↦
              let pool = after s.redis.store s.redis in
              let globals = restore_global cal stats.global_daily pool in
              rw (rehydrate, q, p)
                (trans-Quiet s.redis globals (restore_links cal stats.link_daily globals)
                  (restore_global-Quiet cal stats.global_daily pool)
                  (restore_links-Quiet cal stats.link_daily globals))
          | inr (inl p) ↦ rw (rehydrate, q, p) kept
          | inr (inr p) ↦ rw (rehydrate, q, p) kept
        ]
      ]
