-- ===== src/Analytics/Persistence/Flush.antt =====
-- flush and reconcile_and_cleanup of analytics/src/redis_persistence.rs.
use k_url.Analytics.Merge.{is_empty}
use k_url.Analytics.Persistence.{Calendar, Failure, Services, SnapshotRepository, on_db, on_redis}
use k_url.Analytics.Persistence.Capture.{capture_snapshot}
use k_url.Analytics.Redis.{RedisError, RedisPool, acquire, command}
use k_url.Analytics.RedisStats.{compare_and_delete, hmax}
use k_url.Analytics.Snapshot.{MergeOutcome, RedisSnapshot}
use k_url.Common.Database.{NaiveDate}
use k_url.Common.RedisKeys.{global_stats_key, link_stats_key}
use k_url.Prelude.{
  Bool, List, String, [], err, false, get_or, if◌then◌else◌, ok, ℕ, ◌&&◌, ◌+◌, ◌||◌, ◌∷◌,
}
use k_url.Prelude.Effects.{Exec, modify, ◌>>=◌, ◌>>◌}
use k_url.Prelude.Maps.{Keyed, Map, lookup, nat_key, pair_key, string_key, ◌==◌}
use k_url.Prelude.Parse.Show.{to_string}

-- The two halves of reconcile_and_cleanup do the same to the counters of all links and to those of
-- single links: `hash_key` and `field` tell where a counter stands.
module _ {K : Type 0} ⦃e : Keyed K⦄ (hash_key field : K → String) where
  abbrev pub member : K → List K → Bool
  member k [] = false
  member k (j ∷ keys) = (j == k) || member k keys

  -- The counters are raised to those committed; the keys that were are collected.
  unfoldable pub reconcile : Map K ℕ → List K → RedisPool → List K × RedisPool
  reconcile [] done pool = (done, pool)
  reconcile ((k, count) ∷ rest) done pool =
      let (r, pool') = hmax (hash_key k) (field k) count pool in
      reconcile rest (elim r [ ok b ↦ k ∷ done | err e ↦ done ]) pool'

  -- A stale counter that still has the committed count is to be deleted; failures are passed over.
  unfoldable pub cleanup : Map K ℕ → List K → List K → RedisPool → RedisPool
  cleanup committed done [] pool = pool
  cleanup committed done (k ∷ stale) pool = cleanup committed done stale (
      if member k done
      then (compare_and_delete (hash_key k) (field k) (to_string (get_or 0 (lookup k committed)))
          pool).1
      else pool)

  unfoldable pub reconcile_half : Map K ℕ → List K → RedisPool → RedisPool
  unfolding reconcile cleanup
  reconcile_half committed stale pool =
      let (done, pool') = reconcile committed [] pool in cleanup committed done stale pool'

module _ (cal : Calendar) where
  unfoldable pub reconcile_and_cleanup :
      RedisSnapshot → MergeOutcome → Exec RedisPool RedisError (Unit {0})
  unfolding reconcile_half
  reconcile_and_cleanup snapshot outcome = do
    command {A = Unit {0}} acquire (λ r. (tt, r))
    modify (λ pool.
        reconcile_half (λ k. link_stats_key k.0) (λ k. cal.show_date k.1) outcome.committed_links
          snapshot.stale_links
          (reconcile_half (λ date. global_stats_key) cal.show_date outcome.committed_global
            snapshot.stale_global pool))

  module _ (repo : SnapshotRepository) where
    -- The part of flush after the snapshot.
    unfoldable pub flush_snapshot : RedisSnapshot → Exec (Services repo) Failure (Unit {0})
    unfolding on_db reconcile_and_cleanup
    flush_snapshot snapshot s =
        if is_empty snapshot.global_daily && is_empty snapshot.link_daily
        then (ok tt, record s { snapshot_success_total = s.snapshot_success_total + 1 })
        else let (merged, s') = on_db repo (repo.merge_snapshot snapshot) s in
          elim merged [
            | err error ↦
                (err error, record s' { snapshot_failures_total = s'.snapshot_failures_total + 1 })
            | ok outcome ↦
                (ok tt, record s' { redis = (reconcile_and_cleanup snapshot outcome s'.redis).1 })
          ]

    unfoldable pub flush : NaiveDate → Exec (Services repo) Failure (Unit {0})
    unfolding on_redis capture_snapshot flush_snapshot
    flush today = do snapshot ← on_redis repo (capture_snapshot cal today); flush_snapshot snapshot
