-- ===== src/Analytics/Persistence/Restores.antt =====
-- What rehydrate of analytics/src/redis_persistence.rs restores.
use k_url.Analytics.Persistence.{
  Calendar, Services, SnapshotRepository, on_db, on_redis, rolling_window_start,
}
use k_url.Analytics.Persistence.Guarantees.{restore_global-Raises, restore_links-Raises}
use k_url.Analytics.Persistence.Rehydrate.{rehydrate, restore_global, restore_links}
use k_url.Analytics.Redis.{RedisPool, Store, acquire, script}
use k_url.Analytics.Redis.Commands.{Up, after, command-served}
use k_url.Analytics.Redis.Counters.{clicks}
use k_url.Analytics.RedisStats.{hmax, hmax_script}
use k_url.Analytics.RedisStats.Hmax.{hmax_script_lem}
use k_url.Analytics.Snapshot.{GlobalDailyStats, LinkDailyStats, RehydrationData}
use k_url.Common.Database.{NaiveDate}
use k_url.Common.RedisKeys.{global_stats_key, link_stats_key}
use k_url.Prelude.{All, List, String, [], arith, ok, refl, ℕ, ◌∷◌, ◌≡◌, ◌≤◌}
use k_url.Prelude.Maps.{nat_key, pair_key, string_key}

hmax-served :
    (key field : String) (value : ℕ) (pool : RedisPool)
    → Up pool
    → (value ≤ clicks key field (hmax key field value pool).1.store)
      × Up (hmax key field value pool).1
unfolding hmax
hmax-served key field value pool up =
    let lem = hmax_script_lem key field value pool.store in
    rw (command-served script (hmax_script key field value) pool (up script pool.at))
      (ground (arith, lem.0), up)

module _ (cal : Calendar) where
  -- The counter of a day is at least the database's.
  abbrev pub GlobalRestored : Store → GlobalDailyStats → Type 0
  GlobalRestored r stat = stat.clicks ≤ clicks global_stats_key (cal.show_date stat.day) r

  abbrev pub LinkRestored : Store → LinkDailyStats → Type 0
  LinkRestored r stat =
      stat.clicks ≤ clicks (link_stats_key stat.short_code) (cal.show_date stat.day) r

  raise-All :
      {A : Type 0} (P : Store → A → Type 0) (r now : Store) (stats : List A)
      → ((a : A) → P r a → P now a)
      → All (P r) stats
      → All (P now) stats
  raise-All P r now [] f a = tt
  raise-All P r now (x ∷ xs) f a = (f x a.0, raise-All P r now xs f a.1)

  global-restored :
      (stats : List GlobalDailyStats) (pool : RedisPool)
      → Up pool
      → All (GlobalRestored (restore_global cal stats pool).store) stats
        × Up (restore_global cal stats pool)
  unfolding restore_global
  global-restored [] pool up = (tt, up)
  global-restored (stat ∷ rest) pool up =
      let key = global_stats_key in
      let field = cal.show_date stat.day in
      let one = hmax-served key field stat.clicks pool up in
      let pool' = (hmax key field stat.clicks pool).1 in
      let more = global-restored rest pool' one.1 in
      ((ground (arith, one.0, restore_global-Raises cal rest pool' key field), more.0), more.1)

  links-restored :
      (stats : List LinkDailyStats) (pool : RedisPool)
      → Up pool
      → All (LinkRestored (restore_links cal stats pool).store) stats
  unfolding restore_links
  links-restored [] pool up = tt
  links-restored (stat ∷ rest) pool up =
      let key = link_stats_key stat.short_code in
      let field = cal.show_date stat.day in
      let one = hmax-served key field stat.clicks pool up in
      let pool' = (hmax key field stat.clicks pool).1 in
      (
        ground (arith, one.0, restore_links-Raises cal rest pool' key field),
        links-restored rest pool' one.1,
      )

  module _ (repo : SnapshotRepository) where
    -- Where Redis is served and the database yields the counts of the last days, restoring succeeds, and
    -- each of the counters of these days is at least the database's.
    pub rehydrate-restores :
        (today : NaiveDate) (s : Services repo) (found : RehydrationData) (db' : repo.Db)
        → Up s.redis
        → repo.get_daily_clicks_since (rolling_window_start today) s.db ≡ (ok found, db')
        → ((rehydrate cal repo today s).0 ≡ ok tt)
          × All (GlobalRestored (rehydrate cal repo today s).1.redis.store) found.global_daily
          × All (LinkRestored (rehydrate cal repo today s).1.redis.store) found.link_daily
    unfolding rehydrate on_redis on_db
    rehydrate-restores today s found db' up h =
        let pool = after s.redis.store s.redis in
        let first = global-restored found.global_daily pool up in
        let globals = restore_global cal found.global_daily pool in
        let second = links-restored found.link_daily globals first.1 in
        rw (rehydrate, h, command-served acquire (λ r. (tt {0}, r)) s.redis (up acquire s.redis.at))
          (
            refl,
            raise-All GlobalRestored globals.store
                (restore_links cal found.link_daily globals).store found.global_daily
                (λ stat le. ground (
                  arith,
                  le,
                  restore_links-Raises cal found.link_daily globals global_stats_key
                      (cal.show_date stat.day),
                ))
                first.0,
            second,
          )
