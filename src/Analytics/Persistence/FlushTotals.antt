-- ===== src/Analytics/Persistence/FlushTotals.antt =====
-- A flush of analytics/src/redis_persistence.rs into the tables of Postgres.
use k_url.Analytics.Merge.{is_empty, merge_snapshot}
use k_url.Analytics.Merge.Counters.{merge_snapshot_totals}
use k_url.Analytics.Persistence.{
  Calendar, Services, from_db, from_redis, on_db, on_redis, snapshot_repo_pg,
}
use k_url.Analytics.Persistence.Capture.{capture_snapshot}
use k_url.Analytics.Persistence.Captured.{Yields, capture_snapshot-global}
use k_url.Analytics.Persistence.Fields.{
  Canonical, parse_daily_counts-Distinct, parse_daily_counts-hgetall,
}
use k_url.Analytics.Persistence.Flush.{flush, flush_snapshot}
use k_url.Analytics.Redis.{hgetall}
use k_url.Analytics.Redis.Counters.{clicks}
use k_url.Analytics.Snapshot.{RedisSnapshot}
use k_url.Common.Database.{NaiveDate}
use k_url.Common.RedisKeys.{global_stats_key}
use k_url.Prelude.{
  Bool-cases, Result-cases, [], ap, arith, err, get_or, inl, inr, max, ok, refl, some, true, ℕ,
  ◌&&◌, ◌∙◌, ◌∷◌, ◌≡◌,
}
use k_url.Prelude.Maps.{Map, lookup, nat_key, pair_key, string_key}
use k_url.Prelude.Sums.{Distinct, value}

empty_value : (d : NaiveDate) (m : Map NaiveDate ℕ) → is_empty m ≡ true → value d m ≡ 0
unfolding is_empty lookup
empty_value d [] h = refl
empty_value d (x ∷ m) h = cc

-- The days of all links after the part of flush that follows the snapshot.
flush_snapshot-days :
    (cal : Calendar) (snapshot : RedisSnapshot) (s : Services snapshot_repo_pg) (day : NaiveDate)
    → Distinct snapshot.global_daily
    → (flush_snapshot cal snapshot_repo_pg snapshot s).0 ≡ ok tt
    → value day (flush_snapshot cal snapshot_repo_pg snapshot s).1.db.global_daily_clicks
      ≡ max (value day snapshot.global_daily) (value day s.db.global_daily_clicks)
unfolding flush_snapshot on_db is_empty
flush_snapshot-days cal snapshot s day u h =
    elim (Bool-cases (is_empty snapshot.global_daily && is_empty snapshot.link_daily)) [
      | inl p ↦ rw (flush_snapshot, p) (ground (arith, empty_value day snapshot.global_daily))
      | inr p ↦ elim (Result-cases (merge_snapshot snapshot s.db).0) [
        | inl (outcome, q) ↦
            rw (flush_snapshot, p, q) ((merge_snapshot_totals snapshot s.db outcome u q).0 day)
        | inr (error, q) ↦
            let clash : err (from_db error) ≡ ok tt = rw (flush_snapshot, p, q) at h in cc
      ]
    ]

-- A flush into Postgres that succeeds makes the count of a day the greater of the table's and that
-- of Redis. It is assumed that the date is read as it is written, and that the hash of all links has
-- its fields once each, with dates in that form and counts of 63 bits.
pub flush_days :
    (cal : Calendar) (today day : NaiveDate) (s : Services snapshot_repo_pg)
    → cal.parse_date (cal.show_date day) ≡ some day
    → Distinct (get_or [] (lookup global_stats_key s.redis.store.hashes))
    → Canonical cal.parse_date cal.show_date
        (get_or [] (lookup global_stats_key s.redis.store.hashes))
    → (flush cal snapshot_repo_pg today s).0 ≡ ok tt
    → value day (flush cal snapshot_repo_pg today s).1.db.global_daily_clicks
      ≡ max
          (clicks global_stats_key (cal.show_date day) s.redis.store)
          (value day s.db.global_daily_clicks)
unfolding flush on_redis Yields
flush_days cal today day s reads u c h =
    elim (Result-cases (capture_snapshot cal today s.redis).0) [
      | inl (snapshot, q) ↦
          let fields = hgetall global_stats_key s.redis.store in
          let captured = capture_snapshot-global cal today s.redis snapshot q in
          let s' : Services snapshot_repo_pg = record s {
            redis = (capture_snapshot cal today s.redis).1;
          } in
          let unique : Distinct snapshot.global_daily =
            rw captured (parse_daily_counts-Distinct cal.parse_date cal.show_date fields) in
          rw (flush, q)
            (flush_snapshot-days cal snapshot s' day unique (rw (flush, q) at h)
              ∙ ap (λ n. max n (value day s.db.global_daily_clicks))
                  (ap (value day) captured
                    ∙ parse_daily_counts-hgetall cal.parse_date cal.show_date day global_stats_key
                        s.redis.store reads u c))
      | inr (error, q) ↦ let clash : err (from_redis error) ≡ ok tt = rw (flush, q) at h in cc
    ]
