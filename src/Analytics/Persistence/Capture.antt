-- ===== src/Analytics/Persistence/Capture.antt =====
-- capture_snapshot of analytics/src/redis_persistence.rs: the counters of Redis are read.
use k_url.Analytics.Persistence.{Calendar, scan_keys, stale_cutoff, strip_prefix}
use k_url.Analytics.Redis.{RedisError, RedisPool, acquire, command, get_all, hgetall, scan}
use k_url.Analytics.RedisStats.{last_clicked_at_batch}
use k_url.Analytics.Snapshot.{
  RedisSnapshot, parse_daily_counts, stale_global_fields, stale_link_fields,
}
use k_url.Common.Database.{NaiveDate}
use k_url.Common.RedisKeys.{global_stats_key, link_stats_key}
use k_url.Prelude.{Bool, List, String, [], false, if◌then◌else◌, none, some, ℕ, ◌||◌, ◌∷◌}
use k_url.Prelude.Effects.{Exec, pure, ◌>>=◌, ◌>>◌}
use k_url.Prelude.Maps.{Map, insert, ◌==◌, string_key, nat_key, pair_key}

-- The day-buckets of one link are added to those read so far.
unfoldable pub insert_days :
    String → Map NaiveDate ℕ → Map (String × NaiveDate) ℕ → Map (String × NaiveDate) ℕ
insert_days code [] acc = acc
insert_days code ((date, n) ∷ days) acc = insert_days code days (insert (code, date) n acc)

abbrev contains : String → List String → Bool
contains c [] = false
contains c (d ∷ codes) = (d == c) || contains c codes

-- Each code once.
unfoldable pub link_codes : Map (String × NaiveDate) ℕ → List String
link_codes [] = []
link_codes (((code, date), n) ∷ rest) =
    let codes = link_codes rest in if contains code codes then codes else code ∷ codes

module _ (cal : Calendar) where
  -- The loop over the keys that the scan yields.
  unfoldable pub capture_links :
      List String
      → Map (String × NaiveDate) ℕ
      → Exec RedisPool RedisError (Map (String × NaiveDate) ℕ)
  unfolding strip_prefix insert_days
  capture_links [] acc = pure acc
  capture_links (key ∷ keys) acc = do
    command {A = Unit {0}} scan (λ r. (tt, r))
    elim (strip_prefix (link_stats_key "") key) [
      | none ↦ capture_links keys acc
      | some code ↦ do
        fields ← command get_all (λ r. (hgetall key r, r))
        capture_links keys (insert_days code (parse_daily_counts cal.parse_date fields).valid acc)
    ]

  unfoldable pub capture_snapshot : NaiveDate → Exec RedisPool RedisError RedisSnapshot
  unfolding capture_links link_codes stale_cutoff scan_keys
  capture_snapshot today = do
    let cutoff = stale_cutoff today
    command {A = Unit {0}} acquire (λ r. (tt, r))
    command {A = Unit {0}} acquire (λ r. (tt, r))
    keys ← command scan (λ r. (scan_keys r, r))
    link_daily ← capture_links keys []
    global_fields ← command get_all (λ r. (hgetall global_stats_key r, r))
    let global_daily = (parse_daily_counts cal.parse_date global_fields).valid
    last_clicked_at ← last_clicked_at_batch cal.at_millis (link_codes link_daily)
    pure (record {
      global_daily = global_daily;
      link_daily = link_daily;
      last_clicked_at = last_clicked_at;
      stale_global = stale_global_fields global_daily cutoff;
      stale_links = stale_link_fields link_daily cutoff;
    })
