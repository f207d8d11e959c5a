-- ===== src/Analytics/PersistenceTests.antt =====
-- Runs of the persistence of the crate analytics at concrete inputs.
use k_url.Analytics.Merge.{
  add_gain, add_gains, all_gains, begun, contains_key, gains_of_clicks, gains_of_deltas, is_empty,
  link_deltas, merge_body, merge_counters, merge_global, merge_links, merge_snapshot, no_gains,
  select_keys, transaction, upsert_existing,
}
use k_url.Analytics.Persistence.{
  Calendar, Services, SnapshotRepository, on_db, on_redis, scan_keys, snapshot_repo_pg,
  stale_cutoff, strip_prefix,
}
use k_url.Analytics.Persistence.Capture.{capture_links, capture_snapshot, insert_days, link_codes}
use k_url.Analytics.Persistence.Fields.{Canonical}
use k_url.Analytics.Persistence.Flush.{flush, flush_snapshot}
use k_url.Analytics.Persistence.FlushTotals.{flush_days}
use k_url.Analytics.Persistence.Guarantees.{flush-Raises}
use k_url.Analytics.Persistence.Rehydrate.{rehydrate}
use k_url.Analytics.Persistence.Restores.{GlobalRestored, LinkRestored, rehydrate-restores}
use k_url.Analytics.Redis.{RedisPool, command, hgetall, served}
use k_url.Analytics.Redis.Counters.{clicks}
use k_url.Analytics.RedisStats.{last_clicked_at_batch, parse_batch}
use k_url.Analytics.Snapshot.{
  RehydrationData, calculate_merge_delta, parse_daily_counts, parse_field, parse_fields,
  stale_global_fields, stale_link_fields,
}
use k_url.Common.Database.{NaiveDate, PgPool, execute}
use k_url.Common.DbErrors.{not_found}
use k_url.Common.RedisKeys.{global_stats_key, link_last_clicked_at_key, link_stats_key}
use k_url.Prelude.{
  All, Option, String, [], ap, arith, err, get_or, if◌then◌else◌, max, none, ok, refl, some, sym,
  true, ◌∷◌, ◌≡◌, ◌≤◌,
}
use k_url.Prelude.Int.{pos}
use k_url.Prelude.Maps.{insert, lookup, ◌==◌, string_key, nat_key, pair_key}
use k_url.Prelude.Parse.{parse_i64}
use k_url.Prelude.Parse.Show.{to_string}
use k_url.Prelude.Sums.{Distinct, upsert, upsert_all, value}

abbrev calendar : Calendar
calendar = record {
  show_date = λ d. if d == 10 then "2026-01-05" else "another day";
  parse_date = λ s. if s == "2026-01-05" then some 10 else none;
  at_millis = λ ms. some ms;
}

abbrev shown : Option NaiveDate → String
shown none = ""
shown (some d) = calendar.show_date d

abbrev redis : RedisPool
redis = record {
  store = record {
    hashes =
        ("stats:global", ("2026-01-05", 3) ∷ []) ∷ ("stats:link:rust", ("2026-01-05", 3) ∷ []) ∷ [];
    strings = ("stats:last_clicked_at:rust", pos 900) ∷ [];
    entries = [];
    group = true;
    incoming = [];
    pending = [];
  };
  answer = λ c n. served;
  at = 0;
}

abbrev pool : PgPool
pool = record {
  db = record {
    links =
        (
          "rust",
          record {
            target = "https://rust-lang.org";
            expiration = none;
            click_count = 1;
            last_clicked_at = none;
          },
        )
        ∷ [];
    link_daily_clicks = (("rust", 10), 1) ∷ [];
    global_daily_clicks = (10, 1) ∷ [];
    total_clicks = 1;
  };
  outages = [];
}

abbrev services : Services snapshot_repo_pg
services = record {
  redis = redis;
  db = pool;
  snapshot_success_total = 0;
  snapshot_failures_total = 0;
}

abbrev flushing : Unit {0}
unfolding merge_snapshot merge_body merge_global merge_links merge_counters calculate_merge_delta
    select_keys contains_key is_empty link_deltas upsert_existing all_gains gains_of_deltas
    gains_of_clicks no_gains add_gains add_gain upsert_all upsert lookup insert execute transaction
    begun flush flush_snapshot on_redis on_db capture_snapshot capture_links insert_days link_codes
    stale_cutoff scan_keys strip_prefix command hgetall parse_daily_counts parse_fields parse_field
    parse_i64 to_string last_clicked_at_batch parse_batch stale_global_fields stale_link_fields
    global_stats_key link_stats_key link_last_clicked_at_key
flushing = tt

flushes : (flush calendar snapshot_repo_pg 12 services).0 ≡ ok tt
unfolding flushing
flushes = refl

one_field : Distinct (get_or [] (lookup global_stats_key redis.store.hashes))
unfolding lookup global_stats_key
one_field = (refl, tt)

fields-Canonical :
    Canonical calendar.parse_date calendar.show_date
      (get_or [] (lookup global_stats_key redis.store.hashes))
unfolding lookup global_stats_key
fields-Canonical = ((λ d p. ap shown (sym p), omega arith), tt)

flush_days_example :
    value 10 (flush calendar snapshot_repo_pg 12 services).1.db.global_daily_clicks
    ≡ max (clicks global_stats_key "2026-01-05" redis.store) 1
unfolding lookup
flush_days_example = flush_days calendar 12 10 services refl one_field fields-Canonical flushes

flush-Raises_example :
    clicks "stats:global" "2026-01-05" redis.store
    ≤ clicks "stats:global" "2026-01-05" (flush calendar snapshot_repo_pg 12 services).1.redis.store
flush-Raises_example =
    flush-Raises calendar snapshot_repo_pg 12 services "stats:global" "2026-01-05"

abbrev found : RehydrationData
found = record {
  global_daily = record { day = 10; clicks = 9 } ∷ [];
  link_daily = record { short_code = "rust"; day = 10; clicks = 8 } ∷ [];
}

abbrev repo : SnapshotRepository
repo = record {
  Db = Unit {0};
  get_daily_clicks_since = λ since s. (ok found, s);
  merge_snapshot = λ snapshot s. (err not_found, s);
}

abbrev started : Services repo
started = record { redis = redis; db = tt; snapshot_success_total = 0; snapshot_failures_total = 0 }

rehydrate-restores_example :
    ((rehydrate calendar repo 12 started).0 ≡ ok tt)
    × All
        (GlobalRestored calendar (rehydrate calendar repo 12 started).1.redis.store)
        found.global_daily
    × All
        (LinkRestored calendar (rehydrate calendar repo 12 started).1.redis.store)
        found.link_daily
rehydrate-restores_example = rehydrate-restores calendar repo 12 started found tt (λ c i. refl) refl
