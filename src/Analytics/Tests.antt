-- ===== src/Analytics/Tests.antt =====
-- Runs of the definitions of the crate analytics at concrete inputs.
use k_url.Analytics.Merge.{
  add_gain, add_gains, all_gains, begun, contains_key, gains_of_clicks, gains_of_deltas, is_empty,
  link_deltas, merge_body, merge_counters, merge_global, merge_links, merge_snapshot, no_gains,
  select_keys, transaction, upsert_existing, commit,
}
use k_url.Analytics.Merge.Atomic.{merge_report, merge_snapshot-atomic, merged_tables}
use k_url.Analytics.Merge.Counters.{merge_snapshot_totals}
use k_url.Analytics.Merge.LinkDays.{merge_snapshot-link_days}
use k_url.Analytics.Snapshot.{
  MergeOutcome, RedisSnapshot, calculate_merge_delta, parse_daily_counts, parse_field,
}
use k_url.Common.Database.{
  NaiveDate, PgPool, broken_pipe, execute, outage_error, answer_lost, reaches_server,
}
use k_url.Common.DbErrors.{DbError, from_sqlx, io, transient}
use k_url.Prelude.{
  List, Option, String, [], err, if◌then◌else◌, map_option, max, none, ok, refl, some, ℕ, ◌∷◌, ◌≡◌,
  ◌⊎◌,
}
use k_url.Prelude.Int.{pos}
use k_url.Prelude.Maps.{Map, insert, lookup, nat_key, pair_key, string_key, ◌==◌}
use k_url.Prelude.Parse.{parse_i64}
use k_url.Prelude.Sums.{Distinct, sum, upsert, upsert_all, value}

abbrev two_days : Map NaiveDate ℕ
two_days = (10, 5) ∷ (11, 2) ∷ []

abbrev link_counters : Map (String × NaiveDate) ℕ
link_counters = (("rust", 10), 3) ∷ (("gone", 10), 2) ∷ []

abbrev snapshot : RedisSnapshot
snapshot = record {
  global_daily = two_days;
  link_daily = link_counters;
  last_clicked_at = ("rust", pos 900) ∷ [];
  stale_global = [];
  stale_links = [];
}

abbrev pool : PgPool
pool = record {
  db = record {
    links =
        (
          "rust",
          record {
            target = "https://rust-lang.org";
            expiration = none;
            click_count = 1;
            last_clicked_at = none;
          },
        )
        ∷ [];
    link_daily_clicks = (("rust", 10), 1) ∷ [];
    global_daily_clicks = (10, 4) ∷ [];
    total_clicks = 4;
  };
  outages = [];
}

abbrev merging : Unit {0}
unfolding merge_snapshot merge_body merge_global merge_links merge_counters calculate_merge_delta
    select_keys contains_key is_empty link_deltas upsert_existing all_gains gains_of_deltas
    gains_of_clicks no_gains add_gains add_gain upsert_all upsert lookup insert execute transaction
    begun commit
merging = tt

abbrev snapshot_days-Distinct : Distinct snapshot.global_daily
unfolding lookup
snapshot_days-Distinct = (refl, (refl, tt))

merged : (merge_snapshot snapshot pool).1.total_clicks ≡ 7
unfolding merging
merged = refl

merged_click_count :
    map_option (λ r. r.click_count) (lookup "rust" (merge_snapshot snapshot pool).1.links) ≡ some 3
unfolding merging
merged_click_count = refl

abbrev outcome : MergeOutcome
outcome = record {
  committed_global = (10, 5) ∷ (11, 2) ∷ [];
  committed_links = (("rust", 10), 3) ∷ (("gone", 10), 2) ∷ [];
  global_delta = 3;
  link_deltas = ("rust", 2) ∷ ("gone", 2) ∷ [];
}

abbrev again : MergeOutcome
again = record outcome { global_delta = 0; link_deltas = ("rust", 0) ∷ ("gone", 2) ∷ [] }

merge_snapshot-outcome : (merge_snapshot snapshot pool).0 ≡ ok outcome
unfolding merging
merge_snapshot-outcome = refl

merge_snapshot-next : (merge_snapshot snapshot (merge_snapshot snapshot pool).1).0 ≡ ok again
unfolding merging
merge_snapshot-next = refl

-- The connection breaks before the third statement.
abbrev breaking : PgPool
breaking = record pool { outages = none ∷ none ∷ some broken_pipe ∷ [] }

breaking_lem : (merge_snapshot snapshot breaking).0 ≡ err (transient io)
unfolding merging outage_error from_sqlx
breaking_lem = refl

-- The commit is carried out, and its answer is lost.
abbrev unanswered : PgPool
unanswered = record pool {
  outages = none ∷ none ∷ none ∷ none ∷ none ∷ none ∷ none ∷ some answer_lost ∷ [];
}

unanswered_lem :
    ((merge_snapshot snapshot unanswered).0 ≡ err (transient io))
    × ((merge_snapshot snapshot unanswered).1.db ≡ (merge_snapshot snapshot pool).1.db)
unfolding merging outage_error from_sqlx reaches_server
unanswered_lem = (refl, refl)

merge_snapshot-atomic_example :
    ((o : MergeOutcome)
      → (merge_snapshot snapshot breaking).0 ≡ ok o
      → (o ≡ merge_report snapshot breaking.db)
        × ((merge_snapshot snapshot breaking).1.db ≡ merged_tables snapshot breaking.db))
    × ((e : DbError)
        → (merge_snapshot snapshot breaking).0 ≡ err e
        → ((merge_snapshot snapshot breaking).1.db ≡ breaking.db)
          ⊎ ((e ≡ from_sqlx io)
              × ((merge_snapshot snapshot breaking).1.db ≡ merged_tables snapshot breaking.db)))
merge_snapshot-atomic_example = merge_snapshot-atomic snapshot breaking

merge_snapshot_totals_example :
    ((day : NaiveDate)
      → value day (merge_snapshot snapshot pool).1.global_daily_clicks
        ≡ max (value day snapshot.global_daily) (value day pool.global_daily_clicks))
    × ((merge_snapshot snapshot pool).1.total_clicks ≡ 7)
    × (sum (merge_snapshot snapshot pool).1.global_daily_clicks ≡ 7)
merge_snapshot_totals_example =
    merge_snapshot_totals snapshot pool outcome snapshot_days-Distinct merge_snapshot-outcome

abbrev link_counters-Distinct : Distinct snapshot.link_daily
unfolding lookup
link_counters-Distinct = (refl, (refl, tt))

merge_snapshot-link_days_example :
    value ("rust", 10) (merge_snapshot snapshot pool).1.link_daily_clicks ≡ 3
unfolding merging
merge_snapshot-link_days_example =
    merge_snapshot-link_days snapshot pool outcome "rust" 10 link_counters-Distinct
      merge_snapshot-outcome

-- The dates of the tests.
abbrev parse_test_date : String → Option NaiveDate
parse_test_date s = if s == "2026-01-05" then some 10 else none

abbrev fields : List (String × String)
fields = ("2026-01-05", "12") ∷ ("yesterday", "3") ∷ ("2026-01-05", "-1") ∷ []

abbrev parsing : Unit {0}
unfolding parse_daily_counts parse_field parse_i64 insert lookup
parsing = tt

fields_lem : lookup 10 (parse_daily_counts parse_test_date fields).valid ≡ some 12
unfolding parsing
fields_lem = refl
