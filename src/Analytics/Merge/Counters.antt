-- ===== src/Analytics/Merge/Counters.antt =====
-- The day-buckets and totals after merge_snapshot of analytics/src/db/pg_snapshot_repo.rs.
use k_url.Analytics.Merge.{merge_snapshot}
use k_url.Analytics.Merge.Atomic.{merge_report, merge_snapshot-atomic, merged_tables}
use k_url.Analytics.Merge.Tables.{global_merge, merged_global, merged_links}
use k_url.Analytics.Merge.Totals.{merge_counters-upsert_all}
use k_url.Analytics.Snapshot.{MergeOutcome, RedisSnapshot}
use k_url.Common.Database.{NaiveDate, PgPool}
use k_url.Prelude.{ap, arith, max, ok, sym, ◌+◌, ◌∙◌, ◌≡◌}
use k_url.Prelude.Maps.{nat_key, pair_key, string_key}
use k_url.Prelude.Sums.{Distinct, sum, value}
-- The tables of a merge that succeeded.
use k_url.Analytics.Merge.{merge_snapshot}
use k_url.Analytics.Merge.Atomic.{merge_report, merge_snapshot-atomic, merged_tables}
use k_url.Analytics.Merge.Tables.{global_merge, merged_global, merged_links}
use k_url.Analytics.Merge.Totals.{merge_counters-upsert_all}
use k_url.Analytics.Snapshot.{MergeOutcome, RedisSnapshot}
use k_url.Common.Database.{NaiveDate, PgPool}
use k_url.Prelude.{ap, arith, max, ok, ◌+◌, ◌∙◌, ◌≡◌}
use k_url.Prelude.Sums.{Distinct, sum, value}

after_ok :
    (snapshot : RedisSnapshot) (pool : PgPool) (o : MergeOutcome)
    → (merge_snapshot snapshot pool).0 ≡ ok o
    → (o.global_delta ≡ (global_merge snapshot.global_daily pool.db).delta)
      × ((merge_snapshot snapshot pool).1.global_daily_clicks
          ≡ (merged_global snapshot.global_daily pool.db).global_daily_clicks)
      × ((merge_snapshot snapshot pool).1.total_clicks
          ≡ (merged_global snapshot.global_daily pool.db).total_clicks)
unfolding merge_report merged_tables merged_links
after_ok snapshot pool o h = ground (arith, (merge_snapshot-atomic snapshot pool).0 o h)

-- After a merge that succeeds each day's counter is the greater of the snapshot's and the stored
-- one, and the total has grown by as much as the counters have, which is what the merge reports.
-- It is assumed that the snapshot has at most one counter for a day.
pub merge_snapshot_totals :
    (snapshot : RedisSnapshot) (pool : PgPool) (o : MergeOutcome)
    → Distinct snapshot.global_daily
    → (merge_snapshot snapshot pool).0 ≡ ok o
    → ((day : NaiveDate)
        → value day (merge_snapshot snapshot pool).1.global_daily_clicks
          ≡ max (value day snapshot.global_daily) (value day pool.global_daily_clicks))
      × ((merge_snapshot snapshot pool).1.total_clicks ≡ pool.total_clicks + o.global_delta)
      × (sum (merge_snapshot snapshot pool).1.global_daily_clicks
          ≡ sum pool.global_daily_clicks + o.global_delta)
unfolding merged_global
merge_snapshot_totals snapshot pool o d h =
    let t = after_ok snapshot pool o h in
    let c = merge_counters-upsert_all snapshot.global_daily pool.db.global_daily_clicks d in
    (
      λ day. ap (value day) t.1 ∙ c.1 day,
      t.2 ∙ ap (λ n. pool.total_clicks + n) (sym t.0),
      ap sum t.1 ∙ c.0 ∙ ap (λ n. sum pool.global_daily_clicks + n) (sym t.0),
    )
