-- ===== src/Analytics/Merge/LinkDays.antt =====
-- The day-buckets and counts of single links after merge_snapshot of
-- analytics/src/db/pg_snapshot_repo.rs.
use k_url.Analytics.Merge.{
  contains_key, is_empty, merge_counters, merge_snapshot, nothing_merged, select_keys,
  upsert_existing,
}
use k_url.Analytics.Merge.Atomic.{merge_snapshot-atomic, merged_tables}
use k_url.Analytics.Merge.Tables.{merged_global, merged_links}
use k_url.Analytics.Merge.Totals.{merge_counters-upsert_all}
use k_url.Analytics.Snapshot.{MergeOutcome, RedisSnapshot}
use k_url.Common.Database.{LinkRow, NaiveDate, PgPool}
use k_url.Prelude.{String, [], ap, arith, if◌then◌else◌, max, ok, ℕ, ◌∷◌, ◌≡◌}
use k_url.Prelude.Maps.{Keyed, Map, pair_key, nat_key, string_key, lookup}
use k_url.Prelude.Sums.{Distinct, upsert, upsert_all, value, value-upsert}

module _ {K : Type 0} ⦃e : Keyed K⦄ where
  upsert_all-value :
      (k : K) (rows m n : Map K ℕ)
      → value k m ≡ value k n
      → value k (upsert_all rows m) ≡ value k (upsert_all rows n)
  unfolding upsert_all
  upsert_all-value k [] m n h = h
  upsert_all-value k ((j, v) ∷ rows) m n h =
      upsert_all-value k rows (upsert j v m) (upsert j v n)
        (ground (arith, h, value-upsert j k v m, value-upsert j k v n))

upsert_existing-value :
    (links : Map String LinkRow) (c : String) (day : NaiveDate)
    (rows m : Map (String × NaiveDate) ℕ)
    → value (c, day) (upsert_existing links rows m)
      ≡ (if contains_key c links then value (c, day) (upsert_all rows m) else value (c, day) m)
unfolding upsert_existing upsert_all contains_key
upsert_existing-value links c day [] m = ground arith
upsert_existing-value links c day (((b, d), n) ∷ rows) m = ground (
  arith,
  upsert_existing-value links c day rows m,
  upsert_existing-value links c day rows (upsert (b, d) n m),
  upsert_all-value (c, day) rows m (upsert (b, d) n m),
  value-upsert (b, d) (c, day) n m,
  string_key.same_iff b c,
  ap (λ x. lookup x links),
)

-- After a merge that succeeds the counter of a link on a day is the greater of the snapshot's and
-- the stored one where the link exists, and is as it was where the link is gone. It is assumed that
-- the snapshot has at most one counter for a link and a day.
pub merge_snapshot-link_days :
    (snapshot : RedisSnapshot) (pool : PgPool) (o : MergeOutcome) (c : String) (day : NaiveDate)
    → Distinct snapshot.link_daily
    → (merge_snapshot snapshot pool).0 ≡ ok o
    → value (c, day) (merge_snapshot snapshot pool).1.link_daily_clicks ≡ (
        if contains_key c pool.links
        then max (value (c, day) snapshot.link_daily) (value (c, day) pool.link_daily_clicks)
        else value (c, day) pool.link_daily_clicks)
unfolding merged_tables merged_global merged_links is_empty lookup
merge_snapshot-link_days snapshot pool o c day d h = ground (
  arith,
  ap (λ t. value (c, day) t.link_daily_clicks) ((merge_snapshot-atomic snapshot pool).0 o h).1,
  upsert_existing-value pool.links c day
      (merge_counters (select_keys snapshot.link_daily pool.link_daily_clicks) snapshot.link_daily
        nothing_merged).upserts
      pool.link_daily_clicks,
  (merge_counters-upsert_all snapshot.link_daily pool.link_daily_clicks d).1 (c, day),
)
