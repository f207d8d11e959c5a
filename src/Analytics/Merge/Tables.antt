-- ===== src/Analytics/Merge/Tables.antt =====
-- The statements of merge_snapshot of analytics/src/db/pg_snapshot_repo.rs as functions of the
-- tables, and the pool that runs them.
use k_url.Analytics.Merge.{
  Merged, add_gains, all_gains, is_empty, link_deltas, merge_counters, merge_global, merge_links,
  no_gains, nothing_merged, select_keys, upsert_existing,
}
use k_url.Analytics.Merge.Statements.{Does, bind-Does, execute-Does, if-Does, pure-Does}
use k_url.Common.Database.{Db, NaiveDate}
use k_url.Common.DbErrors.{SqlxError}
use k_url.Prelude.{String, [], arith, if◌then◌else◌, ltb, not, ok, ℕ, ◌+◌, ◌≡◌}
use k_url.Prelude.Effects.{Exec, pure, ◌>>=◌, ◌>>◌}
use k_url.Prelude.Maps.{Map, nat_key, string_key, pair_key}
use k_url.Prelude.Sums.{upsert_all}
use k_url.Prelude.Time.{DateTime}

-- What the loop over the counters of all links finds in the tables.
abbrev pub global_merge : Map NaiveDate ℕ → Db → Merged NaiveDate
global_merge daily db =
    merge_counters (select_keys daily db.global_daily_clicks) daily nothing_merged

-- The tables that the two parts of the merge leave.

unfoldable pub merged_global : Map NaiveDate ℕ → Db → Db
merged_global daily db =
    let merged = global_merge daily db in
    record db {
      global_daily_clicks = upsert_all merged.upserts db.global_daily_clicks;
      total_clicks = db.total_clicks + merged.delta;
    }

-- The statements of merge_global.
abbrev pub global_statements : Map NaiveDate ℕ → Exec Db SqlxError (Merged NaiveDate)
global_statements daily = do
  existing ← (λ db. (ok (select_keys daily db.global_daily_clicks), db))
  let merged = merge_counters existing daily nothing_merged
  (if not (is_empty merged.upserts)
      then (λ db. (
        ok tt,
        record db { global_daily_clicks = upsert_all merged.upserts db.global_daily_clicks },
      ))
      else pure tt)
  (if ltb 0 merged.delta
      then (λ db. (ok tt, record db { total_clicks = db.total_clicks + merged.delta }))
      else pure tt)
  pure merged

pub merge_global-Does :
    (daily : Map NaiveDate ℕ) → Does (merge_global daily) (global_statements daily)
unfolding merge_global
merge_global-Does daily = bind-Does _ _ _ _ (execute-Does _) (λ existing.
    let merged = merge_counters existing daily nothing_merged in
    bind-Does _ _ _ _ (if-Does (not (is_empty merged.upserts)) _ _ tt (execute-Does _)) (λ _.
      bind-Does _ _ _ _ (if-Does (ltb 0 merged.delta) _ _ tt (execute-Does _))
        (λ _. pure-Does merged)))

pub global_statements_lem :
    (daily : Map NaiveDate ℕ) (db : Db)
    → global_statements daily db ≡ (ok (global_merge daily db), merged_global daily db)
unfolding merged_global is_empty upsert_all
global_statements_lem daily db = ground arith

-- What the loop over the counters of links finds in the tables.
abbrev pub link_merge : Map (String × NaiveDate) ℕ → Db → Merged (String × NaiveDate)
link_merge daily db = merge_counters (select_keys daily db.link_daily_clicks) daily nothing_merged

abbrev pub found_deltas : Map (String × NaiveDate) ℕ → Db → Map String ℕ
found_deltas daily db = link_deltas (select_keys daily db.link_daily_clicks) daily []

unfoldable pub merged_links : Map (String × NaiveDate) ℕ → Map String DateTime → Db → Db
merged_links daily last db = record db {
  link_daily_clicks = upsert_existing db.links (link_merge daily db).upserts db.link_daily_clicks;
  links = add_gains (all_gains (found_deltas daily db) last) db.links;
}

abbrev pub link_statements :
    Map (String × NaiveDate) ℕ
    → Map String DateTime
    → Exec Db SqlxError (Merged (String × NaiveDate) × Map String ℕ)
link_statements daily last = do
  existing ← (λ db. (ok (select_keys daily db.link_daily_clicks), db))
  let merged = merge_counters existing daily nothing_merged
  let deltas = link_deltas existing daily []
  (if not (is_empty merged.upserts)
      then (λ db. (
        ok tt,
        record db {
          link_daily_clicks = upsert_existing db.links merged.upserts db.link_daily_clicks;
        },
      ))
      else pure tt)
  let gains = all_gains deltas last
  (if not (no_gains gains)
      then (λ db. (ok tt, record db { links = add_gains gains db.links }))
      else pure tt)
  pure (merged, deltas)

pub merge_links-Does :
    (daily : Map (String × NaiveDate) ℕ) (last : Map String DateTime)
    → Does (merge_links daily last) (link_statements daily last)
unfolding merge_links
merge_links-Does daily last = bind-Does _ _ _ _ (execute-Does _) (λ existing.
    let merged = merge_counters existing daily nothing_merged in
    let deltas = link_deltas existing daily [] in
    bind-Does _ _ _ _ (if-Does (not (is_empty merged.upserts)) _ _ tt (execute-Does _)) (λ _.
      bind-Does _ _ _ _ (if-Does (not (no_gains (all_gains deltas last))) _ _ tt (execute-Does _))
        (λ _. pure-Does (merged, deltas))))

pub link_statements_lem :
    (daily : Map (String × NaiveDate) ℕ) (last : Map String DateTime) (db : Db)
    → link_statements daily last db
      ≡ (ok (link_merge daily db, found_deltas daily db), merged_links daily last db)
unfolding merged_links is_empty upsert_existing no_gains add_gains
link_statements_lem daily last db = ground arith
