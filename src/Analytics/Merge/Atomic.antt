-- ===== src/Analytics/Merge/Atomic.antt =====
-- merge_snapshot of analytics/src/db/pg_snapshot_repo.rs is atomic: it leaves the tables that its
-- statements make of them, or the tables as they were.
use k_url.Analytics.Merge.{
  Merged, begun, is_empty, merge_body, merge_snapshot, nothing_merged, transaction, merge_counters,
  commit,
}
use k_url.Analytics.Merge.Statements.{Does, bind-Does, execute-Does, pure-Does, unless-Does}
use k_url.Analytics.Merge.Tables.{
  found_deltas, global_merge, global_statements, global_statements_lem, link_merge, link_statements,
  link_statements_lem, merge_global-Does, merge_links-Does, merged_global, merged_links,
}
use k_url.Analytics.Snapshot.{MergeOutcome, RedisSnapshot}
use k_url.Common.Database.{
  Db, NaiveDate, PgPool, Outage, no_connection, broken_pipe, driver_error, answer_lost, execute,
}
use k_url.Common.DbErrors.{DbError, SqlxError, from_sqlx, io}
use k_url.Prelude.{
  Result-cases, String, [], ap, arith, err, if◌then◌else◌, inl, inr, ok, refl, true, ℕ, ◌∷◌, ◌≡◌,
  List, Option, none, some, ◌⊎◌, ◌∙◌,
}
use k_url.Prelude.Effects.{Exec, pure, ◌>>◌, catch}
use k_url.Prelude.Maps.{Map, nat_key, pair_key, string_key}
use k_url.Prelude.Sums.{upsert_all}
-- The tables that a merge leaves, and what it reports.
use k_url.Analytics.Merge.{is_empty, merge_body, merge_snapshot, nothing_merged, transaction}
use k_url.Analytics.Merge.Statements.{Does, bind-Does, pure-Does, unless-Does}
use k_url.Analytics.Merge.Tables.{
  found_deltas, global_merge, global_statements, global_statements_lem, link_merge, link_statements,
  link_statements_lem, merge_global-Does, merge_links-Does, merged_global, merged_links,
}
use k_url.Analytics.Snapshot.{MergeOutcome, RedisSnapshot}
use k_url.Common.Database.{Db, PgPool}
use k_url.Common.DbErrors.{DbError, SqlxError}
use k_url.Prelude.{[], arith, err, if◌then◌else◌, ok, ◌≡◌}
use k_url.Prelude.Effects.{Exec, pure, ◌>>=◌}

unfoldable pub merged_tables : RedisSnapshot → Db → Db
merged_tables snapshot db =
    let half = merged_global snapshot.global_daily db in
    if is_empty snapshot.link_daily
    then half
    else merged_links snapshot.link_daily snapshot.last_clicked_at half

unfoldable pub merge_report : RedisSnapshot → Db → MergeOutcome
merge_report snapshot db =
    let global = global_merge snapshot.global_daily db in
    let links : Merged (String × NaiveDate) × Map String ℕ =
      if is_empty snapshot.link_daily
      then (nothing_merged, [])
      else (link_merge snapshot.link_daily db, found_deltas snapshot.link_daily db) in
    record {
      committed_global = global.committed;
      committed_links = links.0.committed;
      global_delta = global.delta;
      link_deltas = links.1;
    }

body_statements : RedisSnapshot → Exec Db SqlxError MergeOutcome
body_statements snapshot = do
  global ←
      (if is_empty snapshot.global_daily
        then pure nothing_merged
        else global_statements snapshot.global_daily)
  links ←
      (if is_empty snapshot.link_daily
        then pure (nothing_merged, [])
        else link_statements snapshot.link_daily snapshot.last_clicked_at)
  pure (record {
    committed_global = global.committed;
    committed_links = links.0.committed;
    global_delta = global.delta;
    link_deltas = links.1;
  })

merge_body-Does : (snapshot : RedisSnapshot) → Does (merge_body snapshot) (body_statements snapshot)
unfolding merge_body body_statements
merge_body-Does snapshot =
    bind-Does _ _ _ _
      (unless-Does (is_empty snapshot.global_daily) _ _ nothing_merged
        (merge_global-Does snapshot.global_daily))
      (λ global.
        bind-Does _ _ _ _
          (unless-Does (is_empty snapshot.link_daily) _ _ (nothing_merged, [])
            (merge_links-Does snapshot.link_daily snapshot.last_clicked_at))
          (λ links. pure-Does _))

merged_global-empty :
    (daily : Map NaiveDate ℕ) (db : Db)
    → is_empty daily ≡ true
    → (merged_global daily db ≡ db) × (global_merge daily db ≡ nothing_merged)
unfolding merged_global is_empty upsert_all merge_counters
merged_global-empty [] db h = (ap (λ n. record db { total_clicks = n }) (omega arith), refl)
merged_global-empty (e ∷ daily) db h = ground arith

body_statements_lem :
    (snapshot : RedisSnapshot) (db : Db)
    → body_statements snapshot db ≡ (ok (merge_report snapshot db), merged_tables snapshot db)
unfolding body_statements merged_tables merge_report merged_global is_empty upsert_all
body_statements_lem snapshot db = ground (
  arith,
  merged_global-empty snapshot.global_daily db,
  global_statements_lem snapshot.global_daily db,
  link_statements_lem snapshot.link_daily snapshot.last_clicked_at db,
  link_statements_lem snapshot.link_daily snapshot.last_clicked_at
      (merged_global snapshot.global_daily db),
)

begun_statements : {A : Type 0} → Exec Db SqlxError A → Exec Db SqlxError A
begun_statements f = do (λ db. (ok tt, db)); f

begun-Does :
    {A : Type 0} (m : Exec PgPool SqlxError A) (f : Exec Db SqlxError A)
    → Does m f
    → Does (begun m) (begun_statements f)
unfolding begun begun_statements
begun-Does m f h = bind-Does _ _ _ _ (execute-Does (λ db. (ok tt, db))) (λ _. h)

-- A commit that fails has not reached the server, or its answer is lost.
commit_lem :
    {A : Type 0} (a : A) (written : Db) (pool : PgPool)
    → ((b : A)
        → (catch from_sqlx (commit a written) pool).0 ≡ ok b
        → (a ≡ b) × ((catch from_sqlx (commit a written) pool).1.db ≡ written))
      × ((e : DbError)
          → (catch from_sqlx (commit a written) pool).0 ≡ err e
          → ((catch from_sqlx (commit a written) pool).1.db ≡ pool.db)
            ⊎ ((e ≡ from_sqlx io) × ((catch from_sqlx (commit a written) pool).1.db ≡ written)))
unfolding commit execute
commit_lem {A = A} a written pool = by_outages pool.outages
  where
    by_outages :
        (os : List (Option Outage))
        → let (r, after) = catch from_sqlx (commit a written) (record pool { outages = os }) in
          ((b : A) → r ≡ ok b → (a ≡ b) × (after.db ≡ written))
          × ((e : DbError)
              → r ≡ err e
              → (after.db ≡ pool.db) ⊎ ((e ≡ from_sqlx io) × (after.db ≡ written)))
    by_outages [] = (λ b h. ground arith, λ e h. ground arith)
    by_outages (none ∷ rest) = (λ b h. ground arith, λ e h. ground arith)
    by_outages (some no_connection ∷ rest) = (λ b h. ground arith, λ e h. inl refl)
    by_outages (some broken_pipe ∷ rest) = (λ b h. ground arith, λ e h. inl refl)
    by_outages (some driver_error ∷ rest) = (λ b h. ground arith, λ e h. inl refl)
    by_outages (some answer_lost ∷ rest) = (λ b h. ground arith, λ e h. inr (ground arith, refl))

transaction-begun :
    {A : Type 0} (m : Exec PgPool SqlxError A) (a : A) (pool : PgPool)
    → (begun m pool).0 ≡ ok a
    → transaction m pool
      ≡ catch from_sqlx (commit a (begun m pool).1.db) (record (begun m pool).1 { db = pool.db })
unfolding transaction
transaction-begun m a pool good = rw (good, transaction) refl

transaction_lem :
    {A : Type 0} (m : Exec PgPool SqlxError A) (f : Exec Db SqlxError A) (pool : PgPool)
    → Does m f
    → ((a : A)
        → (transaction m pool).0 ≡ ok a
        → ((f pool.db).0 ≡ ok a) × ((transaction m pool).1.db ≡ (f pool.db).1))
      × ((e : DbError)
          → (transaction m pool).0 ≡ err e
          → ((transaction m pool).1.db ≡ pool.db)
            ⊎ ((e ≡ from_sqlx io) × ((transaction m pool).1.db ≡ (f pool.db).1)))
unfolding transaction begun_statements
transaction_lem m f pool h = elim (Result-cases (begun m pool).0) [
  | inl (a, good) ↦
      let last = commit_lem a (begun m pool).1.db (record (begun m pool).1 { db = pool.db }) in
      let ran = begun-Does m f h pool a good in
      rw (transaction-begun m a pool good) (
        λ b r. ground (arith, ran, last.0 b r, Result-cases (f pool.db).0),
        λ e r. elim (last.1 e r) [
          | inl kept ↦ inl kept
          | inr (lost, wrote) ↦ inr (lost, wrote ∙ ran.1)
        ],
      )
  | inr (e, failed) ↦ (λ b r. ground arith, λ e r. inl (ground arith))
]

-- A merge that succeeds leaves the tables that its statements make of them and reports what they
-- found. One that fails leaves every table as it was, or, where it fails with the error of a lost
-- connection, may have committed all of it; no failure leaves a part.
pub merge_snapshot-atomic :
    (snapshot : RedisSnapshot) (pool : PgPool)
    → ((o : MergeOutcome)
        → (merge_snapshot snapshot pool).0 ≡ ok o
        → (o ≡ merge_report snapshot pool.db)
          × ((merge_snapshot snapshot pool).1.db ≡ merged_tables snapshot pool.db))
      × ((e : DbError)
          → (merge_snapshot snapshot pool).0 ≡ err e
          → ((merge_snapshot snapshot pool).1.db ≡ pool.db)
            ⊎ ((e ≡ from_sqlx io)
                × ((merge_snapshot snapshot pool).1.db ≡ merged_tables snapshot pool.db)))
unfolding merge_snapshot merge_report merged_tables
merge_snapshot-atomic snapshot pool =
    let body =
      transaction_lem (merge_body snapshot) (body_statements snapshot) pool
        (merge_body-Does snapshot) in
    (
      λ o h. ground (
        arith,
        body.0 o,
        merged_global-empty snapshot.global_daily pool.db,
        body_statements_lem snapshot pool.db,
      ),
      λ e h. ground (arith, body.1 e, body_statements_lem snapshot pool.db),
    )
