-- ===== src/Analytics/Queries.antt =====
-- The queries of analytics/src/db/db.rs, and those of SnapshotRepoPg in
-- analytics/src/db/pg_snapshot_repo.rs that only read. `today` is the date of chrono::Utc::now().
pub mod Answers
pub mod Days
-- select click_count, last_clicked_at from links where short_code = $1
use k_url.Analytics.Snapshot.{GlobalDailyStats, LinkDailyStats, RehydrationData}
use k_url.Common.Database.{Db, NaiveDate, PgPool, execute}
use k_url.Common.DbErrors.{DbError, SqlxError, from_sqlx, row_not_found}
use k_url.Core.Repository.Pg.{row}
use k_url.Prelude.{
  List, Option, Result, String, [], err, filter_by, if◌then◌else◌, leb, map, none, ok, some, ℕ,
  ◌&&◌, ◌-◌, ◌∷◌,
}
use k_url.Prelude.Effects.{Exec, catch, pure, ◌>>=◌, ◌>>◌}
use k_url.Prelude.Maps.{Map, lookup, ◌==◌, string_key}
use k_url.Prelude.Time.{DateTime}

unfoldable pub select_totals : String → Db → Result SqlxError (ℕ × Option DateTime) × Db
select_totals short_code db = elim (lookup short_code db.links) [
  | none ↦ (err row_not_found, db)
  | some r ↦ (ok (r.click_count, r.last_clicked_at), db)
]

unfoldable pub get_link_totals : String → Exec PgPool DbError (ℕ × Option DateTime)
unfolding select_totals
get_link_totals short_code = catch from_sqlx (execute (select_totals short_code))

-- order by day
unfoldable pub insert_day : NaiveDate × ℕ → List (NaiveDate × ℕ) → List (NaiveDate × ℕ)
insert_day row [] = row ∷ []
insert_day (day, n) ((d, m) ∷ rows) =
    let more = insert_day (day, n) rows in
    if leb day d then (day, n) ∷ (d, m) ∷ rows else (d, m) ∷ more

unfoldable pub order_by_day : List (NaiveDate × ℕ) → List (NaiveDate × ℕ)
unfolding insert_day
order_by_day [] = []
order_by_day (row ∷ rows) = insert_day row (order_by_day rows)

-- where short_code = $1 and day >= $2
unfoldable pub rows_of : String → NaiveDate → Map (String × NaiveDate) ℕ → List (NaiveDate × ℕ)
rows_of short_code since [] = []
rows_of short_code since (((code, day), clicks) ∷ rows) =
    let more = rows_of short_code since rows in
    if code == short_code && leb since day then (day, clicks) ∷ more else more

-- select short_code, day, clicks from link_daily_clicks where … order by day
unfoldable pub select_days : String → NaiveDate → Db → Result SqlxError (List (NaiveDate × ℕ)) × Db
unfolding rows_of order_by_day
select_days short_code since db =
    (ok (order_by_day (rows_of short_code since db.link_daily_clicks)), db)

unfoldable pub get_link_stats : NaiveDate → String → ℕ → Exec PgPool DbError (List (NaiveDate × ℕ))
unfolding select_days
get_link_stats today short_code days =
    let since = today - days in catch from_sqlx (execute (select_days short_code since))

-- select total_clicks from analytics_global where id = 1
unfoldable pub get_global_total_clicks : Exec PgPool DbError ℕ
get_global_total_clicks = catch from_sqlx (execute (λ db. (ok db.total_clicks, db)))

-- select day, clicks from global_daily_clicks where day >= $1 order by day
unfoldable pub get_global_daily_clicks_since :
    NaiveDate → Exec PgPool DbError (List GlobalDailyStats)
unfolding order_by_day
get_global_daily_clicks_since date = catch from_sqlx (
    execute (λ db. (
      ok (
          map (λ row. record { day = row.0; clicks = row.1 })
            (order_by_day (filter_by (λ row. leb date row.0) db.global_daily_clicks))),
      db,
    )))

-- select short_code, day, clicks from link_daily_clicks where day >= $1
unfoldable pub get_link_daily_clicks_since : NaiveDate → Exec PgPool DbError (List LinkDailyStats)
get_link_daily_clicks_since date = catch from_sqlx (
    execute (λ db. (
      ok (
          map (λ row. record { short_code = row.0.0; day = row.0.1; clicks = row.1 })
            (filter_by (λ row. leb date row.0.1) db.link_daily_clicks)),
      db,
    )))

-- SnapshotRepoPg::get_daily_clicks_since
unfoldable pub get_daily_clicks_since : NaiveDate → Exec PgPool DbError RehydrationData
unfolding get_global_daily_clicks_since get_link_daily_clicks_since
get_daily_clicks_since since = do
  global_daily ← get_global_daily_clicks_since since
  link_daily ← get_link_daily_clicks_since since
  pure (record { global_daily = global_daily; link_daily = link_daily })
