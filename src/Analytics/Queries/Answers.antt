-- ===== src/Analytics/Queries/Answers.antt =====
-- What the queries of analytics/src/db/db.rs answer.

-- The total of a link comes from its row, and a link without one is not found.
use k_url.Analytics.Queries.{
  get_link_stats, order_by_day, rows_of, select_days, select_totals, get_link_totals,
}
use k_url.Common.Database.{execute-cases, LinkRow, NaiveDate, PgPool, outage_error}
use k_url.Common.DbErrors.{from_sqlx, not_found}
use k_url.Prelude.{
  List, Option, Option-cases, String, arith, err, inl, inr, none, ok, some, ℕ, ◌-◌, ◌≡◌,
}
use k_url.Prelude.Maps.{lookup, string_key}
use k_url.Prelude.Time.{DateTime}

pub get_link_totals_lem :
    (c : String) (pool : PgPool)
    → ((get_link_totals c pool).1.db ≡ pool.db)
      × ((n : ℕ) (at : Option DateTime)
          → (get_link_totals c pool).0 ≡ ok (n, at)
          → (l : LinkRow) × (lookup c pool.links ≡ some l)
            × (n ≡ l.click_count)
            × (at ≡ l.last_clicked_at))
      × ((get_link_totals c pool).0 ≡ err not_found → lookup c pool.links ≡ none)
unfolding get_link_totals from_sqlx outage_error select_totals
get_link_totals_lem c pool = elim (Option-cases (lookup c pool.links)) [
  | inl gone ↦ ground (arith, execute-cases (select_totals c) pool)
  | inr (l, there) ↦ (
    ground (arith, execute-cases (select_totals c) pool),
    λ n at h. (
      l,
      there,
      ground (arith, execute-cases (select_totals c) pool),
      ground (arith, execute-cases (select_totals c) pool),
    ),
    ground (arith, execute-cases (select_totals c) pool),
  )
]

-- The days of a link are read from the table as it stands.
pub get_link_stats_lem :
    (today : NaiveDate) (c : String) (days : ℕ) (pool : PgPool)
    → ((get_link_stats today c days pool).1.db ≡ pool.db)
      × ((rows : List (NaiveDate × ℕ))
          → (get_link_stats today c days pool).0 ≡ ok rows
          → rows ≡ order_by_day (rows_of c (today - days) pool.link_daily_clicks))
unfolding get_link_stats select_days
get_link_stats_lem today c days pool =
    ground (arith, execute-cases (select_days c (today - days)) pool)
