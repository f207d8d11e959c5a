-- ===== src/Analytics/Repository.antt =====
-- The trait AnalyticsRepository of analytics/src/db/mod.rs, and its implementation for a pool in
-- analytics/src/db/db.rs. A method may panic.

use k_url.Analytics.Queries
use k_url.Common.Database.{NaiveDate, PgPool}
use k_url.Common.DbErrors.{DbError}
use k_url.Prelude.{List, Option, String, ℕ}
use k_url.Prelude.Effects.{Exec, catch, raise}
use k_url.Prelude.Faults.{Fault, panicked, raised}
use k_url.Prelude.Time.{DateTime}

pub record AnalyticsRepository : Type 1 where
  pub Store : Type 0
  pub get_link_totals : String → Exec Store (Fault DbError) (ℕ × Option DateTime)
  pub get_link_stats : String → ℕ → Exec Store (Fault DbError) (List (NaiveDate × ℕ))
  pub get_global_total_clicks : Exec Store (Fault DbError) ℕ
  pub get_global_daily_stats : ℕ → Exec Store (Fault DbError) (List (NaiveDate × ℕ))

-- `todo!()`
unfoldable pub get_global_daily_stats : ℕ → Exec PgPool (Fault DbError) (List (NaiveDate × ℕ))
get_global_daily_stats days = raise panicked

unfoldable pub pg_analytics : NaiveDate → AnalyticsRepository
unfolding get_global_daily_stats
pg_analytics today = record {
  Store = PgPool;
  get_link_totals = λ code. catch raised (Queries.get_link_totals code);
  get_link_stats = λ code days. catch raised (Queries.get_link_stats today code days);
  get_global_total_clicks = catch raised Queries.get_global_total_clicks;
  get_global_daily_stats = get_global_daily_stats;
}
