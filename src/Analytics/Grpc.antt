-- ===== src/Analytics/Grpc.antt =====
-- analytics/src/grpc.rs: the handlers of the analytics service. `show_date` is the text of a date,
-- and `into` the conversion of an instant to a timestamp.
pub mod Replies
use k_url.Analytics.Repository.{AnalyticsRepository}
use k_url.Common.Database.{NaiveDate}
use k_url.Common.DbErrors.{DbError}
use k_url.Common.Rpc.{
  DailyClicks, GetGlobalStatsRequest, GetGlobalStatsResponse, GetLinkStatsRequest,
  GetLinkStatsResponse, Status, Timestamp, internal, not_found, status,
}
use k_url.Core.Repository.Pg.{row}
use k_url.Prelude.{List, Option, String, get_or, map, map_option, max, min, ℕ}
use k_url.Prelude.Effects.{Exec, catch, pure, ◌>>=◌}
use k_url.Prelude.Faults.{Fault, panicked, raised}
use k_url.Prelude.Time.{DateTime}

abbrev pub default_days : ℕ
default_days = 7

abbrev pub max_days : ℕ
max_days = 90

-- u32::clamp(1, max_days)
unfoldable pub clamp_days : Option ℕ → ℕ
clamp_days days = min (max (get_or default_days days) 1) max_days

unfoldable pub to_daily_clicks : (NaiveDate → String) → List (NaiveDate × ℕ) → List DailyClicks
to_daily_clicks show_date rows = map (λ row. record { date = show_date row.0; clicks = row.1 }) rows

unfoldable pub database_error : Fault DbError → Fault Status
database_error (raised e) = raised (status internal "Database error")
database_error panicked = panicked

unfoldable pub totals_error : Fault DbError → Fault Status
totals_error (raised DbError.not_found) = raised (status not_found "Short code not found")
totals_error (raised e) = raised (status internal "Database error")
totals_error panicked = panicked

module _ (db : AnalyticsRepository) (show_date : NaiveDate → String)
    (into : DateTime → Timestamp) where
  unfoldable pub get_link_stats :
      GetLinkStatsRequest → Exec db.Store (Fault Status) GetLinkStatsResponse
  unfolding clamp_days to_daily_clicks database_error totals_error
  get_link_stats req = do
    let days = clamp_days req.days
    totals ← catch totals_error (db.get_link_totals req.short_code)
    daily ← catch database_error (db.get_link_stats req.short_code days)
    pure (record {
      short_code = req.short_code;
      total_clicks = totals.0;
      daily_clicks = to_daily_clicks show_date daily;
      last_clicked_at = map_option into totals.1;
    })

  unfoldable pub get_global_stats :
      GetGlobalStatsRequest → Exec db.Store (Fault Status) GetGlobalStatsResponse
  unfolding clamp_days to_daily_clicks database_error
  get_global_stats req = do
    let days = clamp_days req.days
    total_clicks ← catch database_error db.get_global_total_clicks
    daily ← catch database_error (db.get_global_daily_stats days)
    pure (record { total_clicks = total_clicks; daily_clicks = to_daily_clicks show_date daily })
