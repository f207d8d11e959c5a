-- ===== src/Gateway/Stats.antt =====
-- gateway/src/api/stats.rs, with the calls of gateway/src/grpc/mod.rs: the statistics of a link and
-- of all links.
use k_url.Common.Rpc.{
  Code, DailyClicks, GetGlobalStatsRequest, GetGlobalStatsResponse, GetLinkStatsRequest,
  GetLinkStatsResponse, Status, not_found,
}
use k_url.Prelude.{List, Option, Result, String, err, get_or, map, map_option, ok, ℕ}
use k_url.Prelude.Int.{ℤ}

pub record DailyClicksResp : Type 0 where
  pub date : String
  pub clicks : ℕ

pub record LinkStatsResp : Type 0 where
  pub short_code : String
  pub total_clicks : ℕ
  pub daily_clicks : List DailyClicksResp
  pub last_clicked_at : Option String

pub record GlobalStatsResp : Type 0 where
  pub total_clicks : ℕ
  pub daily_clicks : List DailyClicksResp

-- The analytics service at the far end of the channel.
pub record AnalyticsClient : Type 0 where
  pub get_link_stats : GetLinkStatsRequest → Result Status GetLinkStatsResponse
  pub get_global_stats : GetGlobalStatsRequest → Result Status GetGlobalStatsResponse

unfoldable pub analytics_get_link_stats :
    AnalyticsClient → String → Option ℕ → Result Status GetLinkStatsResponse
analytics_get_link_stats client short_code days =
    client.get_link_stats (record { short_code = short_code; days = days })

unfoldable pub analytics_get_global_stats :
    AnalyticsClient → Option ℕ → Result Status GetGlobalStatsResponse
analytics_get_global_stats client days = client.get_global_stats (record { days = days })

unfoldable pub daily_resp : DailyClicks → DailyClicksResp
daily_resp d = record { date = d.date; clicks = d.clicks }

-- `rfc3339` is the text of chrono::DateTime::from_timestamp, none where the instant is out of range.
unfoldable pub link_stats_resp : (ℤ → ℤ → Option String) → GetLinkStatsResponse → LinkStatsResp
unfolding daily_resp
link_stats_resp rfc3339 resp = record {
  short_code = resp.short_code;
  total_clicks = resp.total_clicks;
  daily_clicks = map daily_resp resp.daily_clicks;
  last_clicked_at = map_option (λ ts. get_or "" (rfc3339 ts.seconds ts.nanos)) resp.last_clicked_at;
}

unfoldable pub stats_status : Code → ℕ
stats_status not_found = 404
stats_status _ = 500

unfoldable pub link_stats :
    (ℤ → ℤ → Option String) → AnalyticsClient → String → Option ℕ → Result ℕ LinkStatsResp
unfolding link_stats_resp stats_status analytics_get_link_stats
link_stats rfc3339 client short_code days = elim (analytics_get_link_stats client short_code days) [
  | ok resp ↦ ok (link_stats_resp rfc3339 resp)
  | err error ↦ err (stats_status error.code)
]

unfoldable pub global_stats : AnalyticsClient → Option ℕ → Result ℕ GlobalStatsResp
unfolding daily_resp analytics_get_global_stats
global_stats client days = elim (analytics_get_global_stats client days) [
  | ok resp ↦
      ok (record {
        total_clicks = resp.total_clicks;
        daily_clicks = map daily_resp resp.daily_clicks;
      })
  | err e ↦ err 500
]
