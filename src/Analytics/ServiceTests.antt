-- ===== src/Analytics/ServiceTests.antt =====
-- Runs of the handlers and scripts of the crate analytics at concrete inputs.
use k_url.Analytics.Queries
use k_url.Analytics.Grpc.{get_link_stats, totals_error}
use k_url.Analytics.Grpc.Replies.{get_global_stats_lem, global_stats_reply, link_stats_reply}
use k_url.Analytics.Queries.{select_totals}
use k_url.Analytics.Redis.{RedisPool, Store, has, served}
use k_url.Analytics.Redis.Counters.{clicks}
use k_url.Analytics.RedisStats.{already_handled, applied, record_click, record_click_event}
use k_url.Analytics.RedisStats.Once.{counts, record_click-once, record_click_event_lem}
use k_url.Analytics.Repository.{pg_analytics}
use k_url.Common.Database.{LinkRow, NaiveDate, PgPool, execute}
use k_url.Common.DbErrors.{from_sqlx}
use k_url.Common.Events.{ClickEvent}
use k_url.Common.RedisKeys.{global_stats_key, link_stats_key}
use k_url.Common.Rpc.{GetLinkStatsResponse, Status, Timestamp, internal, not_found, status}
use k_url.Prelude.{
  String, [], err, false, if◌then◌else◌, none, ok, refl, some, true, ◌+◌, ◌∷◌, ◌≡◌, ◌⊎◌,
}
use k_url.Prelude.Faults.{Fault, panicked, raised}
use k_url.Prelude.Int.{pos}
use k_url.Prelude.Maps.{lookup, string_key, ◌==◌, nat_key}
use k_url.Prelude.Time.{DateTime}

abbrev show_date : NaiveDate → String
show_date d = if d == 10 then "2026-01-05" else "another day"

abbrev into : DateTime → Timestamp
into t = record { seconds = t; nanos = pos 0 }

abbrev link : LinkRow
link = record {
  target = "https://rust-lang.org";
  expiration = none;
  click_count = 5;
  last_clicked_at = none;
}

abbrev pool : PgPool
pool = record {
  db = record {
    links = ("rust", link) ∷ [];
    link_daily_clicks = (("rust", 11), 2) ∷ (("rust", 10), 3) ∷ (("rust", 1), 9) ∷ [];
    global_daily_clicks = [];
    total_clicks = 5;
  };
  outages = [];
}

abbrev reply : GetLinkStatsResponse
reply = record {
  short_code = "rust";
  total_clicks = 5;
  daily_clicks =
      record { date = "2026-01-05"; clicks = 3 } ∷ record { date = "another day"; clicks = 2 } ∷ [];
  last_clicked_at = none;
}

abbrev missing : Fault Status
missing = raised (status not_found "Short code not found")

refused : (link_stats_reply 12 show_date into "gone" none pool).0 ≡ err missing
unfolding link_stats_reply pg_analytics get_link_stats Queries.get_link_totals select_totals
    totals_error from_sqlx execute lookup
refused = refl

get_global_stats_lem_example :
    ((global_stats_reply 12 show_date into (some 30) pool).0 ≡ err panicked)
    ⊎ ((global_stats_reply 12 show_date into (some 30) pool).0
        ≡ err (raised (status internal "Database error")))
get_global_stats_lem_example = get_global_stats_lem 12 show_date into (some 30) pool

abbrev store : Store
store = record {
  hashes = ("stats:link:rust", ("monday", 4) ∷ []) ∷ [];
  strings = [];
  entries = "1-0" ∷ "2-0" ∷ [];
  group = true;
  incoming = [];
  pending = record { id = "1-0"; event = none } ∷ [];
}

abbrev global_name : String
global_name = "stats:global"

abbrev link_name : String
link_name = "stats:link:rust"

keys_apart : (global_name == link_name) ≡ false
keys_apart = refl

record_click-once_example :
    (has "1-0" store.pending ≡ true
      → ((record_click global_name link_name "last" "1-0" "monday" (pos 5) store).0 ≡ 1)
        × (counts global_name link_name "monday"
              (record_click global_name link_name "last" "1-0" "monday" (pos 5) store).1
            ≡ (clicks global_name "monday" store + 1, clicks link_name "monday" store + 1)))
    × (has "1-0" store.pending ≡ false
        → record_click global_name link_name "last" "1-0" "monday" (pos 5) store ≡ (0, store))
    × (record_click global_name link_name "last" "1-0" "monday"
          (pos 5)
          (record_click global_name link_name "last" "1-0" "monday" (pos 5) store).1
        ≡ (0, (record_click global_name link_name "last" "1-0" "monday" (pos 5) store).1))
record_click-once_example =
    record_click-once global_name link_name "last" "1-0" "monday" (pos 5) store keys_apart

abbrev click : ClickEvent
click = record { short_code = "rust"; at = pos 7 }

abbrev monday : DateTime → String
monday t = "monday"

abbrev redis : RedisPool
redis = record { store = store; answer = λ c n. served; at = 0 }

record_click_event_lem_example :
    (has "1-0" store.pending ≡ true
      → ((record_click_event monday (λ t. t) "1-0" click redis).0 ≡ ok already_handled)
        × (counts global_stats_key
              (link_stats_key "rust")
              "monday"
              (record_click_event monday (λ t. t) "1-0" click redis).1.store
            ≡ (
              clicks global_stats_key "monday" store + 1,
              clicks (link_stats_key "rust") "monday" store + 1,
            )))
    × (has "1-0" store.pending ≡ false
        → ((record_click_event monday (λ t. t) "1-0" click redis).0 ≡ ok applied)
          × ((record_click_event monday (λ t. t) "1-0" click redis).1.store ≡ store))
record_click_event_lem_example = record_click_event_lem monday (λ t. t) "1-0" click redis refl
