-- ===== src/Analytics/UpdateTests.antt =====
-- Runs of the statements of analytics/src/db/db.rs that write arrays.
use k_url.Analytics.Updates.{
  both, cardinality_violation, foreign_key_violation, get_link_daily_values, mentions,
  not_null_violation, unnest2, unnest3, update_global_daily_clicks, update_link_daily_clicks,
  update_link_total_and_last_click,
}
use k_url.Analytics.Updates.Kept.{get_link_daily_values-update_link_daily_clicks, given}
use k_url.Common.Database.{LinkRow, NaiveDate, PgPool, execute}
use k_url.Common.DbErrors.{from_sqlx, other}
use k_url.Prelude.{List, Option, String, [], err, map, max, none, ok, refl, some, true, ℕ, ◌∷◌, ◌≡◌}
use k_url.Prelude.Int.{pos}
use k_url.Prelude.Maps.{Map, insert, lookup, string_key, nat_key, pair_key}
use k_url.Prelude.Sums.{value}
use k_url.Prelude.Time.{DateTime}

abbrev link : LinkRow
link = record {
  target = "https://rust-lang.org";
  expiration = none;
  click_count = 5;
  last_clicked_at = some (pos 7);
}

abbrev pool : PgPool
pool = record {
  db = record {
    links = ("rust", link) ∷ [];
    link_daily_clicks = (("rust", 10), 3) ∷ (("rust", 9), 4) ∷ [];
    global_daily_clicks = (10, 3) ∷ [];
    total_clicks = 7;
  };
  outages = [];
}

abbrev codes : List String
codes = "rust" ∷ "rust" ∷ []

abbrev dates : List NaiveDate
dates = 10 ∷ 11 ∷ []

abbrev counts : List ℕ
counts = 2 ∷ 6 ∷ []

abbrev key : String × NaiveDate
key = ("rust", 10)

abbrev written : PgPool
written = (update_link_daily_clicks codes dates counts pool).1

abbrev found : Map (String × NaiveDate) ℕ
found = (("rust", 10), 3) ∷ (("rust", 11), 6) ∷ []

writes : update_link_daily_clicks codes dates counts pool ≡ (ok tt, written)
unfolding update_link_daily_clicks execute lookup insert
writes = refl

reads : get_link_daily_values codes dates written ≡ (ok found, written)
unfolding update_link_daily_clicks get_link_daily_values execute lookup insert
reads = refl

named : mentions key (map both (unnest2 codes dates)) ≡ true
unfolding mentions unnest2 both
named = refl

get_link_daily_values-update_link_daily_clicks_example :
    value key found
    ≡ max (given key (unnest3 codes dates counts)) (value key pool.link_daily_clicks)
get_link_daily_values-update_link_daily_clicks_example =
    get_link_daily_values-update_link_daily_clicks codes codes dates dates counts pool written
      written key found writes reads named

-- A key that is given twice, a missing count and a link that is gone are errors, and nothing is written.
twice :
    update_link_daily_clicks codes (10 ∷ 10 ∷ []) counts pool
    ≡ (err (other cardinality_violation), pool)
unfolding update_link_daily_clicks execute lookup insert from_sqlx
twice = refl

short : update_global_daily_clicks dates (4 ∷ []) pool ≡ (err (other not_null_violation), pool)
unfolding update_global_daily_clicks execute lookup insert from_sqlx
short = refl

gone :
    update_link_daily_clicks ("go" ∷ []) (10 ∷ []) (1 ∷ []) pool
    ≡ (err (other foreign_key_violation), pool)
unfolding update_link_daily_clicks execute lookup insert from_sqlx
gone = refl

abbrev first_row : List (Option ℕ × Option DateTime) → Option (Option ℕ × Option DateTime)
first_row [] = none
first_row (row ∷ rows) = some row

-- Of two counts for one link, the statement adds one.
one_of_two :
    (update_link_total_and_last_click first_row codes counts (pos 6 ∷ pos 9 ∷ []) pool).1.links
    ≡ ("rust", record link { click_count = 7 }) ∷ []
unfolding update_link_total_and_last_click execute
one_of_two = refl
