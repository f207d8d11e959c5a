-- ===== src/Analytics/Snapshot.antt =====
-- analytics/src/snapshot.rs: what is read from Redis, and how it is merged. Counts of clicks are
-- nonnegative: the parser refuses others, and so do the tables.
pub mod Fields
use k_url.Prelude.{
  ℕ, ◌+◌, ◌-◌, String, Bool, List, [], ◌∷◌, ◌++◌, Option, none, some, max, ltb, filter_by, map,
  if◌then◌else◌,
}
use k_url.Prelude.Int.{ℤ, pos, negsuc}
use k_url.Prelude.Time.{DateTime}
use k_url.Prelude.Maps.{Map, insert, nat_key, string_key, pair_key}
use k_url.Prelude.Parse.{parse_i64}
use k_url.Common.Database.{NaiveDate}

pub record RedisSnapshot : Type 0 where
  pub global_daily : Map NaiveDate ℕ
  pub link_daily : Map (String × NaiveDate) ℕ
  pub last_clicked_at : Map String DateTime
  pub stale_global : List NaiveDate
  pub stale_links : List (String × NaiveDate)

pub record MergeOutcome : Type 0 where
  pub committed_global : Map NaiveDate ℕ
  pub committed_links : Map (String × NaiveDate) ℕ
  pub global_delta : ℕ
  pub link_deltas : Map String ℕ

abbrev pub no_outcome : MergeOutcome
no_outcome = record {
  committed_global = [];
  committed_links = [];
  global_delta = 0;
  link_deltas = [];
}

pub record GlobalDailyStats : Type 0 where
  pub day : NaiveDate
  pub clicks : ℕ

pub record LinkDailyStats : Type 0 where
  pub short_code : String
  pub day : NaiveDate
  pub clicks : ℕ

pub record RehydrationData : Type 0 where
  pub global_daily : List GlobalDailyStats
  pub link_daily : List LinkDailyStats

unfoldable pub calculate_merge_delta : ℕ → ℕ → ℕ × ℕ
calculate_merge_delta existing incoming =
    let committed = max existing incoming in (committed, committed - existing)

unfoldable pub stale_global_fields : Map NaiveDate ℕ → NaiveDate → List NaiveDate
stale_global_fields daily cutoff = filter_by (λ d. ltb d cutoff) (map (λ e. e.0) daily)

unfoldable pub stale_link_fields :
    Map (String × NaiveDate) ℕ → NaiveDate → List (String × NaiveDate)
stale_link_fields daily cutoff = filter_by (λ k. ltb k.1 cutoff) (map (λ e. e.0) daily)

pub record MalformedField : Type 0 where
  pub key : String
  pub value : String
  pub reason : String

-- The counters and the malformed fields found so far.
pub record Parsed : Type 0 where
  pub valid : Map NaiveDate ℕ
  pub malformed : List MalformedField

-- What one field of a day-bucket hash adds. `parse_date` is `NaiveDate::parse_from_str` at the
-- format `%Y-%m-%d`.
unfoldable pub parse_field : (String → Option NaiveDate) → String → String → Parsed → Parsed
parse_field parse_date key value p = elim (parse_date key) [
  | none ↦ bad "invalid date format"
  | some date ↦ elim (parse_i64 value) [
    | none ↦ bad "invalid count"
    | some (pos c) ↦ record p { valid = insert date c p.valid }
    | some (negsuc n) ↦ bad "negative count"
  ]
]
  where
    bad : String → Parsed
    bad reason = record p {
      malformed = p.malformed ++ record { key = key; value = value; reason = reason } ∷ [];
    }

unfoldable pub parse_fields : (String → Option NaiveDate) → List (String × String) → Parsed → Parsed
parse_fields parse_date [] p = p
parse_fields parse_date ((key, value) ∷ rest) p =
    parse_fields parse_date rest (parse_field parse_date key value p)

-- The fields of a hash, in the order in which they are visited.
unfoldable pub parse_daily_counts : (String → Option NaiveDate) → List (String × String) → Parsed
unfolding parse_fields parse_field
parse_daily_counts parse_date fields =
    parse_fields parse_date fields (record { valid = []; malformed = [] })
