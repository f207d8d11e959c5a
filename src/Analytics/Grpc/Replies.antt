-- ===== src/Analytics/Grpc/Replies.antt =====
-- What the handlers of analytics/src/grpc.rs answer over a pool.

use k_url.Analytics.Queries
use k_url.Analytics.Grpc.{
  clamp_days, database_error, get_global_stats, get_link_stats, to_daily_clicks, totals_error,
}
use k_url.Analytics.Queries.Answers.{get_link_stats_lem, get_link_totals_lem}
use k_url.Analytics.Queries.Days.{Ascending, Row, Stored}
use k_url.Analytics.Repository.{get_global_daily_stats, pg_analytics}
use k_url.Common.Database.{NaiveDate, PgPool}
use k_url.Common.DbErrors.{DbError}
use k_url.Common.Rpc.{
  DailyClicks, GetGlobalStatsResponse, GetLinkStatsResponse, Status, Timestamp, internal, not_found,
  status,
}
use k_url.Prelude.{
  List, Option, Result, Result-cases, String, arith, err, inl, inr, none, refl, ℕ, ◌-◌, ◌↔◌, ◌≡◌,
  ◌≤◌, ◌⊎◌,
}
use k_url.Prelude.Faults.{Fault, panicked, raised}
use k_url.Prelude.Maps.{Map, lookup, string_key}
use k_url.Prelude.Time.{DateTime}

module _ (today : NaiveDate) (show_date : NaiveDate → String) (into : DateTime → Timestamp) where
  -- The rows that a reply shows: those of the last days, in order, and no others.
  pub record Shows (c : String) (days : Option ℕ) (t : Map (String × NaiveDate) ℕ)
      (shown : List DailyClicks) : Type 0 where
    pub rows : List (NaiveDate × ℕ)
    pub as_shown : shown ≡ to_daily_clicks show_date rows
    pub ascending : Ascending rows
    pub complete :
        (day : NaiveDate) (n : ℕ)
        → Row day n rows ↔ ((today - clamp_days days ≤ day) × Stored c day n t)

  -- The handlers over a pool, as main.rs sets them up.
  unfoldable pub link_stats_reply :
      String → Option ℕ → PgPool → Result (Fault Status) GetLinkStatsResponse × PgPool
  unfolding pg_analytics
  link_stats_reply c days =
      get_link_stats (pg_analytics today) show_date into (record { short_code = c; days = days })

  unfoldable pub global_stats_reply :
      Option ℕ → PgPool → Result (Fault Status) GetGlobalStatsResponse × PgPool
  unfolding pg_analytics
  global_stats_reply days =
      get_global_stats (pg_analytics today) show_date into (record { days = days })

  -- A request that fails changes no table and does not panic. Its status is that of a link which is
  -- not there, and then it is not, or that of an internal error.
  pub get_link_stats_err :
      (c : String) (days : Option ℕ) (pool : PgPool) (f : Fault Status)
      → (link_stats_reply c days pool).0 ≡ err f
      → ((e : Status) × (f ≡ raised e)
          × (((e.code ≡ not_found) × (lookup c pool.links ≡ none)) ⊎ (e.code ≡ internal)))
        × ((link_stats_reply c days pool).1.db ≡ pool.db)
  unfolding link_stats_reply get_link_stats pg_analytics totals_error database_error
  get_link_stats_err c days pool f h = elim (Result-cases (Queries.get_link_totals c pool).0) [
    | inr (e, bad) ↦ (
      totals_failed e f (ground arith) (λ g. ground (arith, get_link_totals_lem c pool)),
      ground (arith, get_link_totals_lem c pool),
    )
    | inl ((n, at), good) ↦
        let next = (Queries.get_link_totals c pool).1 in
        let kept = (get_link_totals_lem c pool).0 in
        elim (Result-cases (Queries.get_link_stats today c (clamp_days days) next).0) [
          | inl (rows, shown) ↦ absurd (ground arith)
          | inr (e, bad) ↦ (
            (status internal "Database error", ground arith, inr refl),
            ground (arith, get_link_stats_lem today c (clamp_days days) next, kept),
          )
        ]
  ]
    where
      totals_failed :
          (e : DbError) (f : Fault Status)
          → f ≡ totals_error (raised e)
          → ((e ≡ DbError.not_found) → lookup c pool.links ≡ none)
          → (st : Status) × (f ≡ raised st)
            × (((st.code ≡ not_found) × (lookup c pool.links ≡ none)) ⊎ (st.code ≡ internal))
      totals_failed DbError.not_found f h g = (_, h, inl (refl, g refl))
      totals_failed (DbError.transient e) f h g = (_, h, inr refl)
      totals_failed (DbError.conflict e) f h g = (_, h, inr refl)
      totals_failed (DbError.other e) f h g = (_, h, inr refl)

  -- A request for the statistics of all links is never answered with them over a pool: the handler
  -- panics, unless the database fails before.
  pub get_global_stats_lem :
      (days : Option ℕ) (pool : PgPool)
      → ((global_stats_reply days pool).0 ≡ err panicked)
        ⊎ ((global_stats_reply days pool).0 ≡ err (raised (status internal "Database error")))
  unfolding global_stats_reply get_global_stats pg_analytics get_global_daily_stats database_error
  get_global_stats_lem days pool = elim (Result-cases (Queries.get_global_total_clicks pool).0) [
    | inl (n, good) ↦ inl (ground arith)
    | inr (e, bad) ↦ inr (ground arith)
  ]
