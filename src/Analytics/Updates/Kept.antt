-- ===== src/Analytics/Updates/Kept.antt =====
-- The statements of analytics/src/db/db.rs that write arrays of counters lose nothing.
use mathlib.Core.Path.{subst}
use k_url.Analytics.Merge.{contains_key}
use k_url.Analytics.RedisStats.Once.{counts}
use k_url.Analytics.Updates.{
  all_linked, both, foreign_key_violation, get_link_daily_values, insert_link_days, insert_rows,
  mentions, select_in, unnest2, unnest3, update_link_daily_clicks,
}
use k_url.Common.Config.Names.{tables}
use k_url.Common.Database.{
  execute-cases, Db, NaiveDate, PgPool, execute, outage_error, reaches_server,
}
use k_url.Common.DbErrors.{DbError, SqlxError, from_sqlx}
use k_url.Prelude.{
  Bool-cases, List, Option, Result, Result-cases, String, [], ap, arith, err, get_or, if◌then◌else◌,
  inl, inr, map, max, none, ok, refl, some, sym, true, ℕ, ◌∙◌, ◌∷◌, ◌≡◌, ◌⊎◌,
}
use k_url.Prelude.Effects.{catch}
use k_url.Prelude.Maps.{Keyed, Map, lookup, nat_key, pair_key, string_key, ◌==◌}
use k_url.Prelude.Sums.{upsert, value, value-upsert}

module _ {K : Type 0} ⦃e : Keyed K⦄ where
  -- The largest count that the rows give for a key.
  unfoldable pub given : K → List (Option K × Option ℕ) → ℕ
  given k [] = 0
  given k ((none, n) ∷ rows) = given k rows
  given k ((some j, n) ∷ rows) =
      let rest = given k rows in if j == k then max (get_or 0 n) rest else rest

  insert_rows-value :
      (rows : List (Option K × Option ℕ)) (seen : Map K (Unit {0})) (m m' : Map K ℕ) (k : K)
      → insert_rows rows seen m ≡ ok m'
      → value k m' ≡ max (given k rows) (value k m)
  unfolding insert_rows given
  insert_rows-value [] seen m m' k h = ground (arith, h)
  insert_rows-value ((none, n) ∷ rows) seen m m' k h = absurd (ground arith)
  insert_rows-value ((some j, none) ∷ rows) seen m m' k h = absurd (ground arith)
  insert_rows-value ((some j, some n) ∷ rows) seen m m' k h =
      elim (Bool-cases (contains_key j seen)) [
        | inl again ↦ absurd (ground (arith, again, h))
        | inr fresh ↦ ground (
          arith,
          value-upsert j k n m,
          insert_rows-value rows ((j, tt) ∷ seen) (upsert j n m) m' k (ground (arith, fresh, h)),
        )
      ]

  mentions-same : (k j : K) (keys : List (Option K)) → k ≡ j → mentions k keys ≡ mentions j keys
  mentions-same k j keys h = ap (λ x. mentions x keys) h

  value-select_in :
      (keys : List (Option K)) (m : Map K ℕ) (k : K)
      → mentions k keys ≡ true
      → value k (select_in keys m) ≡ value k m
  unfolding select_in lookup
  value-select_in keys [] k h = refl
  value-select_in keys ((j, n) ∷ m) k h =
      ground (arith, value-select_in keys m k h, e.same_iff j k, mentions-same j k keys)

-- What a statement that writes may do: all of it, or nothing with an error.
abbrev Writes : (Db → Db → Type 0) → Db → Result SqlxError (Unit {0}) × Db → Type 0
Writes P db (r, db') = ((r ≡ ok tt) × P db db') ⊎ ((e : SqlxError) × (r ≡ err e) × (db' ≡ db))

-- The counter of a key becomes the greatest of the old one and those given, and nothing else changes
-- but the other counters of links.
abbrev RaisesDays :
    List (Option (String × NaiveDate) × Option ℕ) → String × NaiveDate → Db → Db → Type 0
RaisesDays rows key old new =
    (value key new.link_daily_clicks ≡ max (given key rows) (value key old.link_daily_clicks))
    × (new.links ≡ old.links)
    × (new.global_daily_clicks ≡ old.global_daily_clicks)
    × (new.total_clicks ≡ old.total_clicks)

insert_link_days_lem :
    (rows : List (Option (String × NaiveDate) × Option ℕ)) (db : Db) (key : String × NaiveDate)
    → Writes (RaisesDays rows key) db (insert_link_days rows db)
unfolding insert_link_days
insert_link_days_lem rows db key = elim (Result-cases (insert_rows rows [] db.link_daily_clicks)) [
  | inr (x, failed) ↦ rw (failed, insert_link_days) (inr (x, refl, refl))
  | inl (days, wrote) ↦ elim (Bool-cases (all_linked rows db.links)) [
    | inr loose ↦ rw (wrote, loose, insert_link_days) (inr (foreign_key_violation, refl, refl))
    | inl linked ↦
        rw (wrote, linked, insert_link_days)
          (inl (
            refl,
            (insert_rows-value rows [] db.link_daily_clicks days key wrote, refl, refl, refl),
          ))
  ]
]

executed-Writes :
    (P : Db → Db → Type 0) (f : Db → Result SqlxError (Unit {0}) × Db) (pool : PgPool)
    → Writes P pool.db (f pool.db)
    → (((catch from_sqlx (execute f) pool).0 ≡ ok tt)
        × P pool.db (catch from_sqlx (execute f) pool).1.db)
      ⊎ ((e : DbError) × ((catch from_sqlx (execute f) pool).0 ≡ err e)
          × (((catch from_sqlx (execute f) pool).1.db ≡ pool.db)
              ⊎ P pool.db (catch from_sqlx (execute f) pool).1.db))
executed-Writes P f pool w = elim (execute-cases f pool) [
  | inr (o, stopped_by, left) ↦ inr (
    from_sqlx (outage_error o),
    ground (arith, stopped_by),
    elim (Bool-cases (reaches_server o)) [
      | inr missed ↦ inl (ground (arith, left))
      | inl reached ↦ elim w [
        | inl (done, wrote) ↦ inr (subst (P pool.db) (sym (rw reached at left)) wrote)
        | inr (x, failed_with, same) ↦ inl (ground (arith, left, same))
      ]
    ],
  )
  | inl (result, tables) ↦ elim w [
    | inl (done, wrote) ↦ inl (ground (arith, result, done), subst (P pool.db) (sym tables) wrote)
    | inr (x, failed_with, same) ↦
        inr (from_sqlx x, ground (arith, result, failed_with), inl (tables ∙ same))
  ]
]

-- update_link_daily_clicks makes the counter of each key the greatest of the stored one and those that
-- the arrays give for it, and changes no other table; or it fails, and the tables stay as they were
-- unless only its answer is lost.
pub update_link_daily_clicks_lem :
    (codes : List String) (dates : List NaiveDate) (counts : List ℕ) (pool : PgPool)
    (key : String × NaiveDate)
    → let (r, after) = update_link_daily_clicks codes dates counts pool in
      ((r ≡ ok tt) × RaisesDays (unnest3 codes dates counts) key pool.db after.db)
      ⊎ ((e : DbError) × (r ≡ err e)
          × ((after.db ≡ pool.db) ⊎ RaisesDays (unnest3 codes dates counts) key pool.db after.db))
unfolding update_link_daily_clicks
update_link_daily_clicks_lem codes dates counts pool key =
    executed-Writes (RaisesDays (unnest3 codes dates counts) key)
      (insert_link_days (unnest3 codes dates counts)) pool
      (insert_link_days_lem (unnest3 codes dates counts) pool.db key)

read_values :
    (codes : List String) (dates : List NaiveDate) (pool after : PgPool)
    (found : Map (String × NaiveDate) ℕ)
    → get_link_daily_values codes dates pool ≡ (ok found, after)
    → found ≡ select_in (map both (unnest2 codes dates)) pool.link_daily_clicks
unfolding get_link_daily_values
read_values codes dates pool after found h =
    elim (execute-cases
      (λ db. (ok (select_in (map both (unnest2 codes dates)) db.link_daily_clicks), db)) pool) [
        | inl (result, same) ↦ ground (arith, ap (λ x. x.0) h, result)
        | inr (o, refused, same) ↦ absurd (ground (arith, ap (λ x. x.0) h, refused))
      ]

-- Where update_link_daily_clicks succeeds, get_link_daily_values reads for each key that it is asked
-- for the greatest of the counter stored before and those that the arrays give, so that no count is
-- lost and none is lowered.
pub get_link_daily_values-update_link_daily_clicks :
    (codes asked : List String) (dates days : List NaiveDate) (counts : List ℕ)
    (pool written after : PgPool) (key : String × NaiveDate) (found : Map (String × NaiveDate) ℕ)
    → update_link_daily_clicks codes dates counts pool ≡ (ok tt, written)
    → get_link_daily_values asked days written ≡ (ok found, after)
    → mentions key (map both (unnest2 asked days)) ≡ true
    → value key found
      ≡ max (given key (unnest3 codes dates counts)) (value key pool.link_daily_clicks)
get_link_daily_values-update_link_daily_clicks codes asked dates days counts pool written after key
      found wrote reads named =
    elim (update_link_daily_clicks_lem codes dates counts pool key) [
      | inr (e, failed_with, left) ↦ absurd (ground (arith, ap (λ x. x.0) wrote, failed_with))
      | inl (done, (raised_to, l, g, t)) ↦ ground (
        arith,
        ap (λ x. value key x.1.link_daily_clicks) wrote,
        raised_to,
        ap (λ m. value key m) (read_values asked days written after found reads),
        value-select_in (map both (unnest2 asked days)) written.link_daily_clicks key named,
      )
    ]
