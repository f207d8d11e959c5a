-- ===== src/Analytics/Updates.antt =====
-- The statements of analytics/src/db/db.rs that write arrays of counters, and those that read the
-- counters of given keys. The arrays are unnested into rows; a shorter array is filled up with nulls.
pub mod Kept
pub mod Links
use k_url.Analytics.Merge.{contains_key}
use k_url.Common.Database.{Db, LinkRow, NaiveDate, PgPool, execute}
use k_url.Common.DbErrors.{DbError, SqlxError, database, from_sqlx, other_violation}
use k_url.Prelude.{
  Bool, List, Option, Result, String, [], and_then, err, false, filter_by, if◌then◌else◌, map,
  map_ok, map_option, none, ok, some, true, ℕ, ◌&&◌, ◌+◌, ◌>>=◌, ◌||◌, ◌∷◌,
}
use k_url.Prelude.Effects.{Exec, catch}
use k_url.Prelude.Int.{ltb_ℤ}
use k_url.Prelude.Maps.{Keyed, Map, nat_key, pair_key, string_key, ◌==◌}
use k_url.Prelude.Sums.{upsert}
use k_url.Prelude.Time.{DateTime}

unfoldable pub unnest2 : {A B : Type 0} → List A → List B → List (Option A × Option B)
unnest2 [] [] = []
unnest2 (a ∷ xs) [] = (some a, none) ∷ unnest2 xs []
unnest2 [] (b ∷ ys) = (none, some b) ∷ unnest2 [] ys
unnest2 (a ∷ xs) (b ∷ ys) = (some a, some b) ∷ unnest2 xs ys

-- A key of two columns, null where one of them is.
unfoldable pub both : {A B : Type 0} → Option A × Option B → Option (A × B)
both (none, b) = none
both (some a, none) = none
both (some a, some b) = some (a, b)

unfoldable pub unnest3 :
    {A B C : Type 0} → List A → List B → List C → List (Option (A × B) × Option C)
unfolding unnest2 both
unnest3 xs ys zs = map (λ r. (and_then r.0 both, r.1)) (unnest2 (unnest2 xs ys) zs)

-- The errors of the server, by SQLSTATE: a null in a column that has none, a key that is no link, and
-- a key that is given twice to one statement.
abbrev pub not_null_violation : SqlxError
not_null_violation = database other_violation (some "23502")

abbrev pub foreign_key_violation : SqlxError
foreign_key_violation = database other_violation (some "23503")

abbrev pub cardinality_violation : SqlxError
cardinality_violation = database other_violation (some "21000")

module _ {K : Type 0} ⦃e : Keyed K⦄ where
  unfoldable pub mentions : K → List (Option K) → Bool
  mentions k [] = false
  mentions k (none ∷ keys) = mentions k keys
  mentions k (some j ∷ keys) = k == j || mentions k keys

  -- insert … on conflict … do update set clicks = greatest(excluded.clicks, clicks); `seen` has the
  -- keys that this statement has written.
  unfoldable pub insert_rows :
      List (Option K × Option ℕ) → Map K (Unit {0}) → Map K ℕ → Result SqlxError (Map K ℕ)
  unfolding contains_key upsert
  insert_rows [] seen m = ok m
  insert_rows ((none, n) ∷ rows) seen m = err not_null_violation
  insert_rows ((some k, none) ∷ rows) seen m = err not_null_violation
  insert_rows ((some k, some n) ∷ rows) seen m =
      let rest = insert_rows rows ((k, tt) ∷ seen) (upsert k n m) in
      if contains_key k seen then err cardinality_violation else rest

  -- where key in (select * from unnest(…))
  unfoldable pub select_in : List (Option K) → Map K ℕ → Map K ℕ
  unfolding mentions
  select_in keys table = filter_by (λ row. mentions row.0 keys) table

-- The foreign key of the rows, which is checked at the end of the statement.
unfoldable pub all_linked :
    List (Option (String × NaiveDate) × Option ℕ) → Map String LinkRow → Bool
unfolding contains_key
all_linked [] links = true
all_linked ((none, n) ∷ rows) links = all_linked rows links
all_linked ((some (code, day), n) ∷ rows) links = contains_key code links && all_linked rows links

unfoldable pub insert_link_days :
    List (Option (String × NaiveDate) × Option ℕ) → Db → Result SqlxError (Unit {0}) × Db
unfolding insert_rows all_linked
insert_link_days rows db = elim (insert_rows rows [] db.link_daily_clicks) [
  | err e ↦ (err e, db)
  | ok days ↦
      if all_linked rows db.links
      then (ok tt, record db { link_daily_clicks = days })
      else (err foreign_key_violation, db)
]

unfoldable pub update_link_daily_clicks :
    List String → List NaiveDate → List ℕ → Exec PgPool DbError (Unit {0})
unfolding unnest3 insert_link_days
update_link_daily_clicks link_short_codes link_dates link_clicks =
    catch from_sqlx (execute (insert_link_days (unnest3 link_short_codes link_dates link_clicks)))

unfoldable pub insert_global_days :
    List (Option NaiveDate × Option ℕ) → Db → Result SqlxError (Unit {0}) × Db
unfolding insert_rows
insert_global_days rows db = elim (insert_rows rows [] db.global_daily_clicks) [
  | err e ↦ (err e, db)
  | ok days ↦ (ok tt, record db { global_daily_clicks = days })
]

unfoldable pub update_global_daily_clicks : List NaiveDate → List ℕ → Exec PgPool DbError (Unit {0})
unfolding unnest2 insert_global_days
update_global_daily_clicks dates clicks =
    catch from_sqlx (execute (insert_global_days (unnest2 dates clicks)))

unfoldable pub update_global_click_count : ℕ → Exec PgPool DbError (Unit {0})
update_global_click_count count =
    catch from_sqlx (execute λ db. (ok tt, record db { total_clicks = db.total_clicks + count }))

unfoldable pub get_link_daily_values :
    List String → List NaiveDate → Exec PgPool DbError (Map (String × NaiveDate) ℕ)
unfolding unnest2 both select_in
get_link_daily_values short_codes dates =
    catch from_sqlx (
      execute
        λ db. (ok (select_in (map both (unnest2 short_codes dates)) db.link_daily_clicks), db))

unfoldable pub get_global_daily_values : List NaiveDate → Exec PgPool DbError (Map NaiveDate ℕ)
unfolding select_in
get_global_daily_values dates =
    catch from_sqlx (execute λ db. (ok (select_in (map some dates) db.global_daily_clicks), db))

-- The rows that `d.short_code = l.short_code` finds.
unfoldable pub matching :
    String → List (Option (String × Option ℕ) × Option DateTime) → List (Option ℕ × Option DateTime)
matching code [] = []
matching code ((none, ts) ∷ rows) = matching code rows
matching code ((some (found, n), ts) ∷ rows) =
    let rest = matching code rows in if found == code then (n, ts) ∷ rest else rest

-- `greatest`, which passes over null.
unfoldable pub greatest : Option DateTime → Option DateTime → Option DateTime
greatest none ts = ts
greatest (some old) none = some old
greatest (some old) (some ts) = if ltb_ℤ old ts then some ts else some old

unfoldable pub add_row : Option (Option ℕ × Option DateTime) → LinkRow → Result SqlxError LinkRow
unfolding greatest
add_row none r = ok r
add_row (some (none, ts)) r = err not_null_violation
add_row (some (some delta, ts)) r = ok (record r {
  click_count = r.click_count + delta;
  last_clicked_at = greatest r.last_clicked_at ts;
})

-- The rows of the arrays of codes, counts and instants, without those that have no code.
unfoldable pub rows_of_links :
    List String → List ℕ → List DateTime → List (Option (String × Option ℕ) × Option DateTime)
unfolding unnest2
rows_of_links short_codes click_count_deltas click_ats =
    map (λ r. (and_then r.0 (λ p. map_option (λ code. (code, p.1)) p.0), r.1))
      (unnest2 (unnest2 short_codes click_count_deltas) click_ats)

-- `pick` is the row that the server takes where several match a link, of which it takes one.
module _ (pick : List (Option ℕ × Option DateTime) → Option (Option ℕ × Option DateTime)) where
  unfoldable pub update_links :
      List (Option (String × Option ℕ) × Option DateTime)
      → Map String LinkRow
      → Result SqlxError (Map String LinkRow)
  unfolding matching add_row
  update_links rows [] = ok []
  update_links rows ((code, r) ∷ links) =
      let more = update_links rows links in
      add_row (pick (matching code rows)) r >>= λ updated.
      map_ok (λ rest. (code, updated) ∷ rest) more

  unfoldable pub update_link_total_and_last_click :
      List String → List ℕ → List DateTime → Exec PgPool DbError (Unit {0})
  unfolding update_links rows_of_links
  update_link_total_and_last_click short_codes click_count_deltas click_ats = catch from_sqlx (
      execute λ db.
        elim (update_links (rows_of_links short_codes click_count_deltas click_ats) db.links) [
          | err e ↦ (err e, db)
          | ok links ↦ (ok tt, record db { links = links })
        ])
