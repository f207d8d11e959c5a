-- ===== src/Analytics/Merge.antt =====
-- merge_snapshot of analytics/src/db/pg_snapshot_repo.rs: one transaction that raises the
-- day-buckets to the snapshot's and adds what they gained to the totals.
pub mod LinkDays
pub mod Statements
pub mod Atomic
pub mod Counters
pub mod Tables
pub mod Totals
use k_url.Prelude.{
  ℕ, ◌+◌, String, Bool, true, false, ◌&&◌, ◌||◌, List, [], ◌∷◌, ◌++◌, Option, none, some, Result,
  ok, err, max, ltb, get_or, map, filter_by, map_option, if◌then◌else◌, not,
}
use k_url.Prelude.Int.{ℤ, pos, ltb_ℤ}
use k_url.Prelude.Time.{DateTime}
use k_url.Prelude.Maps.{Map, Keyed, lookup, insert, ◌==◌, nat_key, string_key, pair_key}
use k_url.Prelude.Sums.{value, upsert_all, upsert}
use k_url.Prelude.Effects.{Exec, catch, lift, pure, raise, gets, modify, ◌>>=◌, ◌>>◌}
use k_url.Common.DbErrors.{DbError, SqlxError, from_sqlx}
use k_url.Common.Database.{NaiveDate, LinkRow, Db, PgPool, execute, outage_error}
use k_url.Analytics.Snapshot.{RedisSnapshot, MergeOutcome, no_outcome, calculate_merge_delta}

-- What the loop over the counters of a snapshot has found: the rows to write, the sum of what they
-- gain, and the committed counters.
pub record Merged (K : Type 0) : Type 0 where
  pub upserts : Map K ℕ
  pub delta : ℕ
  pub committed : Map K ℕ

abbrev pub nothing_merged : {K : Type 0} → Merged K
nothing_merged = record { upserts = []; delta = 0; committed = [] }

module _ {K : Type 0} ⦃e : Keyed K⦄ where
  unfoldable pub contains_key : {V : Type 0} → K → Map K V → Bool
  contains_key k m = elim (lookup k m) [ none ↦ false | some v ↦ true ]

  -- select … where key = any ($1) for update
  unfoldable pub select_keys : {V : Type 0} → Map K V → Map K ℕ → Map K ℕ
  unfolding contains_key
  select_keys keys table = filter_by (λ row. contains_key row.0 keys) table

  unfoldable pub merge_counters : Map K ℕ → Map K ℕ → Merged K → Merged K
  unfolding calculate_merge_delta
  merge_counters existing [] acc = acc
  merge_counters existing ((key, incoming) ∷ rest) acc =
      let (committed, delta) = calculate_merge_delta (value key existing) incoming in
      merge_counters existing rest (record {
        upserts = acc.upserts ++ (key, committed) ∷ [];
        delta = acc.delta + delta;
        committed = insert key committed acc.committed;
      })

-- A statement that only writes.
abbrev pub run : (Db → Db) → Exec PgPool SqlxError (Unit {0})
run write = execute (λ db. (ok tt, write db))

abbrev pub when : Bool → Exec PgPool SqlxError (Unit {0}) → Exec PgPool SqlxError (Unit {0})
when test m = if test then m else pure tt

unfoldable pub is_empty : {K V : Type 0} → Map K V → Bool
is_empty [] = true
is_empty (e ∷ m) = false

-- The part of the transaction for the counters of all links together.
unfoldable pub merge_global : Map NaiveDate ℕ → Exec PgPool SqlxError (Merged NaiveDate)
unfolding execute
merge_global daily = do
  existing ← execute (λ db. (ok (select_keys daily db.global_daily_clicks), db))
  let merged = merge_counters existing daily nothing_merged
  when (not (is_empty merged.upserts)) (
      run
        λ db. record db { global_daily_clicks = upsert_all merged.upserts db.global_daily_clicks })
  when (ltb 0 merged.delta) (run λ db. record db { total_clicks = db.total_clicks + merged.delta })
  pure merged

-- `*outcome.link_deltas.entry(code).or_insert(0) += delta` for every counter of a link.
unfoldable pub link_deltas :
    Map (String × NaiveDate) ℕ → Map (String × NaiveDate) ℕ → Map String ℕ → Map String ℕ
unfolding calculate_merge_delta
link_deltas existing [] acc = acc
link_deltas existing (((code, date), incoming) ∷ rest) acc =
    let delta = (calculate_merge_delta (value (code, date) existing) incoming).1 in
    link_deltas existing rest (insert code (value code acc + delta) acc)

-- The insertion skips the counters whose link is gone.
unfoldable pub upsert_existing :
    Map String LinkRow
    → Map (String × NaiveDate) ℕ
    → Map (String × NaiveDate) ℕ
    → Map (String × NaiveDate) ℕ
unfolding contains_key
upsert_existing links [] m = m
upsert_existing links (((code, date), n) ∷ rows) m =
    upsert_existing links rows (if contains_key code links then upsert (code, date) n m else m)

-- What a link gains: its code, clicks, and the instant of a click.
pub record Gain : Type 0 where
  pub code : String
  pub delta : ℕ
  pub ts : DateTime

unix_epoch : DateTime
unix_epoch = pos 0

unfoldable pub gains_of_deltas : Map String ℕ → Map String DateTime → List Gain
unfolding unix_epoch contains_key
gains_of_deltas [] last = []
gains_of_deltas ((code, delta) ∷ rest) last =
    let gain : Gain = record {
      code = code;
      delta = max delta 0;
      ts = get_or unix_epoch (lookup code last);
    } in
    let more = gains_of_deltas rest last in
    if ltb 0 delta || contains_key code last then gain ∷ more else more

unfoldable pub gains_of_clicks : Map String DateTime → Map String ℕ → List Gain
unfolding contains_key
gains_of_clicks [] deltas = []
gains_of_clicks ((code, ts) ∷ rest) deltas =
    let more = gains_of_clicks rest deltas in
    if contains_key code deltas then more else record { code = code; delta = 0; ts = ts } ∷ more

unfoldable pub all_gains : Map String ℕ → Map String DateTime → List Gain
unfolding gains_of_deltas gains_of_clicks
all_gains deltas last = gains_of_deltas deltas last ++ gains_of_clicks last deltas

unfoldable pub no_gains : List Gain → Bool
no_gains [] = true
no_gains (g ∷ gs) = false

-- `greatest`, which passes over null.
greatest : Option DateTime → DateTime → DateTime
greatest none ts = ts
greatest (some old) ts = if ltb_ℤ old ts then ts else old

unfoldable pub add_gain : Gain → Map String LinkRow → Map String LinkRow
unfolding greatest
add_gain g links = elim (lookup g.code links) [
  | none ↦ links
  | some r ↦
      insert g.code
        (record r {
          click_count = r.click_count + g.delta;
          last_clicked_at = some (greatest r.last_clicked_at g.ts);
        })
        links
]

unfoldable pub add_gains : List Gain → Map String LinkRow → Map String LinkRow
unfolding add_gain
add_gains [] links = links
add_gains (g ∷ gs) links = add_gains gs (add_gain g links)

-- The part of the transaction for the counters of single links.
unfoldable pub merge_links :
    Map (String × NaiveDate) ℕ
    → Map String DateTime
    → Exec PgPool SqlxError (Merged (String × NaiveDate) × Map String ℕ)
unfolding execute
merge_links daily last = do
  existing ← execute (λ db. (ok (select_keys daily db.link_daily_clicks), db))
  let merged = merge_counters existing daily nothing_merged
  let deltas = link_deltas existing daily []
  when (not (is_empty merged.upserts)) (
      run λ db. record db {
        link_daily_clicks = upsert_existing db.links merged.upserts db.link_daily_clicks;
      })
  let gains = all_gains deltas last
  when (not (no_gains gains)) (run λ db. record db { links = add_gains gains db.links })
  pure (merged, deltas)

-- `begin` and the statements.
unfoldable pub begun : {A : Type 0} → Exec PgPool SqlxError A → Exec PgPool SqlxError A
unfolding execute
begun statements = do execute (λ db. (ok tt, db)); statements

-- `commit` makes what the transaction has written the tables of the server.
unfoldable pub commit : {A : Type 0} → A → Db → Exec PgPool SqlxError A
unfolding execute
commit a written = do execute (λ db. (ok tt, written)); pure a

-- Until the commit is carried out, no other connection sees what the statements have written; where one
-- of them fails, the transaction is dropped, and the server rolls it back.
unfoldable pub transaction : {A : Type 0} → Exec PgPool SqlxError A → Exec PgPool DbError A
unfolding begun commit
transaction statements pool =
    let (r, end) = catch from_sqlx (begun statements) pool in
    let behind = record end { db = pool.db } in
    elim r [ ok a ↦ catch from_sqlx (commit a end.db) behind | err e ↦ (err e, behind) ]

-- merge_snapshot between `begin` and `commit`.
unfoldable pub merge_body : RedisSnapshot → Exec PgPool SqlxError MergeOutcome
merge_body snapshot = do
  global ←
      (if is_empty snapshot.global_daily
        then pure nothing_merged
        else merge_global snapshot.global_daily)
  links ←
      (if is_empty snapshot.link_daily
        then pure (nothing_merged, [])
        else merge_links snapshot.link_daily snapshot.last_clicked_at)
  pure (record {
    committed_global = global.committed;
    committed_links = links.0.committed;
    global_delta = global.delta;
    link_deltas = links.1;
  })

unfoldable pub merge_snapshot : RedisSnapshot → Exec PgPool DbError MergeOutcome
unfolding transaction
merge_snapshot snapshot =
    if is_empty snapshot.global_daily && is_empty snapshot.link_daily
    then pure no_outcome
    else transaction (merge_body snapshot)
