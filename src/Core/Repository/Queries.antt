-- ===== src/Core/Repository/Queries.antt =====
-- The statements of core/src/db.rs on the tables, and the methods that run them on a pool.
use k_url.Prelude.Int.{ℤ, pos, negsuc, ◌+ℤ◌, ◌-ℤ◌}
use Prim.Native.String.{count}
use k_url.Prelude.{
  ℕ, zero, suc, String, Bool, true, false, ◌&&◌, not, Option, none, some, Result, ok, err, ltb, leb,
  if◌then◌else◌, filter_by, map_option, ◌+◌, ◌*◌, ◌/◌,
}
use k_url.Prelude.Time.{DateTime, from_secs}
use k_url.Prelude.Maps.{lookup, insert, remove, ◌==◌, string_key}
use k_url.Prelude.Effects.{Exec, catch, pure, raise, ◌>>=◌}
use k_url.Common.DbErrors.{
  DbError, SqlxError, unique_violation, other_violation, database, not_found, from_sqlx,
}
use k_url.Common.Database.{Db, PgPool, execute}
use k_url.Core.Repository.{Link}

-- select target, expiration from links where short_code = $1
unfoldable pub select_link : String → Db → Result SqlxError (Option Link) × Db
select_link short_code db = elim (lookup short_code db.links) [
  | none ↦ (ok none, db)
  | some r ↦ (ok (some (record { target = r.target; expiration = r.expiration })), db)
]

-- select exists(select 1 from links where short_code = $1)
unfoldable pub select_exists : String → Db → Result SqlxError Bool × Db
select_exists short_code db = elim (lookup short_code db.links) [
  | none ↦ (ok false, db)
  | some r ↦ (ok true, db)
]

-- The constraint short_code_length of links.
unfoldable pub short_code_length : String → Bool
short_code_length c = ltb 0 (count c) && leb (count c) 40

-- 2000-01-01, from which a `timestamptz` counts whole microseconds.
abbrev pg_epoch : ℤ
pg_epoch = pos (from_secs 946_684_800)

abbrev whole_micros : ℤ → ℤ
whole_micros (pos n) = pos (n / 1000 * 1000)
whole_micros (negsuc n) = pos 0 -ℤ pos ((n + 1) / 1000 * 1000)

-- The instant that a `timestamptz` keeps of one in nanoseconds.
unfoldable pub timestamptz : DateTime → DateTime
timestamptz at = pg_epoch +ℤ whole_micros (at -ℤ pg_epoch)

-- insert into links (short_code, target, expiration) values ($1, $2, $3)
unfoldable pub insert_link :
    String → String → Option DateTime → Db → Result SqlxError (Unit {0}) × Db
unfolding short_code_length timestamptz
insert_link short_code target expiration db =
    if short_code_length short_code
    then elim (lookup short_code db.links) [
      | some r ↦ (err (database unique_violation (some "23505")), db)
      | none ↦ (
        ok tt,
        record db {
          links =
              insert short_code
                (record {
                  target = target;
                  expiration = map_option timestamptz expiration;
                  click_count = 0;
                  last_clicked_at = none;
                })
                db.links;
        },
      )
    ]
    else (err (database other_violation (some "23514")), db)

-- delete from links where short_code = $1, with the rows of link_daily_clicks that refer to it; the
-- reply is the number of links.
unfoldable pub delete_row : String → Db → Result SqlxError ℕ × Db
delete_row short_code db = elim (lookup short_code db.links) [
  | none ↦ (ok 0, db)
  | some r ↦ (
    ok 1,
    record db {
      links = remove short_code db.links;
      link_daily_clicks = filter_by (λ e. not (e.0.0 == short_code)) db.link_daily_clicks;
    },
  )
]

unfoldable pub get_link : String → Exec PgPool DbError Link
unfolding select_link execute from_sqlx
get_link short_code = do
  found ← catch from_sqlx (execute (select_link short_code))
  elim found [ some link ↦ pure link | none ↦ raise not_found ]

unfoldable pub link_exists : String → Exec PgPool DbError Bool
unfolding select_exists execute from_sqlx
link_exists short_code = catch from_sqlx (execute (select_exists short_code))

unfoldable pub create_link : String → String → Option DateTime → Exec PgPool DbError (Unit {0})
unfolding insert_link execute from_sqlx
create_link short_code target expiration =
    catch from_sqlx (execute (insert_link short_code target expiration))

unfoldable pub delete_link : String → Exec PgPool DbError (Unit {0})
unfolding delete_row execute from_sqlx
delete_link short_code = do
  rows_affected ← catch from_sqlx (execute (delete_row short_code))
  elim rows_affected [ zero ↦ raise not_found | suc n ↦ pure tt ]
