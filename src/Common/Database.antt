-- ===== src/Common/Database.antt =====
-- The tables of migrations/*.sql, and a connection pool in front of them. `outages` has, for each
-- statement to come, how it fails, if it does.
use k_url.Prelude.{ℕ, String, List, [], ◌∷◌, Option, none, some}
use k_url.Prelude.Time.{DateTime}
use k_url.Prelude.Maps.{Map}
use k_url.Prelude.Effects.{Exec}
use k_url.Prelude.{Bool, Result, err, false, if◌then◌else◌, inl, inr, refl, true, ◌≡◌, ◌⊎◌}
use k_url.Common.DbErrors.{SqlxError, pool_timed_out, io}

-- A `date`, in days from the earliest date of chrono.
abbrev pub NaiveDate : Type 0
NaiveDate = ℕ

pub record LinkRow : Type 0 where
  pub target : String
  pub expiration : Option DateTime
  pub click_count : ℕ
  pub last_clicked_at : Option DateTime

pub record Db : Type 0 where
  pub links : Map String LinkRow
  pub link_daily_clicks : Map (String × NaiveDate) ℕ
  pub global_daily_clicks : Map NaiveDate ℕ
  pub total_clicks : ℕ

-- How a statement fails on its way: before the server has it, or with its answer lost after the
-- server has carried it out.
pub data Outage : Type 0 where
  no_connection broken_pipe driver_error answer_lost : Outage

unfoldable pub outage_error : Outage → SqlxError
outage_error no_connection = pool_timed_out
outage_error broken_pipe = io
outage_error driver_error = SqlxError.other
outage_error answer_lost = io

unfoldable pub reaches_server : Outage → Bool
reaches_server no_connection = false
reaches_server broken_pipe = false
reaches_server driver_error = false
reaches_server answer_lost = true

pub record PgPool : Type 0 where
  pub db : Db
  pub open db use *
  pub outages : List (Option Outage)

-- Runs one statement, unless the next outage stops it or loses its answer.
unfoldable pub execute : {A : Type 0} → (Db → Result SqlxError A × Db) → Exec PgPool SqlxError A
unfolding outage_error reaches_server
execute statement pool = elim pool.outages [
  | [] ↦ let (r, db') = statement pool.db in (r, record pool { db = db' })
  | none ∷ rest ↦ let (r, db') = statement pool.db in (r, record { db = db'; outages = rest })
  | some o ∷ rest ↦ (
    err (outage_error o),
    record { db = if reaches_server o then (statement pool.db).1 else pool.db; outages = rest },
  )
]

-- A statement runs on the tables, or an outage stops it or loses its answer.
pub execute-cases :
    {A : Type 0} (f : Db → Result SqlxError A × Db) (pool : PgPool)
    → (((execute f pool).0 ≡ (f pool.db).0) × ((execute f pool).1.db ≡ (f pool.db).1))
      ⊎ ((o : Outage) × ((execute f pool).0 ≡ err (outage_error o))
          × ((execute f pool).1.db ≡ (if reaches_server o then (f pool.db).1 else pool.db)))
unfolding execute
execute-cases f pool = by_outages pool.outages
  where
    by_outages :
        (os : List (Option Outage))
        → (((execute f (record pool { outages = os })).0 ≡ (f pool.db).0)
            × ((execute f (record pool { outages = os })).1.db ≡ (f pool.db).1))
          ⊎ ((o : Outage) × ((execute f (record pool { outages = os })).0 ≡ err (outage_error o))
              × ((execute f (record pool { outages = os })).1.db
                  ≡ (if reaches_server o then (f pool.db).1 else pool.db)))
    by_outages [] = inl (refl, refl)
    by_outages (none ∷ rest) = inl (refl, refl)
    by_outages (some o ∷ rest) = inr (o, refl, refl)
