-- ===== src/Analytics/Queries/Days.antt =====
-- The rows that get_link_stats of analytics/src/db/db.rs selects, and their order.

-- A row of a list.
use k_url.Analytics.Queries.{insert_day, order_by_day, rows_of}
use k_url.Common.Database.{NaiveDate}
use k_url.Prelude.{
  All, Bool-cases, List, String, [], arith, inl, inr, leb, ℕ, ◌↔◌, ◌∷◌, ◌≡◌, ◌≤◌, ◌⊎◌,
}
use k_url.Prelude.Maps.{Map, string_key}

abbrev pub Row : NaiveDate → ℕ → List (NaiveDate × ℕ) → Type 0
Row day n [] = ⊥
Row day n ((d, m) ∷ rows) = ((d ≡ day) × (m ≡ n)) ⊎ Row day n rows

-- The counter of a link on a day, in the table.
abbrev pub Stored : String → NaiveDate → ℕ → Map (String × NaiveDate) ℕ → Type 0
Stored c day n [] = ⊥
Stored c day n (((b, d), m) ∷ t) = ((b ≡ c) × (d ≡ day) × (m ≡ n)) ⊎ Stored c day n t

-- A bound on the days of a list from below.
abbrev pub From : NaiveDate → List (NaiveDate × ℕ) → Type 0
From since rows = All (λ row. since ≤ row.0) rows

abbrev pub Ascending : List (NaiveDate × ℕ) → Type 0
Ascending [] = Unit
Ascending ((d, m) ∷ rows) = From d rows × Ascending rows

insert_day-From :
    (since day : NaiveDate) (n : ℕ) (rows : List (NaiveDate × ℕ))
    → since ≤ day
    → From since rows
    → From since (insert_day (day, n) rows)
unfolding insert_day
insert_day-From since day n [] h f = (h, tt)
insert_day-From since day n ((d, m) ∷ rows) h f = elim (Bool-cases (leb day d)) [
  | inl before ↦ rw before (h, f)
  | inr after ↦ rw after (f.0, insert_day-From since day n rows h f.1)
]

From-weaken :
    (low high : NaiveDate) (rows : List (NaiveDate × ℕ))
    → low ≤ high
    → From high rows
    → From low rows
From-weaken low high [] h f = tt
From-weaken low high ((d, m) ∷ rows) h f = (omega (arith, f.0), From-weaken low high rows h f.1)

insert_day-Ascending :
    (day : NaiveDate) (n : ℕ) (rows : List (NaiveDate × ℕ))
    → Ascending rows
    → Ascending (insert_day (day, n) rows)
unfolding insert_day
insert_day-Ascending day n [] a = (tt, tt)
insert_day-Ascending day n ((d, m) ∷ rows) a = elim (Bool-cases (leb day d)) [
  | inl before ↦
      rw before ((ground (arith, before), From-weaken day d rows (ground (arith, before)) a.0), a)
  | inr after ↦ rw after (
    insert_day-From d day n rows (ground (arith, after)) a.0,
    insert_day-Ascending day n rows a.1,
  )
]

insert_day-Row :
    (d : NaiveDate) (m : ℕ) (day : NaiveDate) (n : ℕ) (rows : List (NaiveDate × ℕ))
    → Row d m (insert_day (day, n) rows) ↔ (((day ≡ d) × (n ≡ m)) ⊎ Row d m rows)
unfolding insert_day
insert_day-Row d m day n [] = ground arith
insert_day-Row d m day n ((b, k) ∷ rows) = elim (Bool-cases (leb day b)) [
  | inl before ↦ rw before (ground arith)
  | inr after ↦ rw after (ground (arith, insert_day-Row d m day n rows))
]

pub order_by_day-Ascending : (rows : List (NaiveDate × ℕ)) → Ascending (order_by_day rows)
unfolding order_by_day
order_by_day-Ascending [] = tt
order_by_day-Ascending ((d, m) ∷ rows) =
    insert_day-Ascending d m (order_by_day rows) (order_by_day-Ascending rows)

pub order_by_day-Row :
    (d : NaiveDate) (m : ℕ) (rows : List (NaiveDate × ℕ))
    → Row d m (order_by_day rows) ↔ Row d m rows
unfolding order_by_day
order_by_day-Row d m [] = ground arith
order_by_day-Row d m ((day, n) ∷ rows) =
    ground (arith, insert_day-Row d m day n (order_by_day rows), order_by_day-Row d m rows)

pub rows_of-Row :
    (c : String) (since day : NaiveDate) (n : ℕ) (t : Map (String × NaiveDate) ℕ)
    → Row day n (rows_of c since t) ↔ ((since ≤ day) × Stored c day n t)
unfolding rows_of
rows_of-Row c since day n [] = ground arith
rows_of-Row c since day n (((b, d), m) ∷ t) =
    ground (arith, rows_of-Row c since day n t, string_key.same_iff b c)
