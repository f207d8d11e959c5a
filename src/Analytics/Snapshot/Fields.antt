-- ===== src/Analytics/Snapshot/Fields.antt =====
-- What parse_daily_counts of analytics/src/snapshot.rs accepts.
use k_url.Prelude.{
  ℕ, ◌+◌, String, List, [], ◌∷◌, ◌++◌, Option, none, some, ◌≡◌, ◌⊎◌, inl, inr, arith, length,
  length-append, Option-cases,
}
use k_url.Prelude.Int.{pos, negsuc}
use k_url.Prelude.Maps.{lookup, nat_key, lookup-insert}
use k_url.Prelude.Parse.{parse_i64}
use k_url.Common.Database.{NaiveDate}
use k_url.Analytics.Snapshot.{Parsed, parse_field, parse_fields, parse_daily_counts}

module _ (parse_date : String → Option NaiveDate) where
  -- A field that gives a counter: its key is a date, and its value a count.
  abbrev pub Counts : String × String → NaiveDate → ℕ → Type 0
  Counts f date n = (parse_date f.0 ≡ some date) × (parse_i64 f.1 ≡ some (pos n))

  -- Some field of the list gives the counter.
  abbrev pub Source : List (String × String) → NaiveDate → ℕ → Type 0
  Source [] date n = ⊥
  Source (f ∷ rest) date n = Counts f date n ⊎ Source rest date n

  field-Source :
      (k v : String) (p : Parsed) (date : NaiveDate) (n : ℕ)
      → lookup date (parse_field parse_date k v p).valid ≡ some n
      → Counts (k, v) date n ⊎ (lookup date p.valid ≡ some n)
  unfolding parse_field
  field-Source k v p date n h = elim (Option-cases (parse_date k)) [
    | inl none_date ↦ ground arith
    | inr (d, some_date) ↦ elim (Option-cases (parse_i64 v)) [
      | inl none_count ↦ ground arith
      | inr (negsuc c, count) ↦ ground arith
      | inr (pos c, count) ↦ ground (arith, lookup-insert d date c p.valid, nat_key.same_iff d date)
    ]
  ]

  fields-Source :
      (fields : List (String × String)) (p : Parsed) (date : NaiveDate) (n : ℕ)
      → lookup date (parse_fields parse_date fields p).valid ≡ some n
      → Source fields date n ⊎ (lookup date p.valid ≡ some n)
  unfolding parse_fields
  fields-Source [] p date n h = inr h
  fields-Source ((k, v) ∷ rest) p date n h =
      elim (fields-Source rest (parse_field parse_date k v p) date n h) [
        | inl s ↦ inl (inr s)
        | inr s ↦ elim (field-Source k v p date n s) [ inl c ↦ inl (inl c) | inr b ↦ inr b ]
      ]

  -- Every counter comes from a field whose key is its date and whose value is its count.
  pub parse_daily_counts-Source :
      (fields : List (String × String)) (date : NaiveDate) (n : ℕ)
      → lookup date (parse_daily_counts parse_date fields).valid ≡ some n
      → Source fields date n
  unfolding parse_daily_counts lookup
  parse_daily_counts-Source fields date n h =
      elim (fields-Source fields (record { valid = []; malformed = [] }) date n h) [
        | inl s ↦ s
        | inr e ↦ absurd (cc)
      ]

  -- Whether a field gives a counter, as a number.
  abbrev pub gives : String → String → ℕ
  gives k v = elim (parse_date k) [
    | none ↦ 0
    | some d ↦ elim (parse_i64 v) [ none ↦ 0 | some c ↦ elim c [ pos n ↦ 1 | negsuc n ↦ 0 ] ]
  ]

  abbrev pub well_formed : List (String × String) → ℕ
  well_formed [] = 0
  well_formed ((k, v) ∷ rest) = gives k v + well_formed rest

  field-length :
      (k v : String) (p : Parsed)
      → length (parse_field parse_date k v p).malformed + gives k v ≡ length p.malformed + 1
  unfolding parse_field
  field-length k v p =
      ground
        (arith, reported "invalid date format", reported "invalid count", reported "negative count")
    where
      reported :
          (reason : String)
          → length (p.malformed ++ record { key = k; value = v; reason = reason } ∷ [])
            ≡ length p.malformed + 1
      reported reason =
          omega
            (arith, length-append p.malformed (record { key = k; value = v; reason = reason } ∷ []))

  fields-length :
      (fields : List (String × String)) (p : Parsed)
      → length (parse_fields parse_date fields p).malformed + well_formed fields
        ≡ length p.malformed + length fields
  unfolding parse_fields
  fields-length [] p = omega arith
  fields-length ((k, v) ∷ rest) p =
      omega (arith, fields-length rest (parse_field parse_date k v p), field-length k v p)

  -- Every field either gives a counter or is reported as malformed.
  pub parse_daily_counts-length :
      (fields : List (String × String))
      → length (parse_daily_counts parse_date fields).malformed + well_formed fields ≡ length fields
  unfolding parse_daily_counts
  parse_daily_counts-length fields =
      omega (arith, fields-length fields (record { valid = []; malformed = [] }))
