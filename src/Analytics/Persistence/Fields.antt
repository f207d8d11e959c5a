-- ===== src/Analytics/Persistence/Fields.antt =====
-- The fields of a hash of counters, as analytics/src/redis_persistence.rs reads them.
use k_url.Analytics.Redis.{Store, hget, hgetall}
use k_url.Analytics.Redis.Counters.{clicks}
use k_url.Analytics.Snapshot.{Parsed, parse_daily_counts, parse_field, parse_fields}
use k_url.Common.Database.{NaiveDate}
use k_url.Prelude.{
  All, Bool-cases, List, Option, Option-cases, String, [], ap, arith, get_or, if◌then◌else◌, inl,
  inr, map, none, refl, some, ℕ, ◌<◌, ◌^◌, ◌∙◌, ◌∷◌, ◌≡◌,
}
use k_url.Prelude.Int.{negsuc, pos, ℤ}
use k_url.Prelude.Maps.{Map, insert, lookup, lookup-insert, nat_key, pair_key, string_key, ◌==◌}
use k_url.Prelude.Parse.{parse_i64}
use k_url.Prelude.Parse.Show.{parse_i64-to_string, to_string}
use k_url.Prelude.Sums.{Distinct, value}

module _ (parse : String → Option NaiveDate) (show : NaiveDate → String) where
  -- A field of a day is the text of the day, and its count is that of an i64.
  abbrev pub Canonical : Map String ℕ → Type 0
  Canonical h = All (λ e. ((d : NaiveDate) → parse e.0 ≡ some d → show d ≡ e.0) × (e.1 < 2 ^ 63)) h

  parse_field-value :
      (d date : NaiveDate) (key : String) (n : ℕ) (p : Parsed)
      → parse key ≡ some date
      → n < 2 ^ 63
      → value d (parse_field parse key (to_string n) p).valid
        ≡ (if date == d then n else value d p.valid)
  unfolding parse_field
  parse_field-value d date key n p h small =
      rw (parse_field, h, parse_i64-to_string n small)
        (ground (arith, lookup-insert date d n p.valid))

  parse_field-none :
      (key text : String) (p : Parsed)
      → parse key ≡ none
      → (parse_field parse key text p).valid ≡ p.valid
  unfolding parse_field
  parse_field-none key text p h = rw (parse_field, h) refl

  -- The count of a day after the fields have been read.
  parse_fields-value :
      (d : NaiveDate) (h : Map String ℕ) (p : Parsed)
      → parse (show d) ≡ some d
      → Distinct h
      → Canonical h
      → value d (parse_fields parse (map (λ f. (f.0, to_string f.1)) h) p).valid
        ≡ get_or (value d p.valid) (lookup (show d) h)
  unfolding parse_fields lookup
  parse_fields-value d [] p r u c = refl
  parse_fields-value d ((key, n) ∷ rest) p r u c =
      let more = parse_fields-value d rest (parse_field parse key (to_string n) p) r u.1 c.1 in
      elim (Option-cases (parse key)) [
        | inl q ↦ ground (
          arith,
          more,
          ap (value d) (parse_field-none key (to_string n) p q),
          string_key.same_iff key (show d),
          ap parse,
          r,
          q,
        )
        | inr (date, q) ↦ ground (
          arith,
          more,
          parse_field-value d date key n p q c.0.1,
          string_key.same_iff key (show d),
          nat_key.same_iff date d,
          ap parse,
          ap show,
          r,
          q,
          u.0,
          c.0.0 date q,
          ap (λ x. lookup x rest),
        )
      ]

  -- The counter of a day that is read from a hash.
  pub parse_daily_counts-hgetall :
      (d : NaiveDate) (key : String) (r : Store)
      → parse (show d) ≡ some d
      → Distinct (get_or [] (lookup key r.hashes))
      → Canonical (get_or [] (lookup key r.hashes))
      → value d (parse_daily_counts parse (hgetall key r)).valid ≡ clicks key (show d) r
  unfolding parse_daily_counts hgetall clicks hget lookup
  parse_daily_counts-hgetall d key r h u c =
      parse_fields-value d (get_or [] (lookup key r.hashes)) (record { valid = []; malformed = [] })
        h u c
      ∙ ground (arith, ap (λ (h : Map String ℕ). lookup (show d) h))

  insert-Distinct :
      (d : NaiveDate) (n : ℕ) (m : Map NaiveDate ℕ) → Distinct m → Distinct (insert d n m)
  unfolding insert lookup
  insert-Distinct d n [] u = (refl, tt)
  insert-Distinct d n ((k, old) ∷ rest) u = elim (Bool-cases (k == d)) [
    | inl p ↦ rw p (ground (arith, u.0, nat_key.same_iff k d, ap (λ x. lookup x rest)), u.1)
    | inr p ↦ rw p (
      ground (arith, u.0, lookup-insert d k n rest, nat_key.same_iff k d, nat_key.same_iff d k),
      insert-Distinct d n rest u.1,
    )
  ]

  parse_fields-Distinct :
      (fields : List (String × String)) (p : Parsed)
      → Distinct p.valid
      → Distinct (parse_fields parse fields p).valid
  unfolding parse_fields parse_field
  parse_fields-Distinct [] p u = u
  parse_fields-Distinct ((key, text) ∷ rest) p u =
      parse_fields-Distinct rest (parse_field parse key text p) (elim (Option-cases (parse key)) [
        | inl q ↦ rw (parse_field, q) u
        | inr (date, q) ↦ by_count date q (parse_i64 text) refl
      ])
    where
      by_count :
          (date : NaiveDate)
          → parse key ≡ some date
          → (c : Option ℤ) → parse_i64 text ≡ c
          → Distinct (parse_field parse key text p).valid
      by_count date q none h = rw (parse_field, q, h) u
      by_count date q (some (pos n)) h = rw (parse_field, q, h) (insert-Distinct date n p.valid u)
      by_count date q (some (negsuc n)) h = rw (parse_field, q, h) u

  pub parse_daily_counts-Distinct :
      (fields : List (String × String)) → Distinct (parse_daily_counts parse fields).valid
  unfolding parse_daily_counts
  parse_daily_counts-Distinct fields =
      parse_fields-Distinct fields (record { valid = []; malformed = [] }) tt
