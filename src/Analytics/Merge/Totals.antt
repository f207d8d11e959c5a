-- ===== src/Analytics/Merge/Totals.antt =====
-- What merge_snapshot of analytics/src/db/pg_snapshot_repo.rs does to a table of counters.
use k_url.Prelude.{
  ℕ, ◌+◌, ◌-◌, true, [], ◌∷◌, ◌++◌, none, ◌≡◌, refl, ap, max, All, arith, if◌then◌else◌,
}
use k_url.Prelude.Maps.{Map, Keyed, lookup, insert, same_refl}
use k_url.Prelude.Sums.{sum, value, Distinct, upsert, upsert_all, sum-upsert, value-upsert}
use k_url.Analytics.Merge.{Merged, contains_key, select_keys, merge_counters, nothing_merged}

module _ {K : Type 0} ⦃e : Keyed K⦄ where
  pub lookup-select_keys :
      (k : K) (keys t : Map K ℕ)
      → lookup k (select_keys keys t) ≡ (if contains_key k keys then lookup k t else none)
  unfolding select_keys lookup
  lookup-select_keys k keys [] = ground arith
  lookup-select_keys k keys ((j, n) ∷ t) =
      ground (arith, lookup-select_keys k keys t, e.same_iff j k, ap (λ x. lookup x keys))

  upsert_all-append :
      (xs ys m : Map K ℕ) → upsert_all (xs ++ ys) m ≡ upsert_all ys (upsert_all xs m)
  unfolding upsert_all
  upsert_all-append [] ys m = refl
  upsert_all-append ((k, n) ∷ xs) ys m = upsert_all-append xs ys (upsert k n m)

  upsert_all-snoc :
      (xs : Map K ℕ) (k : K) (n : ℕ) (m : Map K ℕ)
      → upsert_all (xs ++ (k, n) ∷ []) m ≡ upsert k n (upsert_all xs m)
  unfolding upsert_all
  upsert_all-snoc xs k n m = upsert_all-append xs ((k, n) ∷ []) m

  -- The counters that were read are those of the table, at each key of a list.
  abbrev Agree : Map K ℕ → Map K ℕ → Map K ℕ → Type 0
  Agree existing [] t = Unit
  Agree existing ((k, n) ∷ rest) t = (value k existing ≡ value k t) × Agree existing rest t

  Agree-upsert :
      (existing rest t : Map K ℕ) (k : K) (n : ℕ)
      → lookup k rest ≡ none
      → Agree existing rest t
      → Agree existing rest (upsert k n t)
  unfolding lookup
  Agree-upsert existing [] t k n h a = tt
  Agree-upsert existing ((j, v) ∷ rest) t k n h a = (
    ground (arith, value-upsert k j n t, e.same_iff j k, e.same_iff k j),
    Agree-upsert existing rest t k n (ground arith) a.1,
  )

  -- What the loop makes of a table, from the rows that it has found so far.
  merge_counters_lem :
      (existing daily : Map K ℕ) (acc : Merged K) (t : Map K ℕ)
      → Distinct daily
      → Agree existing daily (upsert_all acc.upserts t)
      → (sum (upsert_all (merge_counters existing daily acc).upserts t) + acc.delta
          ≡ sum (upsert_all acc.upserts t) + (merge_counters existing daily acc).delta)
        × ((k : K)
            → value k (upsert_all (merge_counters existing daily acc).upserts t)
              ≡ max (value k daily) (value k (upsert_all acc.upserts t)))
  unfolding merge_counters lookup
  merge_counters_lem existing [] acc t d a = (omega arith, λ k. omega arith)
  merge_counters_lem existing ((key, incoming) ∷ rest) acc t d a =
      let c : ℕ = max (value key existing) incoming in
      let t' : Map K ℕ = upsert_all acc.upserts t in
      let acc' : Merged K = record {
        upserts = acc.upserts ++ (key, c) ∷ [];
        delta = acc.delta + (c - value key existing);
        committed = insert key c acc.committed;
      } in
      let grown : upsert_all acc'.upserts t ≡ upsert key c t' =
        upsert_all-snoc acc.upserts key c t in
      let ih =
        merge_counters_lem existing rest acc' t d.1
          (rw grown (Agree-upsert existing rest t' key c d.0 a.1)) in
      (
        omega (arith, ih.0, ap sum grown, sum-upsert key c t', a.0),
        λ k. ground (
          arith,
          ih.1 k,
          ap (value k) grown,
          value-upsert key k c t',
          a.0,
          d.0,
          e.same_iff key k,
          ap (λ x. lookup x rest),
          ap (λ x. value x t'),
        ),
      )

  Agree-select_keys :
      (keys rest t : Map K ℕ)
      → All (λ row. contains_key row.0 keys ≡ true) rest
      → Agree (select_keys keys t) rest t
  Agree-select_keys keys [] t h = tt
  Agree-select_keys keys ((k, n) ∷ rest) t h =
      (rw (lookup-select_keys k keys t, h.0), Agree-select_keys keys rest t h.1)

  contains_key-cons :
      (k j : K) (n : ℕ) (m : Map K ℕ) → contains_key j m ≡ true → contains_key j ((k, n) ∷ m) ≡ true
  unfolding contains_key lookup
  contains_key-cons k j n m h = ground arith

  contains_key-more :
      (k : K) (n : ℕ) (m rest : Map K ℕ)
      → All (λ row. contains_key row.0 m ≡ true) rest
      → All (λ row. contains_key row.0 ((k, n) ∷ m) ≡ true) rest
  contains_key-more k n m [] h = tt
  contains_key-more k n m ((j, v) ∷ rest) h =
      (contains_key-cons k j n m h.0, contains_key-more k n m rest h.1)

  contains_key_self : (m : Map K ℕ) → All (λ row. contains_key row.0 m ≡ true) m
  unfolding contains_key lookup
  contains_key_self [] = tt
  contains_key_self ((k, n) ∷ m) =
      (ground (arith, same_refl k), contains_key-more k n m m (contains_key_self m))

  -- What merging the counters of a snapshot into a table does: the sum of the table grows by what
  -- the loop found, and each counter becomes the greater of the two.
  pub merge_counters-upsert_all :
      (daily t : Map K ℕ)
      → Distinct daily
      → (sum (upsert_all (merge_counters (select_keys daily t) daily nothing_merged).upserts t)
          ≡ sum t + (merge_counters (select_keys daily t) daily nothing_merged).delta)
        × ((k : K)
            → value k
                (upsert_all (merge_counters (select_keys daily t) daily nothing_merged).upserts t)
              ≡ max (value k daily) (value k t))
  unfolding upsert_all
  merge_counters-upsert_all daily t d =
      let p =
        merge_counters_lem (select_keys daily t) daily nothing_merged t d
          (Agree-select_keys daily daily t (contains_key_self daily)) in
      (omega (arith, p.0), p.1)
