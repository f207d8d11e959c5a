-- ===== src/Prelude/Sums.antt =====
-- Tables of counters: their sum, the rows whose keys are given, and writes that only raise.
use Prim.Native.Nat.{ℕ, ◌+◌, max}
use mathlib.Core.Path.{◌≡◌, ap}
use mathlib.Core.Option.{none, some}
use mathlib.Core.List.{[], ◌∷◌}
use native.Mathlib.Omega.{arith}
use k_url.Prelude.Tests.{if◌then◌else◌}
use k_url.Prelude.Lists.{get_or}
use k_url.Prelude.Maps.{Keyed, Map, ◌==◌, lookup, insert, lookup-insert}

module _ {ℓ} {K : Type ℓ} where
  abbrev pub sum : Map K ℕ → ℕ
  sum [] = 0
  sum ((k, n) ∷ m) = n + sum m

module _ {ℓ} {K : Type ℓ} ⦃e : Keyed K⦄ where
  abbrev pub value : K → Map K ℕ → ℕ
  value k m = get_or 0 (lookup k m)

  -- Every key stands in one entry.
  abbrev pub Distinct : {V : Type 0} → Map K V → Type 0
  Distinct [] = Unit
  Distinct ((k, v) ∷ m) = (lookup k m ≡ none) × Distinct m

  pub sum-insert : (k : K) (n : ℕ) (m : Map K ℕ) → sum (insert k n m) + value k m ≡ sum m + n
  unfolding insert lookup
  sum-insert k n [] = omega arith
  sum-insert k n ((j, v) ∷ m) = ground (arith, sum-insert k n m)

  -- `insert … on conflict do update set clicks = greatest(excluded.clicks, clicks)`.
  unfoldable pub upsert : K → ℕ → Map K ℕ → Map K ℕ
  upsert k n m = elim (lookup k m) [ none ↦ insert k n m | some old ↦ insert k (max n old) m ]

  unfoldable pub upsert_all : Map K ℕ → Map K ℕ → Map K ℕ
  unfolding upsert
  upsert_all [] m = m
  upsert_all ((k, n) ∷ rows) m = upsert_all rows (upsert k n m)

  pub sum-upsert :
      (k : K) (n : ℕ) (m : Map K ℕ) → sum (upsert k n m) + value k m ≡ sum m + max n (value k m)
  unfolding upsert
  sum-upsert k n m = ground (arith, sum-insert k n m, sum-insert k (max n (value k m)) m)

  pub value-upsert :
      (k j : K) (n : ℕ) (m : Map K ℕ)
      → value j (upsert k n m) ≡ (if k == j then max n (value j m) else value j m)
  unfolding upsert
  value-upsert k j n m = ground (
    arith,
    lookup-insert k j n m,
    lookup-insert k j (max n (value k m)) m,
    e.same_iff k j,
    ap (λ x. lookup x m),
  )
