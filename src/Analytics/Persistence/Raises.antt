-- ===== src/Analytics/Persistence/Raises.antt =====
-- The counters of Redis over the functions of analytics/src/redis_persistence.rs.
use k_url.Analytics.Persistence.Flush.{cleanup, reconcile, reconcile_half}
use k_url.Analytics.Redis.{RedisError, RedisPool, Store, io, script, script_error}
use k_url.Analytics.Redis.Commands.{command-cases, command-store}
use k_url.Analytics.Redis.Counters.{clicks}
use k_url.Analytics.RedisStats.{compare_and_delete, hmax, hmax_script, compare_and_delete_script}
use k_url.Analytics.RedisStats.Hmax.{hmax_script_lem}
use k_url.Prelude.{
  List, String, [], ap, arith, err, get_or, inl, inr, ok, refl, ℕ, ◌∷◌, ◌≡◌, ◌≤◌, none,
}
use k_url.Prelude.Maps.{Keyed, Map, lookup, string_key}
use k_url.Prelude.Parse.Show.{to_string}

-- No counter is lower than before.
abbrev pub Raises : Store → Store → Type 0
Raises r now = (k f : String) → clicks k f r ≤ clicks k f now

pub same-Raises : (r now : Store) → now ≡ r → Raises r now
same-Raises r now p k f = rw p (omega arith)

pub trans-Raises : (r s t : Store) → Raises r s → Raises s t → Raises r t
trans-Raises r s t a b k f = ground (arith, a k f, b k f)

script-Raises :
    (key field : String) (value : ℕ) (r : Store) → Raises r (hmax_script key field value r).1
script-Raises key field value r k f =
    let lem = hmax_script_lem key field value r in
    ground (
      arith,
      lem.0,
      lem.1 k f,
      string_key.same_iff key k,
      string_key.same_iff field f,
      ap (λ x. clicks x field (hmax_script key field value r).1),
      ap (λ x. clicks k x (hmax_script key field value r).1),
      ap (λ x. clicks x field r),
      ap (λ x. clicks k x r),
    )

pub hmax-Raises :
    (key field : String) (value : ℕ) (pool : RedisPool)
    → Raises pool.store (hmax key field value pool).1.store
unfolding hmax
hmax-Raises key field value pool = elim (command-store script (hmax_script key field value) pool) [
  | inl p ↦ rw p (script-Raises key field value pool.store)
  | inr p ↦ same-Raises pool.store _ p
]

-- Without a global `argv` the script ends with an error, whatever Redis answers.
pub compare_and_delete-fails :
    (key field expected : String) (pool : RedisPool)
    → ((e : RedisError) × ((compare_and_delete key field expected pool).0 ≡ err e))
      × ((compare_and_delete key field expected pool).1.store ≡ pool.store)
unfolding compare_and_delete compare_and_delete_script
compare_and_delete-fails key field expected pool =
    let run = compare_and_delete_script none key field expected in
    elim (command-cases script run pool) [
      | inl p ↦ rw p ((script_error, refl), refl)
      | inr (inl p) ↦ rw p ((io, refl), refl)
      | inr (inr p) ↦ rw p ((io, refl), refl)
    ]

module _ {K : Type 0} ⦃e : Keyed K⦄ (hash_key field : K → String) where
  reconcile-Raises :
      (committed : Map K ℕ) (done : List K) (pool : RedisPool)
      → Raises pool.store (reconcile hash_key field committed done pool).1.store
  unfolding reconcile
  reconcile-Raises [] done pool = same-Raises pool.store pool.store refl
  reconcile-Raises ((k, count) ∷ rest) done pool =
      let step = hmax (hash_key k) (field k) count pool in
      trans-Raises pool.store step.1.store _ (hmax-Raises (hash_key k) (field k) count pool)
        (reconcile-Raises rest (elim step.0 [ ok b ↦ k ∷ done | err e ↦ done ]) step.1)

  cleanup-store :
      (committed : Map K ℕ) (done stale : List K) (pool : RedisPool)
      → (cleanup hash_key field committed done stale pool).store ≡ pool.store
  unfolding cleanup
  cleanup-store committed done [] pool = refl
  cleanup-store committed done (k ∷ stale) pool =
      let text = to_string (get_or 0 (lookup k committed)) in
      ground (
        arith,
        cleanup-store committed done stale (compare_and_delete (hash_key k) (field k) text pool).1,
        cleanup-store committed done stale pool,
        compare_and_delete-fails (hash_key k) (field k) text pool,
      )

  pub reconcile_half-Raises :
      (committed : Map K ℕ) (stale : List K) (pool : RedisPool)
      → Raises pool.store (reconcile_half hash_key field committed stale pool).store
  unfolding reconcile_half
  reconcile_half-Raises committed stale pool =
      let run = reconcile hash_key field committed [] pool in
      rw (cleanup-store committed run.0 stale run.1) (reconcile-Raises committed [] pool)
