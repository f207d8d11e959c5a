-- ===== src/Analytics/Persistence/Quiet.antt =====
-- The functions of analytics/src/redis_persistence.rs beside the reading of the stream.
use k_url.Analytics.Persistence.{Calendar, strip_prefix}
use k_url.Analytics.Persistence.Capture.{capture_links, capture_snapshot, insert_days, link_codes}
use k_url.Analytics.Persistence.Flush.{
  cleanup, member, reconcile, reconcile_and_cleanup, reconcile_half,
}
use k_url.Analytics.Persistence.Rehydrate.{restore_global, restore_links}
use k_url.Analytics.Redis.{
  Command, RedisError, RedisPool, Store, acquire, command, get_all, get_many, hset, scan, script,
  script_error,
}
use k_url.Analytics.Redis.Commands.{command-cases}
use k_url.Analytics.RedisStats.{
  compare_and_delete, hmax, hmax_script, last_clicked_at_batch, compare_and_delete_script,
}
use k_url.Analytics.Snapshot.{
  GlobalDailyStats, LinkDailyStats, MergeOutcome, RedisSnapshot, parse_daily_counts,
}
use k_url.Common.Database.{NaiveDate}
use k_url.Common.RedisKeys.{global_stats_key, link_stats_key}
use k_url.Prelude.{
  Bool, List, Option, Option-cases, Result, Result-cases, String, [], arith, err, false, get_or,
  if◌then◌else◌, inl, inr, ok, refl, true, ℕ, ◌∙◌, ◌∷◌, ◌≡◌,
}
use k_url.Prelude.Effects.{Exec, lift, ◌>>=◌}
use k_url.Prelude.Int.{ℤ}
use k_url.Prelude.Maps.{Keyed, Map, lookup, nat_key, pair_key, string_key}
use k_url.Prelude.Parse.Show.{to_string}
use k_url.Prelude.Time.{DateTime}

-- The entries of the stream, and how Redis answers, are as before.
abbrev pub Quiet : RedisPool → RedisPool → Type 0
Quiet p q =
    (q.store.pending ≡ p.store.pending)
    × (q.store.incoming ≡ p.store.incoming)
    × (q.answer ≡ p.answer)

pub refl-Quiet : (p : RedisPool) → Quiet p p
refl-Quiet p = (refl, refl, refl)

pub trans-Quiet : (p q r : RedisPool) → Quiet p q → Quiet q r → Quiet p r
trans-Quiet p q r a b = (b.0 ∙ a.0, b.1 ∙ a.1, b.2 ∙ a.2)

unfoldable pub IsQuiet : {A : Type 0} → Exec RedisPool RedisError A → Type 0
IsQuiet m = (pool : RedisPool) → Quiet pool (m pool).1

pub bind-IsQuiet :
    {A B : Type 0} (m : Exec RedisPool RedisError A) (f : A → Exec RedisPool RedisError B)
    → IsQuiet m
    → ((a : A) → IsQuiet (f a))
    → IsQuiet (m >>= f)
unfolding IsQuiet
bind-IsQuiet m f a b pool = elim (Result-cases (m pool).0) [
  | inl (x, p) ↦ rw p (trans-Quiet pool (m pool).1 (f x (m pool).1).1 (a pool) (b x (m pool).1))
  | inr (x, p) ↦ rw p (a pool)
]

if-Quiet : (b : Bool) (p q r : RedisPool) → Quiet p q → Quiet p r → Quiet p (if b then q else r)
if-Quiet true p q r a c = a
if-Quiet false p q r a c = c

pub lift-IsQuiet : {A : Type 0} (r : Result RedisError A) → IsQuiet (lift r)
unfolding IsQuiet
lift-IsQuiet r pool = refl-Quiet pool

pub command-IsQuiet :
    {A : Type 0} (c : Command) (run : Store → A × Store)
    → ((r : Store) → ((run r).1.pending ≡ r.pending) × ((run r).1.incoming ≡ r.incoming))
    → IsQuiet (command c run)
unfolding IsQuiet
command-IsQuiet c run h pool = elim (command-cases c run pool) [
  | inl p ↦ rw p ((h pool.store).0, (h pool.store).1, refl)
  | inr (inl p) ↦ rw p (refl, refl, refl)
  | inr (inr p) ↦ rw p ((h pool.store).0, (h pool.store).1, refl)
]

pub reads-IsQuiet : {A : Type 0} (c : Command) (f : Store → A) → IsQuiet (command c (λ r. (f r, r)))
reads-IsQuiet c f = command-IsQuiet c (λ r. (f r, r)) (λ r. (refl, refl))

hmax_script-quiet :
    (key field : String) (value : ℕ) (r : Store)
    → ((hmax_script key field value r).1.pending ≡ r.pending)
      × ((hmax_script key field value r).1.incoming ≡ r.incoming)
unfolding hmax_script hset
hmax_script-quiet key field value r = ground arith

pub hmax-IsQuiet : (key field : String) (value : ℕ) → IsQuiet (hmax key field value)
unfolding hmax
hmax-IsQuiet key field value =
    command-IsQuiet script (hmax_script key field value) (hmax_script-quiet key field value)

compare_and_delete-IsQuiet :
    (key field expected : String) → IsQuiet (compare_and_delete key field expected)
unfolding compare_and_delete compare_and_delete_script
compare_and_delete-IsQuiet key field expected =
    bind-IsQuiet _ _ (reads-IsQuiet script (λ r. err script_error)) (λ reply. lift-IsQuiet reply)

last_clicked_at_batch-IsQuiet :
    (at_millis : ℤ → Option DateTime) (codes : List String)
    → IsQuiet (last_clicked_at_batch at_millis codes)
unfolding last_clicked_at_batch
last_clicked_at_batch-IsQuiet at_millis [] = lift-IsQuiet (ok [])
last_clicked_at_batch-IsQuiet at_millis (code ∷ codes) =
    bind-IsQuiet _ _ (reads-IsQuiet get_many _) (λ values. lift-IsQuiet _)

module _ {K : Type 0} ⦃e : Keyed K⦄ (hash_key field : K → String) where
  reconcile-Quiet :
      (committed : Map K ℕ) (done : List K) (pool : RedisPool)
      → Quiet pool (reconcile hash_key field committed done pool).1
  unfolding reconcile IsQuiet
  reconcile-Quiet [] done pool = refl-Quiet pool
  reconcile-Quiet ((k, count) ∷ rest) done pool =
      let step = hmax (hash_key k) (field k) count pool in
      let done' : List K = elim step.0 [ ok b ↦ k ∷ done | err e ↦ done ] in
      trans-Quiet pool step.1 (reconcile hash_key field rest done' step.1).1
        (hmax-IsQuiet (hash_key k) (field k) count pool) (reconcile-Quiet rest done' step.1)

  cleanup-Quiet :
      (committed : Map K ℕ) (done stale : List K) (pool : RedisPool)
      → Quiet pool (cleanup hash_key field committed done stale pool)
  unfolding cleanup IsQuiet
  cleanup-Quiet committed done [] pool = refl-Quiet pool
  cleanup-Quiet committed done (k ∷ stale) pool =
      let text = to_string (get_or 0 (lookup k committed)) in
      let tried = (compare_and_delete (hash_key k) (field k) text pool).1 in
      let now = if member hash_key field k done then tried else pool in
      trans-Quiet pool now (cleanup hash_key field committed done stale now)
        (if-Quiet (member hash_key field k done) pool tried pool
          (compare_and_delete-IsQuiet (hash_key k) (field k) text pool) (refl-Quiet pool))
        (cleanup-Quiet committed done stale now)

  pub reconcile_half-Quiet :
      (committed : Map K ℕ) (stale : List K) (pool : RedisPool)
      → Quiet pool (reconcile_half hash_key field committed stale pool)
  unfolding reconcile_half
  reconcile_half-Quiet committed stale pool =
      let run = reconcile hash_key field committed [] pool in
      trans-Quiet pool run.1 (cleanup hash_key field committed run.0 stale run.1)
        (reconcile-Quiet committed [] pool) (cleanup-Quiet committed run.0 stale run.1)

module _ (cal : Calendar) where
  capture_links-IsQuiet :
      (keys : List String) (acc : Map (String × NaiveDate) ℕ) → IsQuiet (capture_links cal keys acc)
  unfolding capture_links
  capture_links-IsQuiet [] acc = lift-IsQuiet (ok acc)
  capture_links-IsQuiet (key ∷ keys) acc = bind-IsQuiet _ _ (reads-IsQuiet scan (λ r. tt)) (λ u.
      elim (Option-cases (strip_prefix (link_stats_key "") key)) [
        | inl p ↦ rw p (capture_links-IsQuiet keys acc)
        | inr (code, p) ↦ rw p (
            bind-IsQuiet _ _ (reads-IsQuiet get_all _) (λ fields.
              capture_links-IsQuiet keys
                (insert_days code (parse_daily_counts cal.parse_date fields).valid acc)))
      ])

  pub capture_snapshot-IsQuiet : (today : NaiveDate) → IsQuiet (capture_snapshot cal today)
  unfolding capture_snapshot
  capture_snapshot-IsQuiet today = bind-IsQuiet _ _ (reads-IsQuiet acquire (λ r. tt)) (λ u.
      bind-IsQuiet _ _ (reads-IsQuiet acquire (λ r. tt)) (λ v.
        bind-IsQuiet _ _ (reads-IsQuiet scan _) (λ keys.
          bind-IsQuiet _ _ (capture_links-IsQuiet keys []) (λ days.
            bind-IsQuiet _ _ (reads-IsQuiet get_all _) (λ fields.
              bind-IsQuiet _ _ (last_clicked_at_batch-IsQuiet cal.at_millis (link_codes days))
                (λ last. lift-IsQuiet _))))))

  pub reconcile_and_cleanup-IsQuiet :
      (snapshot : RedisSnapshot) (outcome : MergeOutcome)
      → IsQuiet (reconcile_and_cleanup cal snapshot outcome)
  unfolding reconcile_and_cleanup IsQuiet
  reconcile_and_cleanup-IsQuiet snapshot outcome =
      bind-IsQuiet _ _ (reads-IsQuiet acquire (λ r. tt)) (λ u pool.
        let first =
          reconcile_half (λ date. global_stats_key) cal.show_date outcome.committed_global
            snapshot.stale_global pool in
        trans-Quiet pool first
          (reconcile_half (λ k. link_stats_key k.0) (λ k. cal.show_date k.1) outcome.committed_links
            snapshot.stale_links first)
          (reconcile_half-Quiet (λ date. global_stats_key) cal.show_date outcome.committed_global
            snapshot.stale_global pool)
          (reconcile_half-Quiet (λ k. link_stats_key k.0) (λ k. cal.show_date k.1)
            outcome.committed_links snapshot.stale_links first))

  pub restore_global-Quiet :
      (stats : List GlobalDailyStats) (pool : RedisPool)
      → Quiet pool (restore_global cal stats pool)
  unfolding restore_global IsQuiet
  restore_global-Quiet [] pool = refl-Quiet pool
  restore_global-Quiet (stat ∷ rest) pool =
      let step = (hmax global_stats_key (cal.show_date stat.day) stat.clicks pool).1 in
      trans-Quiet pool step (restore_global cal rest step)
        (hmax-IsQuiet global_stats_key (cal.show_date stat.day) stat.clicks pool)
        (restore_global-Quiet rest step)

  pub restore_links-Quiet :
      (stats : List LinkDailyStats) (pool : RedisPool) → Quiet pool (restore_links cal stats pool)
  unfolding restore_links IsQuiet
  restore_links-Quiet [] pool = refl-Quiet pool
  restore_links-Quiet (stat ∷ rest) pool =
      let key = link_stats_key stat.short_code in
      let step = (hmax key (cal.show_date stat.day) stat.clicks pool).1 in
      trans-Quiet pool step (restore_links cal rest step)
        (hmax-IsQuiet key (cal.show_date stat.day) stat.clicks pool) (restore_links-Quiet rest step)
