-- ===== src/Analytics/Persistence/Reads.antt =====
-- The commands of analytics/src/redis_persistence.rs that only read.
use k_url.Analytics.Persistence.{Calendar, strip_prefix}
use k_url.Analytics.Persistence.Capture.{capture_links, capture_snapshot, insert_days, link_codes}
use k_url.Analytics.Redis.{
  Command, RedisError, RedisPool, Store, acquire, command, get_all, get_many, scan,
}
use k_url.Analytics.Redis.Commands.{command-store}
use k_url.Analytics.RedisStats.{last_clicked_at_batch}
use k_url.Analytics.Snapshot.{parse_daily_counts}
use k_url.Common.Database.{NaiveDate}
use k_url.Common.RedisKeys.{link_stats_key}
use k_url.Prelude.{
  List, Option, Option-cases, Result, Result-cases, String, [], inl, inr, ok, refl, ℕ, ◌∙◌, ◌∷◌,
  ◌≡◌,
}
use k_url.Prelude.Effects.{Exec, lift, ◌>>=◌}
use k_url.Prelude.Int.{ℤ}
use k_url.Prelude.Maps.{Map, nat_key, pair_key, string_key}
use k_url.Prelude.Time.{DateTime}

unfoldable pub ReadsOnly : {A : Type 0} → Exec RedisPool RedisError A → Type 0
ReadsOnly m = (pool : RedisPool) → (m pool).1.store ≡ pool.store

bind-ReadsOnly :
    {A B : Type 0} (m : Exec RedisPool RedisError A) (f : A → Exec RedisPool RedisError B)
    → ReadsOnly m
    → ((a : A) → ReadsOnly (f a))
    → ReadsOnly (m >>= f)
unfolding ReadsOnly
bind-ReadsOnly m f a b pool = elim (Result-cases (m pool).0) [
  | inl (x, p) ↦ rw p (b x (m pool).1 ∙ a pool)
  | inr (x, p) ↦ rw p (a pool)
]

pub command-ReadsOnly :
    {A : Type 0} (c : Command) (f : Store → A) → ReadsOnly (command c (λ r. (f r, r)))
unfolding ReadsOnly
command-ReadsOnly c f pool = elim (command-store c (λ r. (f r, r)) pool) [ inl p ↦ p | inr p ↦ p ]

lift-ReadsOnly : {A : Type 0} (r : Result RedisError A) → ReadsOnly (lift r)
unfolding ReadsOnly
lift-ReadsOnly r pool = refl

pub last_clicked_at_batch-ReadsOnly :
    (at_millis : ℤ → Option DateTime) (codes : List String)
    → ReadsOnly (last_clicked_at_batch at_millis codes)
unfolding last_clicked_at_batch
last_clicked_at_batch-ReadsOnly at_millis [] = lift-ReadsOnly (ok [])
last_clicked_at_batch-ReadsOnly at_millis (code ∷ codes) =
    bind-ReadsOnly _ _ (command-ReadsOnly get_many _) (λ values. lift-ReadsOnly _)

module _ (cal : Calendar) where
  pub capture_links-ReadsOnly :
      (keys : List String) (acc : Map (String × NaiveDate) ℕ)
      → ReadsOnly (capture_links cal keys acc)
  unfolding capture_links
  capture_links-ReadsOnly [] acc = lift-ReadsOnly (ok acc)
  capture_links-ReadsOnly (key ∷ keys) acc =
      bind-ReadsOnly _ _ (command-ReadsOnly scan (λ r. tt)) (λ u.
        elim (Option-cases (strip_prefix (link_stats_key "") key)) [
          | inl p ↦ rw p (capture_links-ReadsOnly keys acc)
          | inr (code, p) ↦ rw p (
              bind-ReadsOnly _ _ (command-ReadsOnly get_all _) (λ fields.
                capture_links-ReadsOnly keys
                  (insert_days code (parse_daily_counts cal.parse_date fields).valid acc)))
        ])

  pub capture_snapshot-ReadsOnly : (today : NaiveDate) → ReadsOnly (capture_snapshot cal today)
  unfolding capture_snapshot
  capture_snapshot-ReadsOnly today = bind-ReadsOnly _ _ (command-ReadsOnly acquire (λ r. tt)) (λ u.
      bind-ReadsOnly _ _ (command-ReadsOnly acquire (λ r. tt)) (λ v.
        bind-ReadsOnly _ _ (command-ReadsOnly scan _) (λ keys.
          bind-ReadsOnly _ _ (capture_links-ReadsOnly keys []) (λ days.
            bind-ReadsOnly _ _ (command-ReadsOnly get_all _) (λ fields.
              bind-ReadsOnly _ _ (last_clicked_at_batch-ReadsOnly cal.at_millis (link_codes days))
                (λ last. lift-ReadsOnly _))))))
