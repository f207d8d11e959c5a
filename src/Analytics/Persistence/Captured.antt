-- ===== src/Analytics/Persistence/Captured.antt =====
-- What capture_snapshot of analytics/src/redis_persistence.rs reads of the counters of all links.
use mathlib.Core.Path.{subst}
use k_url.Analytics.Persistence.{Calendar}
use k_url.Analytics.Persistence.Capture.{capture_snapshot, link_codes}
use k_url.Analytics.Persistence.Reads.{
  ReadsOnly, capture_links-ReadsOnly, command-ReadsOnly, last_clicked_at_batch-ReadsOnly,
}
use k_url.Analytics.Redis.{
  Command, RedisError, RedisPool, Store, acquire, command, get_all, hgetall, io, scan,
}
use k_url.Analytics.Redis.Commands.{command-cases}
use k_url.Analytics.Snapshot.{RedisSnapshot, parse_daily_counts}
use k_url.Common.Database.{NaiveDate}
use k_url.Common.RedisKeys.{global_stats_key}
use k_url.Prelude.{Result, Result-cases, [], ap, err, inl, inr, ok, refl, sym, ◌∙◌, ◌≡◌}
use k_url.Prelude.Effects.{Exec, continue, lift, ◌>>=◌}
use k_url.Prelude.Maps.{nat_key, pair_key, string_key}

-- A result stands in the relation `Q` to what Redis has.
unfoldable pub Yields : {A : Type 0} → (Store → A → Type 0) → Exec RedisPool RedisError A → Type 0
Yields Q m = (pool : RedisPool) (b : _) → (m pool).0 ≡ ok b → Q pool.store b

ok_value : {A : Type 0} (a b : A) (r : Result RedisError A) → r ≡ ok a → r ≡ ok b → a ≡ b
ok_value a b r p q = cc

pure-Yields :
    {A : Type 0} (Q : Store → A → Type 0) (a : A) → ((r : Store) → Q r a) → Yields Q (lift (ok a))
unfolding Yields
pure-Yields Q a h pool b p =
    let same : a ≡ b = ok_value a b (ok a) refl p in subst (λ x. Q pool.store x) same (h pool.store)

skip-Yields :
    {A B : Type 0} (Q : Store → B → Type 0) (m : Exec RedisPool RedisError A)
    (f : A → Exec RedisPool RedisError B)
    → ReadsOnly m
    → ((a : A) → Yields Q (f a))
    → Yields Q (m >>= f)
unfolding Yields ReadsOnly
skip-Yields Q m f keeps go_on pool b h = elim (Result-cases (m pool).0) [
  | inl (a, p) ↦
      rw (keeps pool) at (go_on a (m pool).1 b (ap (λ r. (continue r f (m pool).1).0) (sym p) ∙ h))
  | inr (e, p) ↦ let clash : err e ≡ ok b = ap (λ r. (continue r f (m pool).1).0) (sym p) ∙ h in cc
]

command-ok :
    {A : Type 0} (c : Command) (f : Store → A) (pool : RedisPool) (a : A)
    → (command c (λ r. (f r, r)) pool).0 ≡ ok a
    → f pool.store ≡ a
command-ok c f pool a h = elim (command-cases c (λ r. (f r, r)) pool) [
  | inl p ↦ let same : ok (f pool.store) ≡ ok a = ap (λ x. x.0) (sym p) ∙ h in cc
  | inr (inl p) ↦ let clash : err io ≡ ok a = ap (λ x. x.0) (sym p) ∙ h in cc
  | inr (inr p) ↦ let clash : err io ≡ ok a = ap (λ x. x.0) (sym p) ∙ h in cc
]

read-Yields :
    {A B : Type 0} (Q : Store → B → Type 0) (c : Command) (g : Store → A)
    (f : A → Exec RedisPool RedisError B)
    → ((a : A) → Yields (λ r b. g r ≡ a → Q r b) (f a))
    → Yields Q (command c (λ r. (g r, r)) >>= f)
unfolding Yields ReadsOnly
read-Yields Q c g f go_on pool b h =
    let m = command c (λ r. (g r, r)) in
    elim (Result-cases (m pool).0) [
      | inl (a, p) ↦
          rw (command-ReadsOnly c g pool) at
            (go_on a (m pool).1 b (ap (λ r. (continue r f (m pool).1).0) (sym p) ∙ h))
            (command-ok c g pool a p)
      | inr (e, p) ↦
          let clash : err e ≡ ok b = ap (λ r. (continue r f (m pool).1).0) (sym p) ∙ h in cc
    ]

module _ (cal : Calendar) where
  abbrev pub CapturesGlobal : Store → RedisSnapshot → Type 0
  CapturesGlobal r snapshot =
      snapshot.global_daily ≡ (parse_daily_counts cal.parse_date (hgetall global_stats_key r)).valid

  -- The counters of all links in a snapshot are those that Redis has.
  pub capture_snapshot-global :
      (today : NaiveDate) → Yields CapturesGlobal (capture_snapshot cal today)
  unfolding capture_snapshot
  capture_snapshot-global today =
      skip-Yields CapturesGlobal _ _ (command-ReadsOnly acquire (λ r. tt)) (λ u.
        skip-Yields CapturesGlobal _ _ (command-ReadsOnly acquire (λ r. tt)) (λ v.
          skip-Yields CapturesGlobal _ _ (command-ReadsOnly scan _) (λ keys.
            skip-Yields CapturesGlobal _ _ (capture_links-ReadsOnly cal keys []) (λ days.
              read-Yields CapturesGlobal get_all (hgetall global_stats_key) _ (λ fields.
                skip-Yields _ _ _ (last_clicked_at_batch-ReadsOnly cal.at_millis (link_codes days))
                  (λ last.
                    pure-Yields _ _
                      (λ r p. ap (λ x. (parse_daily_counts cal.parse_date x).valid) (sym p))))))))
