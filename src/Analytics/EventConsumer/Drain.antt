-- ===== src/Analytics/EventConsumer/Drain.antt =====
-- The rounds of drain_pending in analytics/src/event_consumer.rs, where commands are served.
pub mod Ends
use k_url.Analytics.EventConsumer.{
  ClickCodec, Worker, after_batch, drain_pending, drain_pending_batch, handle_claimed,
  parse_click_event, process_entries, process_entry, with_redis,
}
use k_url.Analytics.EventConsumer.Batch.{Like, drain_pending-round}
use k_url.Analytics.EventConsumer.Queue.{absent-without}
use k_url.Analytics.EventConsumer.Steps.{
  process_entry-Handled, process_entry-none, process_entry-some,
}
use k_url.Analytics.Redis.{
  Command, RedisError, RedisPool, Store, StreamId, acknowledge, acquire, claim, has, hincrby, hset,
  refused, script, served, take, without, xack, xack_del, xautoclaim, xdel,
}
use k_url.Analytics.Redis.Commands.{Up, after, command-served}
use k_url.Analytics.Redis.Counters.{without-length, without-shorter}
use k_url.Analytics.RedisStats.{drop_click_event, keep_latest, record_click, record_click_event}
use k_url.Analytics.RedisStats.Once.{not_pending, was_pending}
use k_url.Common.RedisKeys.{global_stats_key, link_last_clicked_at_key, link_stats_key}
use k_url.Prelude.{
  Bool, Bool-cases, List, Option-cases, Result, String, [], ap, arith, false, inl, inr, length,
  none, ok, refl, some, suc, sym, zero, ℕ, ◌+◌, ◌<◌, ◌∙◌, ◌∷◌, ◌≡◌, ◌≢◌, ◌≤◌,
}
use k_url.Prelude.Effects.{continue}
use k_url.Prelude.Int.{ℤ}
use k_url.Prelude.Maps.{same_refl, string_key}

-- Connections are had, and entries can be claimed.
abbrev pub CanClaim : RedisPool → Type 0
CanClaim pool = (i : ℕ) → (pool.answer acquire i ≡ served) × (pool.answer claim i ≡ served)

record_click-pending :
    (link last id day : String) (ts : ℤ) (r : Store)
    → (record_click global_stats_key link last id day ts r).1.pending ≡ without id r.pending
unfolding xdel keep_latest hincrby hset
record_click-pending link last id day ts r = elim (Bool-cases (has id r.pending)) [
  | inl p ↦ rw (was_pending global_stats_key link last id day ts r p) (ground arith)
  | inr p ↦
      rw (not_pending global_stats_key link last id day ts r p)
        (sym (absent-without id r.pending p))
]

xack_del-pending : (id : String) (r : Store) → (xack_del id r).pending ≡ without id r.pending
unfolding xack_del xack xdel
xack_del-pending id r = ground (arith, absent-without id r.pending)

module _ (codec : ClickCodec) where
  -- Where the commands are served, a pending entry is not pending once it has been handled.
  process_entry-served :
      (e : StreamId) (w : Worker)
      → Up w.redis
      → ((process_entry codec e w).redis.store.pending ≡ without e.id w.redis.store.pending)
        × ((process_entry codec e w).redis.answer ≡ w.redis.answer)
  unfolding record_click_event drop_click_event
  process_entry-served e w up = elim (Option-cases (parse_click_event codec e)) [
    | inl h ↦
        rw
          (
            process_entry-none codec e w h,
            command-served acknowledge (λ r. (tt {0}, xack_del e.id r)) w.redis
                (up acknowledge w.redis.at),
          )
          (xack_del-pending e.id w.redis.store, refl)
    | inr (event, h) ↦
        let run =
          record_click global_stats_key (link_stats_key event.short_code)
            (link_last_clicked_at_key event.short_code) e.id (codec.format_day event.at)
            (codec.timestamp_millis event.at) in
        rw
          (
            process_entry-some codec e event w h,
            command-served script run w.redis (up script w.redis.at),
          )
          (
            record_click-pending (link_stats_key event.short_code)
                (link_last_clicked_at_key event.short_code) e.id (codec.format_day event.at)
                (codec.timestamp_millis event.at) w.redis.store,
            refl,
          )
  ]

  pub process_entries-served :
      (es : List StreamId) (w : Worker)
      → Up w.redis
      → (length (process_entries codec es w).redis.store.pending ≤ length w.redis.store.pending)
        × ((process_entries codec es w).redis.answer ≡ w.redis.answer)
        × ((process_entries codec es w).redis.store.incoming ≡ w.redis.store.incoming)
  unfolding process_entries
  process_entries-served [] w up = (omega arith, refl, refl)
  process_entries-served (e ∷ es) w up =
      let one = process_entry-served e w up in
      let rest = process_entries-served es (process_entry codec e w) (λ c i. rw one.1 (up c i)) in
      (
        ground (arith, rest.0, one.0, ap length one.0, without-length e.id w.redis.store.pending),
        rest.1 ∙ one.1,
        rest.2 ∙ (process_entry-Handled codec e w).0,
      )

  -- A batch of at least one entry makes the pending ones fewer.
  pub batch-shorter :
      (n : ℕ) (w : Worker)
      → Up w.redis
      → (x : StreamId) (xs : List StreamId) → w.redis.store.pending ≡ x ∷ xs
      → length (process_entries codec (take (suc n) (x ∷ xs)) w).redis.store.pending
        < length (x ∷ xs)
  unfolding process_entries
  batch-shorter n w up x xs h =
      let one = process_entry-served x w up in
      let rest =
        process_entries-served (take n xs) (process_entry codec x w) (λ c i. rw one.1 (up c i)) in
      ground (
        arith,
        rest.0,
        ap length (one.0 ∙ ap (without x.id) h),
        without-shorter x.id (x ∷ xs),
        same_refl x.id,
      )

module _ (codec : ClickCodec) (n : ℕ) where
  pub batch-served :
      (w : Worker)
      → CanClaim w.redis
      → (v : Worker) × Like w v
        × (drain_pending_batch codec n w ≡ (
          ok (length (take n w.redis.store.pending)),
          process_entries codec (take n w.redis.store.pending) v,
        ))
  unfolding drain_pending_batch with_redis xautoclaim handle_claimed
  batch-served w up =
      let v : Worker = record w { redis = after w.redis.store w.redis } in
      let u : Worker = record v { redis = after v.redis.store v.redis } in
      (
        record u { claimed_events = u.claimed_events + length (take n w.redis.store.pending) },
        (refl, refl),
        rw
            (
              drain_pending_batch,
              command-served acquire (λ r. (tt {0}, r)) w.redis (up w.redis.at).0,
            )
            (ap
              (λ (x : Result RedisError (List StreamId) × RedisPool).
                continue x.0 (handle_claimed codec) (record w { redis = x.1 }))
              (command-served claim (λ r. (take n r.pending, r)) v.redis (up v.redis.at).1)),
      )

  -- A round whose batch claims the first entries of `xs`.
  pub round-claims :
      (rounds : ℕ) (asked : ℕ → Bool) (w v : Worker) (xs : List StreamId)
      → asked w.redis.at ≡ false
      → w.redis.store.pending ≡ xs
      → drain_pending_batch codec n w ≡ (
        ok (length (take n w.redis.store.pending)),
        process_entries codec (take n w.redis.store.pending) v,
      )
      → drain_pending codec (suc rounds) asked n w
        ≡ after_batch codec
            (ok (length (take n xs)))
            (process_entries codec (take n xs) v)
            (drain_pending codec rounds asked n (process_entries codec (take n xs) v))
  round-claims rounds asked w v xs calm h p =
      drain_pending-round codec n rounds asked w calm
      ∙ ap (λ x. after_batch codec x.0 x.1 (drain_pending codec rounds asked n x.1)) p
      ∙ ap
          (λ ys.
            let w' = process_entries codec (take n ys) v in
            after_batch codec (ok (length (take n ys))) w' (drain_pending codec rounds asked n w'))
          h
