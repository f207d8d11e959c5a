-- ===== src/Analytics/EventConsumer/Drain/Ends.antt =====
-- The end of drain_pending in analytics/src/event_consumer.rs.
use k_url.Analytics.EventConsumer.{ClickCodec, Worker, after_batch, drain_pending, process_entries}
use k_url.Analytics.EventConsumer.Drain.{
  batch-served, batch-shorter, process_entries-served, round-claims,
}
use k_url.Analytics.Redis.{Store, acquire, claim, take}
use k_url.Analytics.Redis.Commands.{Up}
use k_url.Prelude.{
  Bool, List-cases, [], ap, arith, false, inl, inr, length, ok, some, suc, zero, ℕ, ◌<◌, ◌∙◌, ◌∷◌,
  ◌≡◌,
}
use k_url.Prelude.Maps.{string_key}

module _ (codec : ClickCodec) (m : ℕ) where
  unfoldable pub Ended : ℕ → (ℕ → Bool) → Worker → Type 0
  Ended rounds asked w =
      (w' : Worker) × (drain_pending codec rounds asked (suc m) w ≡ some (ok tt, w'))
      × (w'.redis.store.pending ≡ [])
      × (w'.redis.answer ≡ w.redis.answer)
      × (w'.redis.store.incoming ≡ w.redis.store.incoming)

  pub ends :
      (rounds : ℕ) (asked : ℕ → Bool) (w : Worker)
      → Up w.redis
      → ((i : ℕ) → asked i ≡ false)
      → length w.redis.store.pending < rounds
      → Ended rounds asked w
  unfolding Ended after_batch process_entries
  ends zero asked w up calm enough = absurd (omega arith)
  ends (suc rounds) asked w up calm enough =
      let (v, like, p) = batch-served codec (suc m) w (λ i. (up acquire i, up claim i)) in
      let up_v : Up v.redis = λ c i. rw like.1 (up c i) in
      elim (List-cases w.redis.store.pending) [
        | inl h ↦ (
          v,
          round-claims codec (suc m) rounds asked w v [] (calm w.redis.at) h p,
          ap (λ (r : Store). r.pending) like.0 ∙ h,
          like.1,
          ap (λ (r : Store). r.incoming) like.0,
        )
        | inr (x, xs, h) ↦
            let w' = process_entries codec (take (suc m) (x ∷ xs)) v in
            let handled = process_entries-served codec (take (suc m) (x ∷ xs)) v up_v in
            let shorter =
              batch-shorter codec m v up_v x xs (ap (λ (r : Store). r.pending) like.0 ∙ h) in
            let (done, q, empty, kept, rest) =
              ends rounds asked w' (λ c i. rw handled.1 (up_v c i)) calm
                (ground (arith, shorter, enough, ap length h)) in
            (
              done,
              round-claims codec (suc m) rounds asked w v (x ∷ xs) (calm w.redis.at) h p ∙ q,
              empty,
              kept ∙ handled.1 ∙ like.1,
              rest ∙ handled.2 ∙ ap (λ (r : Store). r.incoming) like.0,
            )
      ]

module _ (codec : ClickCodec) where
  -- Where every command is served, the shutdown is not requested and a batch is of at least one entry,
  -- drain_pending ends without an error in more rounds than entries are pending, and leaves none
  -- pending.
  pub drain_pending-ends :
      (rounds n : ℕ) (asked : ℕ → Bool) (w : Worker)
      → Up w.redis
      → ((i : ℕ) → asked i ≡ false)
      → 0 < n
      → length w.redis.store.pending < rounds
      → (w' : Worker) × (drain_pending codec rounds asked n w ≡ some (ok tt, w'))
        × (w'.redis.store.pending ≡ [])
  unfolding Ended
  drain_pending-ends rounds zero asked w up calm some_n enough = absurd (omega arith)
  drain_pending-ends rounds (suc m) asked w up calm some_n enough =
      let (w', p, empty, kept, rest) = ends codec m rounds asked w up calm enough in (w', p, empty)
