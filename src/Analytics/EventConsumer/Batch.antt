-- ===== src/Analytics/EventConsumer/Batch.antt =====
-- What one batch of drain_pending and one read of the stream come to, in
-- analytics/src/event_consumer.rs.
use k_url.Analytics.EventConsumer.{
  ClickCodec, Worker, after_batch, drain_pending, drain_pending_batch, handle_claimed,
  handle_connected, handle_read, process_entries, read_and_process, read_stream, with_redis,
}
use k_url.Analytics.Redis.{
  Command, RedisError, Store, StreamId, acquire, claim, command, io, read_group, take, xautoclaim,
  xreadgroup,
}
use k_url.Analytics.Redis.Commands.{after, command-cases}
use k_url.Prelude.{
  Bool, List, [], ap, err, false, inl, inr, length, ok, refl, some, suc, true, ℕ, ◌+◌, ◌∙◌, ◌∷◌,
  ◌≡◌, ◌⊎◌,
}
use k_url.Prelude.Effects.{Exec, bind-err, bind-ok, ◌>>=◌}

-- The same Redis, but for the number of its commands.
abbrev pub Like : Worker → Worker → Type 0
Like w v = (v.redis.store ≡ w.redis.store) × (v.redis.answer ≡ w.redis.answer)

-- A command that only reads answers, or fails.
pub reads-cases :
    {A : Type 0} (c : Command) (f : Store → A) (w : Worker)
    → ((v : Worker) × Like w v
        × (with_redis (command c (λ r. (f r, r))) w ≡ (ok (f w.redis.store), v)))
      ⊎ ((v : Worker) × Like w v × (with_redis (command c (λ r. (f r, r))) w ≡ (err io, v)))
unfolding with_redis
reads-cases c f w =
    let v : Worker = record w { redis = after w.redis.store w.redis } in
    elim (command-cases c (λ r. (f r, r)) w.redis) [
      | inl p ↦ inl (v, (refl, refl), ap (λ x. (x.0, record w { redis = x.1 })) p)
      | inr (inl p) ↦ inr (v, (refl, refl), ap (λ x. (x.0, record w { redis = x.1 })) p)
      | inr (inr p) ↦ inr (v, (refl, refl), ap (λ x. (x.0, record w { redis = x.1 })) p)
    ]

module _ (codec : ClickCodec) (n : ℕ) where
  -- A batch fails before an entry is handled, or handles the first `n` pending entries.
  pub drain_pending_batch-cases :
      (w : Worker)
      → ((e : RedisError) × (v : Worker) × Like w v × (drain_pending_batch codec n w ≡ (err e, v)))
        ⊎ ((v : Worker) × Like w v
            × (drain_pending_batch codec n w ≡ (
              ok (length (take n w.redis.store.pending)),
              process_entries codec (take n w.redis.store.pending) v,
            )))
  unfolding drain_pending_batch xautoclaim
  drain_pending_batch-cases w =
      let get : Exec Worker RedisError (Unit {0}) = with_redis (command acquire (λ r. (tt, r))) in
      let read = with_redis (command claim (xautoclaim n)) in
      let go_on : Unit {0} → Exec Worker RedisError ℕ = λ u. (read >>= handle_claimed codec) in
      elim (reads-cases acquire (λ r. tt) w) [
        | inr (v, like, p) ↦ inl (io, v, like, bind-err get go_on w p)
        | inl (v, like, p) ↦ elim (reads-cases claim (λ r. take n r.pending) v) [
          | inl (u, same, q) ↦ inr (
            record u { claimed_events = u.claimed_events + length (take n w.redis.store.pending) },
            (same.0 ∙ like.0, same.1 ∙ like.1),
            bind-ok get go_on w p
                ∙ bind-ok read (handle_claimed codec) v q
                ∙ ap (λ (r : Store). handle_claimed codec (take n r.pending) u) like.0,
          )
          | inr (u, same, q) ↦ inl (
            io,
            u,
            (same.0 ∙ like.0, same.1 ∙ like.1),
            bind-ok get go_on w p ∙ bind-err read (handle_claimed codec) v q,
          )
        ]
      ]

  -- A read fails before it delivers, or delivers the first `n` entries that are to be delivered, and
  -- its answer may be lost.
  read_stream-cases :
      (w : Worker)
      → ((v : Worker) × Like w v × (read_stream codec n w ≡ (err io, v)))
        ⊎ ((v : Worker) × (v.redis.store ≡ (xreadgroup n w.redis.store).1)
            × (v.redis.answer ≡ w.redis.answer)
            × ((read_stream codec n w ≡ (err io, v))
                ⊎ (read_stream codec n w ≡ (ok (take n w.redis.store.incoming), v))))
  unfolding read_stream with_redis xreadgroup
  read_stream-cases w =
      let get : Exec Worker RedisError (Unit {0}) = with_redis (command acquire (λ r. (tt, r))) in
      let read = with_redis (command read_group (xreadgroup n)) in
      let go_on : Unit {0} → Exec Worker RedisError (List StreamId) = λ u. read in
      elim (reads-cases acquire (λ r. tt) w) [
        | inr (v, like, p) ↦ inl (v, like, bind-err get go_on w p)
        | inl (v, like, p) ↦
            let v' : Store → Worker = λ r. record v { redis = after r v.redis } in
            let now = (xreadgroup n v.redis.store).1 in
            let delivered = ap (λ r. (xreadgroup n r).1) like.0 in
            elim (command-cases read_group (xreadgroup n) v.redis) [
              | inl q ↦ inr (
                v' now,
                delivered,
                like.1,
                inr (
                    bind-ok get go_on w p
                    ∙ ap (λ x. (x.0, record v { redis = x.1 })) q
                    ∙ ap (λ (r : Store). (ok (take n r.incoming), v' now)) like.0),
              )
              | inr (inl q) ↦ inl (
                v' v.redis.store,
                like,
                bind-ok get go_on w p ∙ ap (λ x. (x.0, record v { redis = x.1 })) q,
              )
              | inr (inr q) ↦ inr (
                v' now,
                delivered,
                like.1,
                inl (bind-ok get go_on w p ∙ ap (λ x. (x.0, record v { redis = x.1 })) q),
              )
            ]
      ]

  handle_read-cases :
      (entries : List StreamId) (w : Worker)
      → (v : Worker) × Like w v
        × ((handle_read codec (ok entries) w ≡ v)
            ⊎ (handle_read codec (ok entries) w ≡ process_entries codec entries v))
  unfolding handle_read handle_connected
  handle_read-cases [] w = (w, (refl, refl), inl refl)
  handle_read-cases (e ∷ rest) w = elim (reads-cases acquire (λ r. tt) w) [
    | inl (v, like, p) ↦ (v, like, inr (ap (λ x. handle_connected codec (e ∷ rest) x.0 x.1) p))
    | inr (v, like, p) ↦ (v, like, inl (ap (λ x. handle_connected codec (e ∷ rest) x.0 x.1) p))
  ]

  -- A read delivers nothing, or delivers the first `n` entries that are to be delivered and handles all
  -- of them or none.
  pub read_and_process-cases :
      (w : Worker)
      → ((v : Worker) × Like w v × (read_and_process codec n w ≡ v))
        ⊎ ((v : Worker) × (v.redis.store ≡ (xreadgroup n w.redis.store).1)
            × (v.redis.answer ≡ w.redis.answer)
            × ((read_and_process codec n w ≡ v)
                ⊎ (read_and_process codec n w
                    ≡ process_entries codec (take n w.redis.store.incoming) v)))
  unfolding read_and_process handle_read
  read_and_process-cases w = elim (read_stream-cases w) [
    | inl (v, like, p) ↦ inl (v, like, ap (λ x. handle_read codec x.0 x.1) p)
    | inr (v, now, kept, inl p) ↦ inr (v, now, kept, inl (ap (λ x. handle_read codec x.0 x.1) p))
    | inr (v, now, kept, inr p) ↦
        let (u, like, done) = handle_read-cases (take n w.redis.store.incoming) v in
        let run = ap (λ x. handle_read codec x.0 x.1) p in
        inr (
          u,
          like.0 ∙ now,
          like.1 ∙ kept,
          elim done [ inl q ↦ inl (run ∙ q) | inr q ↦ inr (run ∙ q) ],
        )
  ]

  -- The rounds of drain_pending.
  module _ (rounds : ℕ) (asked : ℕ → Bool) (w : Worker) where
    pub drain_pending-stop :
        asked w.redis.at ≡ true → drain_pending codec (suc rounds) asked n w ≡ some (ok tt, w)
    unfolding drain_pending
    drain_pending-stop p = rw p refl

    pub drain_pending-round :
        asked w.redis.at ≡ false
        → drain_pending codec (suc rounds) asked n w
          ≡ after_batch codec
              (drain_pending_batch codec n w).0
              (drain_pending_batch codec n w).1
              (drain_pending codec rounds asked n (drain_pending_batch codec n w).1)
    unfolding drain_pending
    drain_pending-round p = rw p refl
