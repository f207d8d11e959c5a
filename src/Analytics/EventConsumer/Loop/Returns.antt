-- ===== src/Analytics/EventConsumer/Loop/Returns.antt =====
-- The loops of analytics/src/event_consumer.rs while Redis serves its commands.
use k_url.Analytics.EventConsumer.{ClickCodec, Worker, process_entries, read_and_process}
use k_url.Analytics.EventConsumer.Batch.{read_and_process-cases}
use k_url.Analytics.EventConsumer.Conservation.{xreadgroup-Keeps}
use k_url.Analytics.EventConsumer.Drain.{process_entries-served}
use k_url.Analytics.EventConsumer.Drain.Ends.{Ended, ends}
use k_url.Analytics.EventConsumer.Loop.{
  Consumer, Wake, drain, event_loop, on_tick, put_worker, reply_ready, ticked, wake, with_services,
  worker,
}
use k_url.Analytics.EventConsumer.Steps.{queued}
use k_url.Analytics.Persistence.{Calendar, SnapshotRepository}
use k_url.Analytics.Persistence.Beside.{flush-Quiet}
use k_url.Analytics.Persistence.Flush.{flush}
use k_url.Analytics.Persistence.Quiet.{Quiet}
use k_url.Analytics.Redis.{RedisPool, StreamId, take, xreadgroup}
use k_url.Analytics.Redis.Commands.{Up}
use k_url.Common.Database.{NaiveDate}
use k_url.Prelude.{
  Bool, List, Option, [], and_then, ap, arith, false, inl, inr, length, length-append, map_option,
  ok, refl, some, suc, ℕ, ◌<◌, ◌∙◌, ◌∷◌, ◌≡◌,
}

-- Every command is served, and fewer than so many entries wait.
abbrev pub Fine : ℕ → RedisPool → Type 0
Fine rounds p = Up p × (length (queued p.store) < rounds)

pub Quiet-Fine : (rounds : ℕ) (p q : RedisPool) → Quiet p q → Fine rounds p → Fine rounds q
Quiet-Fine rounds p q quiet fine = ((λ c i. rw quiet.2 (fine.0 c i)), rw (quiet.0, quiet.1) fine.1)

module _ (codec : ClickCodec) (rounds : ℕ) where
  like-Fine :
      (w v : Worker)
      → queued v.redis.store ≡ queued w.redis.store
      → v.redis.answer ≡ w.redis.answer
      → Fine rounds w.redis
      → Fine rounds v.redis
  like-Fine w v p a fine = ((λ c i. rw a (fine.0 c i)), rw p fine.1)

  process_entries-Fine :
      (es : List StreamId) (w : Worker)
      → Fine rounds w.redis
      → Fine rounds (process_entries codec es w).redis
  process_entries-Fine es w fine =
      let w' = process_entries codec es w in
      let done = process_entries-served codec es w fine.0 in
      (
        (λ c i. rw done.1 (fine.0 c i)),
        ground (
          arith,
          done.0,
          fine.1,
          ap length done.2,
          length-append w.redis.store.pending w.redis.store.incoming,
          length-append w'.redis.store.pending w'.redis.store.incoming,
        ),
      )

  read_and_process-Fine :
      (n : ℕ) (w : Worker) → Fine rounds w.redis → Fine rounds (read_and_process codec n w).redis
  unfolding xreadgroup
  read_and_process-Fine n w fine = elim (read_and_process-cases codec n w) [
    | inl (v, like, p) ↦ rw p (like-Fine w v (ap queued like.0) like.1 fine)
    | inr (v, now, kept, done) ↦
        let delivered =
          like-Fine w v (ap queued now ∙ (xreadgroup-Keeps codec n w.redis.store).0) kept fine in
        elim done [
          | inl p ↦ rw p delivered
          | inr p ↦ rw p (process_entries-Fine (take n w.redis.store.incoming) v delivered)
        ]
  ]

module _ (repo : SnapshotRepository) (cal : Calendar) (codec : ClickCodec) (m rounds : ℕ)
    (asked : ℕ → Bool) where
  -- A computation of the consumer returns, and leaves Redis fine.
  abbrev pub Returns : Option (Consumer repo) → Type 0
  Returns o = (c : Consumer repo) × (o ≡ some c) × Fine rounds c.services.redis

  pub drain-Returns :
      (c : Consumer repo)
      → Fine rounds c.services.redis
      → ((i : ℕ) → asked i ≡ false)
      → (c' : Consumer repo) × (drain repo cal codec (suc m) rounds asked c ≡ some (ok tt, c'))
        × Fine rounds c'.services.redis
  unfolding drain worker put_worker Ended
  drain-Returns c fine calm =
      let w = worker repo c in
      let size = length-append c.services.redis.store.pending c.services.redis.store.incoming in
      let (w', p, empty, kept, rest) =
        ends codec m rounds asked w fine.0 calm (ground (arith, size, fine.1)) in
      (
        put_worker repo w' c,
        ap (map_option (λ x. (x.0, put_worker repo x.1 c))) p,
        ((λ k i. rw kept (fine.0 k i)), rw (empty, rest) (ground (arith, size, fine.1))),
      )

  pub flush-Fine :
      (today : NaiveDate) (c : Consumer repo)
      → Fine rounds c.services.redis
      → Fine rounds (with_services repo (flush cal repo today) c).1.services.redis
  unfolding with_services
  flush-Fine today c fine =
      Quiet-Fine rounds c.services.redis (flush cal repo today c.services).1.redis
        (flush-Quiet cal repo today c.services) fine

  wake-Returns :
      (w : Wake) (c : Consumer repo)
      → Fine rounds c.services.redis
      → ((i : ℕ) → asked i ≡ false)
      → Returns (wake repo cal codec (suc m) rounds asked w c)
  unfolding wake on_tick put_worker worker
  wake-Returns (ticked today) c fine calm =
      let (c', p, fine') = drain-Returns c fine calm in
      (
        (with_services repo (flush cal repo today) c').1,
        ap (map_option (λ x. (with_services repo (flush cal repo today) x.1).1)) p,
        flush-Fine today c' fine',
      )
  wake-Returns reply_ready c fine calm = (
    put_worker repo (read_and_process codec (suc m) (worker repo c)) c,
    refl,
    read_and_process-Fine codec rounds (suc m) (worker repo c) fine,
  )

  pub event_loop-Returns :
      (wakes : List Wake) (c : Consumer repo)
      → Fine rounds c.services.redis
      → ((i : ℕ) → asked i ≡ false)
      → Returns (event_loop repo cal codec (suc m) rounds asked wakes c)
  unfolding event_loop
  event_loop-Returns [] c fine calm = (c, refl, fine)
  event_loop-Returns (w ∷ wakes) c fine calm =
      let (c', p, fine') = wake-Returns w c fine calm in
      let (c₂, q, fine₂) = event_loop-Returns wakes c' fine' calm in
      (c₂, ap (λ o. and_then o (event_loop repo cal codec (suc m) rounds asked wakes)) p ∙ q, fine₂)
