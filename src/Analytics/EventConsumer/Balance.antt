-- ===== src/Analytics/EventConsumer/Balance.antt =====
-- The balance of clicks over the functions of analytics/src/event_consumer.rs that read the stream.
use k_url.Analytics.EventConsumer.{
  ClickCodec, Worker, after_batch, drain_pending, drain_pending_batch, process_entries,
  process_entry, read_and_process,
}
use k_url.Analytics.EventConsumer.Batch.{
  drain_pending-round, drain_pending-stop, drain_pending_batch-cases, read_and_process-cases,
}
use k_url.Analytics.EventConsumer.Conservation.{
  Sound, Step-Sound, In-All, same-known, xreadgroup-Keeps,
}
use k_url.Analytics.EventConsumer.Queue.{Agrees, In, In-app, In-take, Unique, Unique-Agrees}
use k_url.Analytics.EventConsumer.Reading.{handles, known}
use k_url.Analytics.EventConsumer.Steps.{queued}
use k_url.Analytics.Redis.{RedisError, Store, StreamId, take, xreadgroup}
use k_url.Prelude.{
  Bool, Bool-cases, List, Option, Result, [], ap, arith, err, inl, inr, none, ok, refl, some, suc,
  sym, zero, ℕ, ◌∙◌, ◌∷◌, ◌≡◌, ◌⊎◌,
}

module _ (codec : ClickCodec) where
  -- The ids stay distinct, and the clicks that are counted or wait are as many as before.
  abbrev pub Balanced : Store → Store → Type 0
  Balanced r now = Unique (queued r) → Unique (queued now) × (known codec now ≡ known codec r)

  process_entries-Sound :
      (base : ℕ) (es : List StreamId) (w : Worker)
      → Sound codec base (record { worker = w; hand = es; sent = 0 })
      → Sound codec base (record { worker = process_entries codec es w; hand = []; sent = 0 })
  unfolding process_entries
  process_entries-Sound base [] w sound = sound
  process_entries-Sound base (e ∷ es) w sound =
      process_entries-Sound base es (process_entry codec e w) (
        Step-Sound codec base (handles (record { worker = w; hand = e ∷ es; sent = 0 }) e es refl)
          sound)

  -- Entries that wait are handled.
  pub process_entries-Balanced :
      (es : List StreamId) (w : Worker)
      → ((e : StreamId) → In e es → In e (queued w.redis.store))
      → Balanced w.redis.store (process_entries codec es w).redis.store
  process_entries-Balanced es w known_es u =
      let q = queued w.redis.store in
      let sound = process_entries-Sound (known codec w.redis.store) es w (
        u,
        In-All codec (λ e. Agrees e q) es (λ e m. Unique-Agrees q u e (known_es e m)),
        omega arith,
      ) in
      (sound.0, sound.2 ∙ omega arith)

  like-Balanced : (r now : Store) → now ≡ r → Balanced r now
  like-Balanced r now p u = (rw p u, ap (known codec) p)

  trans-Balanced : (r s t : Store) → Balanced r s → Balanced s t → Balanced r t
  trans-Balanced r s t f g u = ((g (f u).0).0, (g (f u).0).1 ∙ (f u).1)

  drain_pending_batch-Balanced :
      (n : ℕ) (w : Worker) → Balanced w.redis.store (drain_pending_batch codec n w).1.redis.store
  drain_pending_batch-Balanced n w = elim (drain_pending_batch-cases codec n w) [
    | inl (e, v, like, p) ↦ rw p (like-Balanced w.redis.store v.redis.store like.0)
    | inr (v, like, p) ↦ rw p (
        trans-Balanced w.redis.store v.redis.store
          (process_entries codec (take n w.redis.store.pending) v).redis.store
          (like-Balanced w.redis.store v.redis.store like.0)
          (process_entries-Balanced (take n w.redis.store.pending) v (λ e m. rw like.0 (
            In-app e w.redis.store.pending w.redis.store.incoming
              (inl (In-take e n w.redis.store.pending m))))))
  ]

  -- A read of the stream and the handling of what it delivers, whatever the commands meet: where the
  -- entries that wait have distinct ids, they keep them, and the clicks that are counted or wait are as
  -- many as before.
  pub read_and_process-Balanced :
      (n : ℕ) (w : Worker)
      → Unique (queued w.redis.store)
      → Unique (queued (read_and_process codec n w).redis.store)
        × (known codec (read_and_process codec n w).redis.store ≡ known codec w.redis.store)
  unfolding xreadgroup
  read_and_process-Balanced n w = elim (read_and_process-cases codec n w) [
    | inl (v, like, p) ↦ rw p (like-Balanced w.redis.store v.redis.store like.0)
    | inr (v, now, kept, done) ↦
        let keeps = xreadgroup-Keeps codec n w.redis.store in
        let delivered : Balanced w.redis.store v.redis.store = λ u. (
          rw now (rw keeps.0 u),
          ap (known codec) now
              ∙ same-known codec w.redis.store (xreadgroup n w.redis.store).1 keeps.0 keeps.1,
        ) in
        elim done [
          | inl p ↦ rw p delivered
          | inr p ↦ rw p (
              trans-Balanced w.redis.store v.redis.store
                (process_entries codec (take n w.redis.store.incoming) v).redis.store delivered
                (process_entries-Balanced (take n w.redis.store.incoming) v
                  (λ e m. rw now (rw keeps.0 (keeps.2 e m)))))
        ]
  ]

  abbrev worker_of : Worker → Option (Result RedisError (Unit {0}) × Worker) → Worker
  worker_of w none = w
  worker_of w (some x) = x.1

  after_batch-cases :
      (r : Result RedisError ℕ) (w : Worker) (more : Option (Result RedisError (Unit {0}) × Worker))
      (x : Result RedisError (Unit {0})) (w' : Worker)
      → after_batch codec r w more ≡ some (x, w')
      → (w' ≡ w) ⊎ (more ≡ some (x, w'))
  unfolding after_batch
  after_batch-cases (err e) w more x w' h = inl (ap (worker_of w) (sym h))
  after_batch-cases (ok zero) w more x w' h = inl (ap (worker_of w) (sym h))
  after_batch-cases (ok (suc n)) w more x w' h = inr h

  -- However a call of drain_pending ends, whatever its commands meet: where the entries that wait have
  -- distinct ids, they keep them, and the clicks that are counted or wait are as many as before.
  pub drain_pending-Balanced :
      (rounds : ℕ) (asked : ℕ → Bool) (n : ℕ) (w w' : Worker) (r : Result RedisError (Unit {0}))
      → drain_pending codec rounds asked n w ≡ some (r, w')
      → Unique (queued w.redis.store)
      → Unique (queued w'.redis.store) × (known codec w'.redis.store ≡ known codec w.redis.store)
  unfolding drain_pending
  drain_pending-Balanced zero asked n w w' r h = cc
  drain_pending-Balanced (suc rounds) asked n w w' r h = elim (Bool-cases (asked w.redis.at)) [
    | inl p ↦ like-Balanced w.redis.store w'.redis.store (
        ap (λ x. (worker_of w x).redis.store) (sym h ∙ drain_pending-stop codec n rounds asked w p))
    | inr p ↦
        let batch = drain_pending_batch codec n w in
        let balanced = drain_pending_batch-Balanced n w in
        elim (after_batch-cases batch.0 batch.1 (drain_pending codec rounds asked n batch.1) r w'
          (sym (drain_pending-round codec n rounds asked w p) ∙ h)) [
            | inl same ↦ rw same balanced
            | inr more ↦
                trans-Balanced w.redis.store batch.1.redis.store w'.redis.store balanced
                  (drain_pending-Balanced rounds asked n batch.1 w' r more)
          ]
  ]
