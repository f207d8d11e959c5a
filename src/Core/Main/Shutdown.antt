-- ===== src/Core/Main/Shutdown.antt =====
-- The end of the process of core/src/main.rs.
use k_url.Core.Cache.{
  Answer, CacheOp, Phase, Redis, Worker, draining, exited, is_open, running, spawn_cache_worker,
  turn,
}
use k_url.Core.Cache.Delivery.{turn-IsSettled, turn-cancelled}
use k_url.Core.Cache.Ends.{cancelled-exits, left, polled}
use k_url.Core.Main.{
  Process, Request, Step, Steps, answer, closing, create, delete, ends, handle, handles,
  lookup_link, returned, serving, shared, shut_down, signals, start, started, step, waited, waiting,
  works,
}
use k_url.Core.Repository.{LinkRepository}
use k_url.Core.Service.{AppState, Env, create_link, delete_link, get_link}
use k_url.Core.Service.Create.{create_link_err, create_link_ok}
use k_url.Core.Service.Links.{delete_link_err, get_link_err, get_link_ok, row-delete_link, with_set}
use k_url.Prelude.{
  List, Option, Result-cases, String, [], arith, false, inl, inr, length, none, refl, some, true,
  ◌+◌, ◌∙◌, ◌∷◌, ◌≡◌, ◌≤◌, ◌⊎◌,
}
use k_url.Prelude.Sums.{value}
use k_url.Prelude.Time.{DateTime, Duration}

module _ (db : LinkRepository) (env : Env db) where
  with_set-closed :
      (ttl : Option Duration) (key value : String) (q : List CacheOp)
      → with_set false ttl key value q ≡ q
  with_set-closed none key value q = refl
  with_set-closed (some d) key value q = refl

  -- A handler that meets a closed channel queues nothing.
  answer-closed :
      (r : Request db env) (s : AppState db)
      → s.tx_open ≡ false
      → (answer db env r s).queue ≡ s.queue
  unfolding answer
  answer-closed (create now later r) s h =
      elim (Result-cases (create_link db env now later r s).0) [
        | inr (e, failed) ↦ (create_link_err db env now later r s e failed).queue
        | inl (reply, done) ↦
            let (x, converted, stored) = create_link_ok db env now later r s reply done in
            rw (stored.queue, h) (with_set-closed _ reply.short_code r.target s.queue)
      ]
  answer-closed (lookup_link now later r) s h =
      elim (Result-cases (get_link db env now later r s).0) [
        | inr (e, failed) ↦ (get_link_err db env now later r.short_code s e failed).0
        | inl (reply, found) ↦
            let (l, stored, target, valid, queue) =
              get_link_ok db env now later r.short_code s reply found in
            rw (queue, h) (with_set-closed _ r.short_code l.target s.queue)
      ]
  answer-closed (delete r) s h = elim (Result-cases (delete_link db r s).0) [
    | inr (e, failed) ↦ (delete_link_err db r.short_code s e failed).1
    | inl (u, done) ↦ rw ((row-delete_link db r.short_code "" s done).1, h) refl
  ]

  -- A request that is handled after the worker has closed its channel leaves the worker as it is.
  pub handle-closed :
      (r : Request db env) (p : Process db env)
      → is_open p.worker.phase ≡ false
      → (handle db env r p).worker ≡ p.worker
  unfolding handle shared
  handle-closed r p h = rw (answer-closed r (shared db env p) h) refl

  -- An ended worker has nothing queued, main waits for a worker that is cancelled, and goes on after
  -- it has ended.
  record IsSound (p : Process db env) : Type 0 where
    settled : p.worker.phase ≡ exited → p.worker.queue ≡ []
    cancelled : p.stage ≡ waiting → p.worker.cancelled ≡ true
    closed : (p.stage ≡ closing) ⊎ (p.stage ≡ returned) → p.worker.phase ≡ exited

  started-IsSound : (store : db.Store) (redis : Redis) → IsSound (started db env store redis)
  unfolding started
  started-IsSound store redis = record {
    settled = λ h. refl;
    cancelled = λ h. cc;
    closed = λ h. elim h [ inl a ↦ cc | inr b ↦ cc ];
  }

  handle-IsSound :
      (r : Request db env) (p : Process db env) → IsSound p → IsSound (handle db env r p)
  unfolding handle shared
  handle-IsSound r p h = record {
    settled = λ e. answer-closed r (shared db env p) (exited-closed e) ∙ h.settled e;
    cancelled = h.cancelled;
    closed = h.closed;
  }
    where
      exited-closed : p.worker.phase ≡ exited → is_open p.worker.phase ≡ false
      exited-closed e = rw e refl

  turn-exited :
      (ph : Phase) (q : List CacheOp) (a : Answer) (now : DateTime) (w : Worker)
      → ph ≡ exited
      → turn ph q a now w ≡ w
  unfolding turn
  turn-exited ph q a now w h = rw h refl

  works-IsSound :
      (a : Answer) (now : DateTime) (p : Process db env)
      → IsSound p
      → IsSound (record p { worker = turn p.worker.phase p.worker.queue a now p.worker })
  works-IsSound a now p h = record {
    settled = turn-IsSettled p.worker.phase p.worker.queue a now p.worker refl refl h.settled;
    cancelled = λ e. turn-cancelled p.worker.phase p.worker.queue a now p.worker ∙ h.cancelled e;
    closed = λ e.
        rw (turn-exited p.worker.phase p.worker.queue a now p.worker (h.closed e)) (h.closed e);
  }

  Step-IsSound : {p q : Process db env} → Step db env p q → IsSound p → IsSound q
  unfolding shut_down
  Step-IsSound (handles r p on) h = handle-IsSound r p h
  Step-IsSound (works a now p) h = works-IsSound a now p h
  Step-IsSound (signals p on) h = record {
    settled = h.settled;
    cancelled = λ e. refl;
    closed = λ e. elim e [ inl x ↦ cc | inr x ↦ cc ];
  }
  Step-IsSound (waited p on ended) h = record {
    settled = h.settled;
    cancelled = λ e. cc;
    closed = λ e. ended;
  }
  Step-IsSound (ends p on) h = record {
    settled = h.settled;
    cancelled = λ e. cc;
    closed = λ e. h.closed (inl on);
  }

  Steps-IsSound : {p q : Process db env} → Steps db env p q → IsSound p → IsSound q
  Steps-IsSound start h = h
  Steps-IsSound (step s one) h = Step-IsSound one (Steps-IsSound s h)

  -- Where main has returned, the worker has ended and nothing that it accepted is left in its queue.
  pub returned-settled :
      (store : db.Store) (redis : Redis) (p : Process db env)
      → Steps db env (started db env store redis) p
      → p.stage ≡ returned
      → (p.worker.phase ≡ exited) × (p.worker.queue ≡ [])
  returned-settled store redis p s h =
      let sound = Steps-IsSound s (started-IsSound store redis) in
      (sound.closed (inr h), sound.settled (sound.closed (inr h)))

  pub Steps-trans :
      {p q r : Process db env} → Steps db env p q → Steps db env q r → Steps db env p r
  Steps-trans s start = s
  Steps-trans s (step t one) = step (Steps-trans s t) one

  pub works-Steps :
      (rs : List (Answer × DateTime)) (p : Process db env)
      → Steps db env p (record p { worker = spawn_cache_worker p.worker (polled rs) })
  unfolding spawn_cache_worker k_url.Core.Cache.step
  works-Steps [] p = start
  works-Steps ((a, now) ∷ rs) p =
      Steps-trans (step start (works a now p))
        (works-Steps rs (record p { worker = turn p.worker.phase p.worker.queue a now p.worker }))

  -- From every state in which the server runs, and for any answers of Redis, there is a run to the
  -- end of main: the signal, then a turn of the worker for each answer with no request in between,
  -- where the answers are at least two more than the operations in its queue. The worker then is what
  -- these turns make of it once it is cancelled; it has ended, and nothing that it accepted is left in
  -- its queue. Runs in which requests still come after the signal are not considered.
  pub signal-returns :
      (store : db.Store) (redis : Redis) (p : Process db env) (rs : List (Answer × DateTime))
      → Steps db env (started db env store redis) p
      → p.stage ≡ serving
      → length p.worker.queue + 2 ≤ length rs
      → (q : Process db env) × Steps db env p q
        × (q.stage ≡ returned)
        × (q.worker ≡ spawn_cache_worker (shut_down db env p).worker (polled rs))
        × (q.worker.phase ≡ exited)
        × (q.worker.queue ≡ [])
  unfolding shut_down
  signal-returns store redis p rs s on enough =
      let sound = Steps-IsSound s (started-IsSound store redis) in
      let last = spawn_cache_worker (shut_down db env p).worker (polled rs) in
      let ended =
        cancelled-exits (shut_down db env p).worker rs sound.settled refl
          (enough_left p.worker.phase) in
      let over : Process db env = record p { stage = returned; worker = last } in
      let run : Steps db env p over =
        step
          (step (Steps-trans (step start (signals p on)) (works-Steps rs (shut_down db env p)))
            (waited (record p { stage = waiting; worker = last }) refl ended))
          (ends (record p { stage = closing; worker = last }) refl) in
      let settled = returned-settled store redis over (Steps-trans s run) refl in
      (over, run, refl, refl, settled.0, settled.1)
    where
      enough_left : (ph : Phase) → length p.worker.queue + left ph ≤ length rs
      enough_left running = enough
      enough_left draining = omega (arith, enough)
      enough_left exited = omega (arith, enough)
