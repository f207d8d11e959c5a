-- ===== src/Analytics/EventConsumer/Loop/Writer.antt =====
-- The writer of analytics/src/event_consumer.rs while Redis serves its commands.
use k_url.Analytics.EventConsumer.{ClickCodec}
use k_url.Analytics.EventConsumer.Loop.{
  Consumer, LockAnswer, Turn, Wake, acquired, after_drain, after_start, create_from_start,
  ensure_consumer_group, held_elsewhere, lock_failed, run, run_inner, starts, take_turn,
  with_services,
}
use k_url.Analytics.EventConsumer.Loop.Returns.{
  Fine, Returns, drain-Returns, event_loop-Returns, flush-Fine, Quiet-Fine,
}
use k_url.Analytics.EventConsumer.Steps.{queued}
use k_url.Analytics.Persistence.{
  Calendar, Failure, Services, SnapshotRepository, from_redis, on_redis,
}
use k_url.Analytics.Persistence.Beside.{rehydrate-Quiet}
use k_url.Analytics.Persistence.Flush.{flush}
use k_url.Analytics.Persistence.Quiet.{
  IsQuiet, bind-IsQuiet, command-IsQuiet, lift-IsQuiet, reads-IsQuiet,
}
use k_url.Analytics.Persistence.Rehydrate.{rehydrate}
use k_url.Analytics.Redis.{Store, acquire, create_group}
use k_url.Analytics.Redis.Commands.{Up}
use k_url.Common.Database.{NaiveDate}
use k_url.Core.Cache.{turn}
use k_url.Prelude.{
  Bool, List, Result, Result-cases, [], and_then, ap, arith, err, false, inl, inr, length, map_err,
  map_option, refl, some, suc, true, zero, ℕ, ◌<◌, ◌∙◌, ◌∷◌, ◌≡◌,
}
use k_url.Prelude.Effects.{Exec, bind-err, bind-ok}

create_from_start-quiet :
    (r : Store)
    → ((create_from_start r).1.pending ≡ r.pending)
      × ((create_from_start r).1.incoming ≡ r.incoming)
unfolding create_from_start
create_from_start-quiet r = ground arith

ensure_consumer_group-IsQuiet : IsQuiet ensure_consumer_group
unfolding ensure_consumer_group
ensure_consumer_group-IsQuiet = bind-IsQuiet _ _ (reads-IsQuiet acquire (λ r. tt)) (λ u.
    bind-IsQuiet _ _ (command-IsQuiet create_group create_from_start create_from_start-quiet)
      (λ res. lift-IsQuiet _))

module _ (repo : SnapshotRepository) (cal : Calendar) (codec : ClickCodec) (m rounds : ℕ)
    (asked : ℕ → Bool) where
  start-Fine :
      (today : NaiveDate) (c : Consumer repo)
      → Fine rounds c.services.redis
      → Fine rounds (starts repo cal today c).1.services.redis
  unfolding starts with_services on_redis IsQuiet
  start-Fine today c fine =
      let ensured = ensure_consumer_group c.services.redis in
      let s₁ : Services repo = record c.services { redis = ensured.1 } in
      let fine₁ =
        Quiet-Fine rounds c.services.redis ensured.1
          (ensure_consumer_group-IsQuiet c.services.redis) fine in
      let first = on_redis repo ensure_consumer_group in
      let go_on : Unit {0} → Exec (Services repo) Failure (Unit {0}) =
        λ u. rehydrate cal repo today in
      elim (Result-cases ensured.0) [
        | inl (u, p) ↦
            rw (bind-ok first go_on c.services (ap (λ r. (map_err from_redis r, s₁)) p)) (
              Quiet-Fine rounds ensured.1 (rehydrate cal repo today s₁).1.redis
                (rehydrate-Quiet cal repo today s₁) fine₁)
        | inr (e, p) ↦
            rw (bind-err first go_on c.services (ap (λ r. (map_err from_redis r, s₁)) p)) fine₁
      ]

  run_inner-Returns :
      (today : NaiveDate) (wakes : List Wake) (last_day : NaiveDate) (c : Consumer repo)
      → Fine rounds c.services.redis
      → ((i : ℕ) → asked i ≡ false)
      → (r : Result Failure (Unit {0})) × (c' : Consumer repo) × (run_inner repo cal codec
            (suc m)
            rounds
            asked
            today
            wakes
            last_day
            c
          ≡ some (r, c'))
        × Fine rounds c'.services.redis
  unfolding run_inner after_start
  run_inner-Returns today wakes last_day c fine calm =
      let started = starts repo cal today c in
      let fine₁ = start-Fine today c fine in
      let go_on = λ (r : Result Failure (Unit {0})).
        after_start repo cal codec (suc m) rounds asked r wakes last_day started.1 in
      elim (Result-cases started.0) [
        | inr (e, p) ↦ (err e, started.1, ap go_on p, fine₁)
        | inl (u, p) ↦
            let (c', q, fine') = drain-Returns repo cal codec m rounds asked started.1 fine₁ calm in
            let (c₂, q₂, fine₂) =
              event_loop-Returns repo cal codec m rounds asked wakes c' fine' calm in
            let flushed = with_services repo (flush cal repo last_day) in
            let (r, end) = flushed c₂ in
            (
              r,
              end,
              ap go_on p
                  ∙ ap
                      (λ o. and_then o (λ x.
                        after_drain repo cal codec (suc m) rounds asked x.0 wakes last_day x.1))
                      q
                  ∙ ap (map_option flushed) q₂,
              flush-Fine repo cal codec m rounds asked last_day c₂ fine₂,
            )
      ]

  take_turn-Returns :
      (turn : Turn) (c : Consumer repo)
      → Fine rounds c.services.redis
      → ((i : ℕ) → asked i ≡ false)
      → Returns repo cal codec m rounds asked (take_turn repo cal codec (suc m) rounds asked turn c)
  unfolding take_turn
  take_turn-Returns turn c fine calm = by_lock turn.lock refl
    where
      by_lock :
          (l : LockAnswer)
          → turn.lock ≡ l
          → Returns repo cal codec m rounds asked
              (take_turn repo cal codec (suc m) rounds asked turn c)
      by_lock acquired p =
          let locked : Consumer repo = record c { writer_active = true; lock_held = true } in
          let (r, c', q, fine') =
            run_inner-Returns turn.today turn.wakes turn.last_day locked fine calm in
          (
            record c' { writer_active = false; lock_held = false },
            rw (take_turn, p)
                (ap (map_option (λ x. record x.1 { writer_active = false; lock_held = false })) q),
            fine',
          )
      by_lock held_elsewhere p = (c, rw (take_turn, p) refl, fine)
      by_lock lock_failed p = (c, rw (take_turn, p) refl, fine)

  run-Returns :
      (turns : List Turn) (c : Consumer repo)
      → Fine rounds c.services.redis
      → ((i : ℕ) → asked i ≡ false)
      → Returns repo cal codec m rounds asked (run repo cal codec (suc m) rounds asked turns c)
  unfolding run
  run-Returns [] c fine calm = (c, refl, fine)
  run-Returns (turn ∷ turns) c fine calm =
      let (c', p, fine') = take_turn-Returns turn c fine calm in
      let (c₂, q, fine₂) = run-Returns turns c' fine' calm in
      (c₂, ap (λ o. and_then o (run repo cal codec (suc m) rounds asked turns)) p ∙ q, fine₂)

module _ (repo : SnapshotRepository) (cal : Calendar) (codec : ClickCodec) where
  -- Where every command of Redis is served, batches are of at least one entry, more rounds are given to
  -- a drain than entries wait in the stream, the shutdown is not requested during a drain, and no entry
  -- is added meanwhile, the consumer works off any turns and returns, whatever the database answers.
  pub run-returns :
      (n rounds : ℕ) (asked : ℕ → Bool) (turns : List Turn) (c : Consumer repo)
      → Up c.services.redis
      → ((i : ℕ) → asked i ≡ false)
      → 0 < n
      → length (queued c.services.redis.store) < rounds
      → (c' : Consumer repo) × (run repo cal codec n rounds asked turns c ≡ some c')
  run-returns zero rounds asked turns c up calm some_n enough = absurd (omega arith)
  run-returns (suc m) rounds asked turns c up calm some_n enough =
      let (c', p, fine) = run-Returns repo cal codec m rounds asked turns c (up, enough) calm in
      (c', p)
