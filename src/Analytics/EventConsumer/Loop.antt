-- ===== src/Analytics/EventConsumer/Loop.antt =====
-- The loops of analytics/src/event_consumer.rs: the writer that holds the lock drains, reads and flushes.
pub mod Writer
pub mod Returns
use k_url.Analytics.EventConsumer.{ClickCodec, Worker, drain_pending, read_and_process}
use k_url.Analytics.Persistence.{
  Calendar, Failure, Services, SnapshotRepository, from_redis, on_redis,
}
use k_url.Analytics.Persistence.Flush.{flush}
use k_url.Analytics.Persistence.Rehydrate.{rehydrate}
use k_url.Analytics.Redis.{RedisError, RedisPool, Store, acquire, busy_group, command, create_group}
use k_url.Common.Database.{NaiveDate}
use k_url.Core.Cache.{turn}
use k_url.Prelude.{
  Bool, List, Option, Result, [], and_then, err, false, if◌then◌else◌, map_option, ok, some, true,
  ℕ, ◌∷◌,
}
use k_url.Prelude.Effects.{Exec, lift, ◌>>◌, ◌>>=◌}

unfoldable pub create_from_start : Store → Result RedisError (Unit {0}) × Store
create_from_start r = if r.group then (err busy_group, r) else (ok tt, record r { group = true })

-- A group that is there already is as good as a new one.
unfoldable pub accept_busy : Result RedisError (Unit {0}) → Result RedisError (Unit {0})
accept_busy (ok u) = ok u
accept_busy (err busy_group) = ok tt
accept_busy (err error) = err error

unfoldable pub ensure_consumer_group : Exec RedisPool RedisError (Unit {0})
unfolding create_from_start accept_busy
ensure_consumer_group = do
  command {A = Unit {0}} acquire (λ r. (tt, r))
  res ← command create_group create_from_start
  lift (accept_busy res)

-- What ends the wait of the event loop, besides a request to shut down: its ticker, on a date, or the
-- stream.
pub data Wake : Type 0 where
  ticked : NaiveDate → Wake
  reply_ready : Wake

-- What trying to acquire the advisory lock answers: it is acquired, another instance holds it, or the
-- database has failed.
pub data LockAnswer : Type 0 where
  acquired held_elsewhere lock_failed : LockAnswer

-- One turn of the loop of `run`: the lock's answer, the date of the start, what wakes the event loop
-- until the shutdown is requested, and the date of the last flush.
pub record Turn : Type 0 where
  pub lock : LockAnswer
  pub today : NaiveDate
  pub wakes : List Wake
  pub last_day : NaiveDate

module _ (repo : SnapshotRepository) where
  -- The services and the metrics of the consumer; `lock_held` tells whether it has the lock's guard.
  pub record Consumer : Type 0 where
    pub services : Services repo
    pub events_processed : ℕ
    pub claimed_events : ℕ
    pub writer_active : Bool
    pub lock_held : Bool

  unfoldable pub worker : Consumer → Worker
  worker c = record {
    redis = c.services.redis;
    events_processed = c.events_processed;
    claimed_events = c.claimed_events;
  }

  unfoldable pub put_worker : Worker → Consumer → Consumer
  put_worker w c = record c {
    services = record c.services { redis = w.redis };
    events_processed = w.events_processed;
    claimed_events = w.claimed_events;
  }

  unfoldable pub with_services :
      {A : Type 0} → Exec (Services repo) Failure A → Exec Consumer Failure A
  with_services m c = let (r, s) = m c.services in (r, record c { services = s })

  -- The consumer group is there, and the counters are restored.
  unfoldable pub starts : Calendar → NaiveDate → Exec Consumer Failure (Unit {0})
  unfolding ensure_consumer_group rehydrate with_services on_redis
  starts cal today = with_services (on_redis repo ensure_consumer_group >> rehydrate cal repo today)

  module _ (cal : Calendar) (codec : ClickCodec) (read_batch_size rounds : ℕ)
      (asked : ℕ → Bool) where
    unfoldable pub drain : Consumer → Option (Result RedisError (Unit {0}) × Consumer)
    unfolding worker put_worker drain_pending
    drain c =
        map_option (λ x. (x.0, put_worker x.1 c))
          (drain_pending codec rounds asked read_batch_size (worker c))

    -- The branch of the ticker: failures are logged.
    unfoldable pub on_tick : NaiveDate → Consumer → Option Consumer
    unfolding drain flush with_services
    on_tick today c = map_option (λ x. (with_services (flush cal repo today) x.1).1) (drain c)

    unfoldable pub wake : Wake → Consumer → Option Consumer
    unfolding on_tick worker put_worker read_and_process
    wake (ticked today) c = on_tick today c
    wake reply_ready c = some (put_worker (read_and_process codec read_batch_size (worker c)) c)

    -- The shutdown is requested after the given wakes.
    unfoldable pub event_loop : List Wake → Consumer → Option Consumer
    unfolding wake
    event_loop [] c = some c
    event_loop (w ∷ wakes) c = and_then (wake w c) (event_loop wakes)

    -- The writer, once it has drained the pending entries.
    unfoldable pub after_drain :
        Result RedisError (Unit {0})
        → List Wake
        → NaiveDate
        → Consumer
        → Option (Result Failure (Unit {0}) × Consumer)
    unfolding event_loop flush with_services
    after_drain (err error) wakes last_day c = some (err (from_redis error), c)
    after_drain (ok u) wakes last_day c =
        map_option (with_services (flush cal repo last_day)) (event_loop wakes c)

    -- The writer, once it has started.
    unfoldable pub after_start :
        Result Failure (Unit {0})
        → List Wake
        → NaiveDate
        → Consumer
        → Option (Result Failure (Unit {0}) × Consumer)
    unfolding after_drain drain
    after_start (err error) wakes last_day c = some (err error, c)
    after_start (ok u) wakes last_day c =
        and_then (drain c) (λ x. after_drain x.0 wakes last_day x.1)

    -- The result is none where a drain does not end.
    unfoldable pub run_inner :
        NaiveDate → List Wake → NaiveDate → Consumer → Option (Result Failure (Unit {0}) × Consumer)
    unfolding starts after_start
    run_inner today wakes last_day c =
        let (started, c') = starts cal today c in after_start started wakes last_day c'

    -- A turn: the writer works while it holds the lock. The guard is gone whether or not its release
    -- reports an error.
    unfoldable pub take_turn : Turn → Consumer → Option Consumer
    unfolding run_inner
    take_turn turn c = elim turn.lock [
      | acquired ↦
          map_option (λ x. record x.1 { writer_active = false; lock_held = false })
            (run_inner turn.today turn.wakes turn.last_day
              (record c { writer_active = true; lock_held = true }))
      | held_elsewhere ↦ some c
      | lock_failed ↦ some c
    ]

    -- The shutdown is requested after the given turns.
    unfoldable pub run : List Turn → Consumer → Option Consumer
    unfolding take_turn
    run [] c = some c
    run (turn ∷ turns) c = and_then (take_turn turn c) (run turns)
