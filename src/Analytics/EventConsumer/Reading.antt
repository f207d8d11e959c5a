-- ===== src/Analytics/EventConsumer/Reading.antt =====
-- The reading of the stream of analytics/src/event_consumer.rs as steps, between which other services
-- add entries, commands fail and the worker starts again.
use k_url.Analytics.EventConsumer.{ClickCodec, Worker, parse_click_event, process_entry, with_redis}
use k_url.Analytics.EventConsumer.Queue.{one_if_click, waiting}
use k_url.Analytics.EventConsumer.Steps.{queued}
use k_url.Analytics.Redis.{
  Command, RedisError, Store, StreamId, claim, command, has, read_group, xadd, xautoclaim,
  xreadgroup,
}
use k_url.Analytics.Redis.Counters.{all_clicks}
use k_url.Common.RedisKeys.{global_stats_key}
use k_url.Prelude.{List, Result, [], err, false, ok, ℕ, ◌+◌, ◌∷◌, ◌≡◌}

module _ (codec : ClickCodec) where
  -- The worker, the entries that it has read and not yet handled, and the number of clicks sent.
  pub record Reading : Type 0 where
    pub worker : Worker
    pub hand : List StreamId
    pub sent : ℕ

  -- Another service adds an entry.
  abbrev pub arrive : StreamId → Reading → Reading
  arrive e s = record s {
    worker = record s.worker {
      redis = record s.worker.redis { store = xadd e s.worker.redis.store };
    };
    sent = s.sent + one_if_click (parse_click_event codec e);
  }

  abbrev pub taken : Result RedisError (List StreamId) → List StreamId
  taken (ok entries) = entries
  taken (err e) = []

  -- What a command on the stream yields is taken in hand.
  abbrev pub fetch : Command → (Store → List StreamId × Store) → Reading → Reading
  fetch c run s =
      let (r, w) = with_redis (command c run) s.worker in record s { worker = w; hand = taken r }

  -- The steps of the reading of the stream. The ids that Redis gives to entries are new ones.
  pub data Step : Reading → Reading → Type 0 where
    arrives :
        (s : Reading) (e : StreamId)
        → has e.id (queued s.worker.redis.store) ≡ false
        → has e.id s.hand ≡ false
        → Step s (arrive e s)
    delivers : (s : Reading) (n : ℕ) → Step s (fetch read_group (xreadgroup n) s)
    reclaims : (s : Reading) (n : ℕ) → Step s (fetch claim (xautoclaim n) s)
    handles :
        (s : Reading) (e : StreamId) (rest : List StreamId)
        → s.hand ≡ e ∷ rest
        → Step s (record s { worker = process_entry codec e s.worker; hand = rest })
    forgets : (s : Reading) → Step s (record s { hand = [] })

  pub data Steps : Reading → Reading → Type 0 where
    start : (s : Reading) → Steps s s
    next : {s t u : Reading} → Steps s t → Step t u → Steps s u

  -- The clicks that are counted and those that wait.
  unfoldable pub known : Store → ℕ
  known r = all_clicks global_stats_key r + waiting codec (queued r)
