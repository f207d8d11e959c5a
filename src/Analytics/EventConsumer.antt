-- ===== src/Analytics/EventConsumer.antt =====
-- analytics/src/event_consumer.rs: the entries of the stream of click events are read and counted.
pub mod Drain
pub mod Balance
pub mod Batch
pub mod Reading
pub mod Conservation
pub mod Steps
pub mod Queue
pub mod Loop
use k_url.Analytics.Redis.{
  RedisError, RedisPool, StreamId, Value, acquire, bulk_string, claim, command, other_value,
  read_group, simple_string, xautoclaim, xreadgroup,
}
use k_url.Analytics.RedisStats.{
  EventOutcome, already_handled, applied, drop_click_event, record_click_event,
}
use k_url.Common.Events.{ClickEvent}
use k_url.Prelude.{
  Bool, List, Option, Result, String, [], err, if◌then◌else◌, length, none, ok, some, suc, zero, ℕ,
  ◌+◌, ◌==◌, ◌∷◌,
}
use k_url.Prelude.Effects.{Exec, ◌>>=◌, ◌>>◌}
use k_url.Prelude.Int.{ℤ}
use k_url.Prelude.Time.{DateTime}

-- serde_json::from_slice and from_str, the text of an event's date, and its instant in milliseconds.
pub record ClickCodec : Type 0 where
  pub from_json : String → Option ClickEvent
  pub format_day : DateTime → String
  pub timestamp_millis : DateTime → ℤ

-- What the handling of entries reaches: Redis, and two counters of metrics.
pub record Worker : Type 0 where
  pub redis : RedisPool
  pub events_processed : ℕ
  pub claimed_events : ℕ

unfoldable pub with_redis : {A : Type 0} → Exec RedisPool RedisError A → Exec Worker RedisError A
with_redis m w = let (r, redis') = m w.redis in (r, record w { redis = redis' })

module _ (codec : ClickCodec) where
  unfoldable pub parse_value : Value → Option ClickEvent
  parse_value (bulk_string bytes) = codec.from_json bytes
  parse_value (simple_string s) = codec.from_json s
  parse_value other_value = none

  unfoldable pub parse_click_event : StreamId → Option ClickEvent
  unfolding parse_value
  parse_click_event entry = elim entry.event [ none ↦ none | some value ↦ parse_value value ]

  -- The metric of an entry whose script has answered.
  unfoldable pub count_outcome : Result RedisError EventOutcome → Worker → Worker
  count_outcome (ok applied) w = record w { events_processed = w.events_processed + 1 }
  count_outcome (ok already_handled) w = w
  count_outcome (err error) w = w

  unfoldable pub process_entry : StreamId → Worker → Worker
  unfolding parse_click_event with_redis count_outcome
  process_entry entry w = elim (parse_click_event entry) [
    | some event ↦
        let (outcome, w') =
          with_redis (record_click_event codec.format_day codec.timestamp_millis entry.id event)
            w in
        count_outcome outcome w'
    | none ↦ (with_redis (drop_click_event entry.id) w).1
  ]

  unfoldable pub process_entries : List StreamId → Worker → Worker
  unfolding process_entry
  process_entries [] w = w
  process_entries (entry ∷ entries) w = process_entries entries (process_entry entry w)

  -- Answers how many entries were claimed.
  unfoldable pub handle_claimed : List StreamId → Exec Worker RedisError ℕ
  unfolding process_entries
  handle_claimed claimed w = (
    ok (length claimed),
    process_entries claimed (record w { claimed_events = w.claimed_events + length claimed }),
  )

  unfoldable pub drain_pending_batch : ℕ → Exec Worker RedisError ℕ
  unfolding with_redis handle_claimed
  drain_pending_batch read_batch_size = do
    with_redis (command {A = Unit {0}} acquire (λ r. (tt, r)))
    claimed ← with_redis (command claim (xautoclaim read_batch_size))
    handle_claimed claimed

  -- The rest of a round, after its batch.
  unfoldable pub after_batch :
      Result RedisError ℕ
      → Worker
      → Option (Result RedisError (Unit {0}) × Worker)
      → Option (Result RedisError (Unit {0}) × Worker)
  after_batch (err e) w more = some (err e, w)
  after_batch (ok zero) w more = some (ok tt, w)
  after_batch (ok (suc claimed)) w more = more

  -- The loop, for at most so many rounds; `asked` tells whether the shutdown was requested when so
  -- many commands have been sent. The result is none where the rounds do not end the loop.
  unfoldable pub drain_pending :
      ℕ → (ℕ → Bool) → ℕ → Worker → Option (Result RedisError (Unit {0}) × Worker)
  unfolding drain_pending_batch after_batch
  drain_pending zero asked read_batch_size w = none
  drain_pending (suc rounds) asked read_batch_size w =
      let (r, w') = drain_pending_batch read_batch_size w in
      let more = drain_pending rounds asked read_batch_size w' in
      if asked w.redis.at then some (ok tt, w) else after_batch r w' more

  unfoldable pub read_stream : ℕ → Exec Worker RedisError (List StreamId)
  unfolding with_redis
  read_stream read_batch_size = do
    with_redis (command {A = Unit {0}} acquire (λ r. (tt, r)))
    with_redis (command read_group (xreadgroup read_batch_size))

  -- Where no connection is to be had for the entries that were read, they stay pending.
  unfoldable pub handle_connected : List StreamId → Result RedisError (Unit {0}) → Worker → Worker
  unfolding process_entries
  handle_connected entries (ok conn) w = process_entries entries w
  handle_connected entries (err error) w = w

  unfoldable pub handle_read : Result RedisError (List StreamId) → Worker → Worker
  unfolding handle_connected with_redis
  handle_read (ok []) w = w
  handle_read (ok (e ∷ rest)) w =
      let (conn, w') = with_redis (command acquire (λ r. (tt, r))) w in
      handle_connected (e ∷ rest) conn w'
  handle_read (err error) w = w

  -- The branch of the event loop that reads.
  unfoldable pub read_and_process : ℕ → Worker → Worker
  unfolding read_stream handle_read
  read_and_process read_batch_size w =
      let (result, w') = read_stream read_batch_size w in handle_read result w'
