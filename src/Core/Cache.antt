-- ===== src/Core/Cache.antt =====
-- core/src/cache.rs: the queue of cache operations and the worker that applies them to Redis.
pub mod Delivery
pub mod Ends
use k_url.Prelude.{
  ℕ, String, Bool, true, false, ◌&&◌, List, [], ◌∷◌, ◌++◌, Option, none, some, ltb, if◌then◌else◌,
  ◌*◌,
}
use k_url.Prelude.Time.{Duration, DateTime, as_secs, from_secs}
use k_url.Prelude.Int.{pos, ◌+ℤ◌, ltb_ℤ}
use k_url.Prelude.Maps.{Map, lookup, insert, remove, string_key}
use k_url.Common.RedisKeys.{link_cache_key}

pub data CacheOp : Type 0 where
  set : String → String → Duration → CacheOp
  del : String → CacheOp

-- The string keys of Redis, each with the instant at which it expires.
abbrev pub Redis : Type 0
Redis = Map String (String × DateTime)

-- GET: an entry is gone from its instant on.
unfoldable pub get : Redis → String → DateTime → Option String
get redis key now = elim (lookup key redis) [
  | none ↦ none
  | some (value, expires) ↦ if ltb_ℤ now expires then some value else none
]

-- SETEX, with a time to live in seconds.
unfoldable pub set_ex : String → String → ℕ → DateTime → Redis → Redis
set_ex key value secs now redis = insert key (value, now +ℤ pos (from_secs secs)) redis

-- How an operation ends: it is carried out, no connection is left for it, Redis refuses it, or it is
-- carried out and its answer is lost.
pub data Answer : Type 0 where
  served pool_error command_error answer_lost : Answer

unfoldable pub is_carried_out : Answer → Bool
is_carried_out served = true
is_carried_out pool_error = false
is_carried_out command_error = false
is_carried_out answer_lost = true

unfoldable pub process_op : Answer → DateTime → CacheOp → Redis → Redis
unfolding set_ex is_carried_out
process_op answer now (set key value ttl) redis =
    if is_carried_out answer && ltb 0 (as_secs ttl)
    then set_ex (link_cache_key key) value (as_secs ttl) now redis
    else redis
process_op answer now (del key) redis =
    if is_carried_out answer then remove (link_cache_key key) redis else redis

-- The worker's task: in its `select!` loop, draining the closed channel, or ended.
pub data Phase : Type 0 where
  running draining exited : Phase

pub record Worker : Type 0 where
  pub phase : Phase
  pub cancelled : Bool
  pub senders : Bool
  pub queue : List CacheOp
  pub redis : Redis

pub data Event : Type 0 where
  sends : CacheOp → Event
  drops_senders : Event
  cancels : Event
  polls : Answer → DateTime → Event

unfoldable pub is_open : Phase → Bool
is_open running = true
is_open draining = false
is_open exited = false

-- `send` fails once the receiver is closed or gone, and the operation is dropped.
unfoldable pub send : CacheOp → Worker → Worker
unfolding is_open
send op w = if w.senders && is_open w.phase then record w { queue = w.queue ++ op ∷ [] } else w

-- One turn of the loop: `biased` tries the channel before the token.
unfoldable pub turn : Phase → List CacheOp → Answer → DateTime → Worker → Worker
unfolding process_op
turn exited queue answer now w = w
turn running (op ∷ rest) answer now w = record w {
  queue = rest;
  redis = process_op answer now op w.redis;
}
turn running [] answer now w =
    if w.senders
    then (if w.cancelled then record w { phase = draining } else w)
    else record w { phase = exited }
turn draining (op ∷ rest) answer now w = record w {
  queue = rest;
  redis = process_op answer now op w.redis;
}
turn draining [] answer now w = record w { phase = exited }

unfoldable pub step : Worker → Event → Worker
unfolding send turn
step w (sends op) = send op w
step w drops_senders = record w { senders = false }
step w cancels = record w { cancelled = true }
step w (polls answer now) = turn w.phase w.queue answer now w

-- The worker after a history of events.
unfoldable pub spawn_cache_worker : Worker → List Event → Worker
unfolding step
spawn_cache_worker w [] = w
spawn_cache_worker w (e ∷ es) = spawn_cache_worker (step w e) es
