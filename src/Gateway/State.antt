-- ===== src/Gateway/State.antt =====
-- gateway/src/state.rs and gateway/src/cache.rs: what the handlers of the gateway share, the query
-- of the cache, and the click events.

-- Redis as the gateway sees it, the tasks that are to send a click event, by their short codes, and
-- the counters of metrics.
use k_url.Common.Events.{ClickEvent}
use k_url.Common.RedisKeys.{link_cache_key}
use k_url.Core.Cache.{Answer, Redis, command_error, get, pool_error, served, answer_lost}
use k_url.Prelude.{List, Option, String, [], none, ℕ, ◌++◌, ◌∷◌}
use k_url.Prelude.Effects.{Exec, modify, raise, ◌>>◌}
use k_url.Prelude.Time.{DateTime}

pub record AppState : Type 0 where
  pub redis : Redis
  pub events : List String
  pub spawned : List String
  pub redirects : ℕ
  pub cache_hits : ℕ
  pub links_created : ℕ

-- How a command to Redis fails.
pub data RedisError : Type 0 where
  pool_failure response_failure : RedisError

unfoldable pub redis_query : Answer → DateTime → String → AppState → Option String
redis_query pool_error now short_code s = none
redis_query command_error now short_code s = none
redis_query answer_lost now short_code s = none
redis_query served now short_code s = get s.redis (link_cache_key short_code) now

unfoldable pub send_click_event : {E : Type 0} → String → Exec AppState E (Unit {0})
send_click_event short_code = modify (λ s. record s { spawned = s.spawned ++ short_code ∷ [] })

-- What a spawned task does; `to_json` is serde_json::to_string of an event.
unfoldable pub inner_send_click_event :
    (ClickEvent → String) → Answer → DateTime → String → Exec AppState RedisError (Unit {0})
inner_send_click_event to_json pool_error now short_code = raise pool_failure
inner_send_click_event to_json command_error now short_code = raise response_failure
inner_send_click_event to_json answer_lost now short_code = do
  modify (λ s. record s {
    events = s.events ++ to_json (record { short_code = short_code; at = now }) ∷ [];
  })
  raise response_failure
inner_send_click_event to_json served now short_code = modify (λ s. record s {
  events = s.events ++ to_json (record { short_code = short_code; at = now }) ∷ [];
})

-- A task ends: its event is sent, or the failure is logged.
unfoldable pub run_task : (ClickEvent → String) → Answer → DateTime → String → AppState → AppState
unfolding inner_send_click_event
run_task to_json answer now short_code s =
    (inner_send_click_event to_json answer now short_code s).1
