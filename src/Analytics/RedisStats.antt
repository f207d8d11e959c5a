-- ===== src/Analytics/RedisStats.antt =====
-- analytics/src/redis_stats.rs: the scripts that change the counters in Redis, each in one piece, and
-- the functions that run them.
pub mod Hmax
pub mod Once
use k_url.Prelude.Parse.{parse_i64}
use k_url.Prelude.Parse.Show.{to_string}
use k_url.Analytics.Redis.{
  RedisError, RedisPool, Store, acknowledge, command, get_many, hget, hincrby, hset, invalid_data,
  script, script_error, xack, xack_del, xdel,
}
use k_url.Common.Events.{ClickEvent}
use k_url.Common.RedisKeys.{global_stats_key, link_last_clicked_at_key, link_stats_key}
use k_url.Prelude.{
  Bool, List, Option, Result, String, [], err, false, get_or, if◌then◌else◌, ltb, map, none, ok,
  ok_or, some, suc, true, zero, ℕ, ◌∷◌,
}
use k_url.Prelude.Effects.{Exec, lift, pure, raise, ◌>>=◌}
use k_url.Prelude.Int.{ltb_ℤ, pos, ℤ, pos_part}
use k_url.Prelude.Maps.{Map, insert, lookup, nat_key, string_key, ◌==◌}
use k_url.Prelude.Time.{DateTime}

-- HMAX_SCRIPT
unfoldable pub hmax_script : String → String → ℕ → Store → Bool × Store
unfolding hget hset
hmax_script key field value r = elim (hget key field r) [
  | none ↦ (true, hset key field value r)
  | some current ↦ if ltb current value then (true, hset key field value r) else (false, r)
]

-- The last part of RECORD_CLICK, which keeps the latest instant.
unfoldable pub keep_latest : String → ℤ → Store → Store
keep_latest key ts r =
    if ltb_ℤ (get_or (pos 0) (lookup key r.strings)) ts
    then record r { strings = insert key ts r.strings }
    else r

-- RECORD_CLICK
unfoldable pub record_click : String → String → String → String → String → ℤ → Store → ℕ × Store
unfolding hincrby xack xdel keep_latest
record_click global_key link_key last_key id day ts r =
    let (acked, r') = xack id r in
    if acked == 0
    then (0, r')
    else (1, xdel id (keep_latest last_key ts (hincrby link_key day (hincrby global_key day r'))))

pub data EventOutcome : Type 0 where
  applied already_handled : EventOutcome

-- What RedisStats::record_click_event makes of the script's reply.
unfoldable pub outcome_of_reply : ℕ → Option EventOutcome
outcome_of_reply zero = some applied
outcome_of_reply (suc zero) = some already_handled
outcome_of_reply _ = none

-- `format_day` is the text of the event's date, and `timestamp_millis` its instant in milliseconds.
unfoldable pub record_click_event :
    (DateTime → String)
    → (DateTime → ℤ)
    → String
    → ClickEvent
    → Exec RedisPool RedisError EventOutcome
unfolding record_click outcome_of_reply command
record_click_event format_day timestamp_millis id event = do
  reply ← command script (
      record_click global_stats_key (link_stats_key event.short_code)
        (link_last_clicked_at_key event.short_code) id (format_day event.at)
        (timestamp_millis event.at))
  lift (ok_or invalid_data (outcome_of_reply reply))

-- RedisStats::hmax
unfoldable pub hmax : String → String → ℕ → Exec RedisPool RedisError Bool
unfolding hmax_script command
hmax hash_key field value = command script (hmax_script hash_key field value)

-- COMPARE_AND_DELETE_SCRIPT. It names the arguments once as `argv` instead of `ARGV`; `argv` is the
-- second entry of that global, or none where no global has the name. `expected` is the text of a
-- counter.
unfoldable pub compare_and_delete_script :
    Option String → String → String → String → Store → Result RedisError Bool × Store
unfolding hget hset
compare_and_delete_script none key field expected r = (err script_error, r)
compare_and_delete_script (some argv) key field expected r = elim (hget key field r) [
  | none ↦ (ok false, r)
  | some current ↦
      if to_string current == argv
      then (ok true, hset key field (pos_part (get_or (pos 0) (parse_i64 expected))) r)
      else (ok false, r)
]

-- RedisStats::compare_and_delete. Redis defines no global `argv`.
unfoldable pub compare_and_delete : String → String → String → Exec RedisPool RedisError Bool
unfolding command compare_and_delete_script
compare_and_delete hash_key field expected_value = do
  reply ← command script (compare_and_delete_script none hash_key field expected_value)
  lift reply

-- RedisStats::drop_click_event, which passes over the answer.
unfoldable pub drop_click_event : String → Exec RedisPool RedisError (Unit {0})
unfolding command xack_del
drop_click_event id pool =
    (ok tt, (command {A = Unit} acknowledge (λ r. (tt, xack_del id r)) pool).1)

-- The instants of the codes that have one; `at_millis` is none where an instant is out of range.
unfoldable pub parse_batch :
    (ℤ → Option DateTime)
    → List String
    → List (Option ℤ)
    → Map String DateTime
    → Result RedisError (Map String DateTime)
parse_batch at_millis [] values acc = ok acc
parse_batch at_millis (code ∷ codes) [] acc = ok acc
parse_batch at_millis (code ∷ codes) (none ∷ values) acc = parse_batch at_millis codes values acc
parse_batch at_millis (code ∷ codes) (some ts ∷ values) acc =
    let found = λ (t : DateTime). parse_batch at_millis codes values (insert code t acc) in
    elim (at_millis ts) [ none ↦ err invalid_data | some t ↦ found t ]

-- RedisStats::last_clicked_at_batch; the texts that Redis keeps are those of the instants.
unfoldable pub last_clicked_at_batch :
    (ℤ → Option DateTime) → List String → Exec RedisPool RedisError (Map String DateTime)
unfolding parse_batch command
last_clicked_at_batch at_millis [] = pure []
last_clicked_at_batch at_millis (code ∷ codes) = do
  values ←
      command get_many
        (λ r. (map (λ c. lookup (link_last_clicked_at_key c) r.strings) (code ∷ codes), r))
  lift (parse_batch at_millis (code ∷ codes) values [])
