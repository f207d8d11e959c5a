-- ===== src/Analytics/ConsumerTests.antt =====
-- Runs of the event consumer of the crate analytics at concrete inputs.
use k_url.Analytics.EventConsumer.{
  ClickCodec, Worker, after_batch, count_outcome, drain_pending, drain_pending_batch,
  handle_claimed, parse_click_event, parse_value, process_entries, process_entry, with_redis,
}
use k_url.Analytics.EventConsumer.Conservation.{Steps-balance}
use k_url.Analytics.EventConsumer.Loop.{
  Consumer, Turn, acquired, held_elsewhere, reply_ready, ticked, run,
}
use k_url.Analytics.EventConsumer.Loop.Writer.{run-returns}
use k_url.Analytics.EventConsumer.Queue.{Unique}
use k_url.Analytics.EventConsumer.Reading.{
  Reading, Steps, arrive, arrives, delivers, fetch, handles, known, next, start,
}
use k_url.Analytics.EventConsumer.Steps.{queued}
use k_url.Analytics.Persistence.{Calendar, SnapshotRepository}
use k_url.Analytics.Redis.{
  Answer, Command, Store, StreamId, acknowledge, acquire, bulk_string, claim, command, create_group,
  get_all, get_many, has, hget, hincrby, hset, read_group, refused, scan, script, served,
  simple_string, xack, xadd, xautoclaim, xdel, xreadgroup,
}
use k_url.Analytics.RedisStats.{keep_latest, outcome_of_reply, record_click, record_click_event}
use k_url.Common.DbErrors.{not_found}
use k_url.Common.Events.{ClickEvent}
use k_url.Common.RedisKeys.{global_stats_key, link_last_clicked_at_key, link_stats_key}
use k_url.Prelude.{
  Bool, List, [], arith, err, false, if◌then◌else◌, none, ok, refl, some, true, ℕ, ◌+◌, ◌∷◌, ◌≡◌,
}
use k_url.Prelude.Int.{pos}
use k_url.Prelude.Maps.{insert, lookup, string_key, ◌==◌}

abbrev click : ClickEvent
click = record { short_code = "rust"; at = pos 7 }

abbrev codec : ClickCodec
codec = record {
  from_json = λ s. if s == "go" then some click else none;
  format_day = λ t. "monday";
  timestamp_millis = λ t. t;
}

abbrev first_entry : StreamId
first_entry = record { id = "1-0"; event = some (bulk_string "go") }

abbrev second_entry : StreamId
second_entry = record { id = "2-0"; event = some (simple_string "no json") }

abbrev third_entry : StreamId
third_entry = record { id = "3-0"; event = some (bulk_string "go") }

abbrev stream : Store
stream = record {
  hashes = [];
  strings = [];
  entries = "1-0" ∷ "2-0" ∷ [];
  group = true;
  incoming = second_entry ∷ [];
  pending = first_entry ∷ [];
}

abbrev worker : Worker
worker = record {
  redis = record { store = stream; answer = λ c n. served; at = 0 };
  events_processed = 0;
  claimed_events = 0;
}

abbrev calm : ℕ → Bool
calm n = false

abbrev reading : Reading codec
reading = record { worker = worker; hand = []; sent = 0 }

abbrev arrived : Reading codec
arrived = arrive codec third_entry reading

abbrev delivered : Reading codec
delivered = fetch codec read_group (xreadgroup 5) arrived

abbrev handled : Reading codec
handled = record delivered {
  worker = process_entry codec second_entry delivered.worker;
  hand = third_entry ∷ [];
}

fresh : has "3-0" (queued stream) ≡ false
fresh = refl

in_hand : delivered.hand ≡ second_entry ∷ third_entry ∷ []
unfolding with_redis command xreadgroup xadd
in_hand = refl

run_of_steps : Steps codec reading handled
run_of_steps =
    next (next (next (start reading) (arrives reading third_entry fresh refl)) (delivers arrived 5))
      (handles delivered second_entry (third_entry ∷ []) in_hand)

distinct_ids : Unique (queued stream)
distinct_ids = (refl, (refl, tt))

Steps-balance_example :
    Unique (queued handled.worker.redis.store)
    × (known codec handled.worker.redis.store ≡ known codec stream + 1)
unfolding parse_click_event
Steps-balance_example = Steps-balance codec run_of_steps distinct_ids refl refl

abbrev drained : Worker
drained = record {
  redis = record {
    store = record {
      hashes = ("stats:global", ("monday", 1) ∷ []) ∷ ("stats:link:rust", ("monday", 1) ∷ []) ∷ [];
      strings = ("stats:last_clicked_at:rust", pos 7) ∷ [];
      entries = "2-0" ∷ [];
      group = true;
      incoming = second_entry ∷ [];
      pending = [];
    };
    answer = λ c n. served;
    at = 5;
  };
  events_processed = 0;
  claimed_events = 1;
}

drains : drain_pending codec 2 calm 5 worker ≡ some (ok tt, drained)
unfolding drain_pending after_batch drain_pending_batch with_redis command xautoclaim handle_claimed
    process_entries process_entry parse_click_event parse_value record_click_event record_click xack
    xdel hincrby hget hset keep_latest insert lookup count_outcome outcome_of_reply global_stats_key
    link_stats_key link_last_clicked_at_key
drains = refl

-- Redis while it has no memory left.
abbrev read_only : Command → ℕ → Answer
read_only script n = refused
read_only acknowledge n = refused
read_only acquire n = served
read_only claim n = served
read_only read_group n = served
read_only create_group n = refused
read_only scan n = served
read_only get_all n = served
read_only get_many n = served

abbrev stuck : Worker
stuck = record worker { redis = record worker.redis { answer = read_only } }

-- A repository of snapshots that always fails, and a writer that works in front of it.
abbrev repo : SnapshotRepository
repo = record {
  Db = Unit {0};
  get_daily_clicks_since = λ since s. (ok (record { global_daily = []; link_daily = [] }), s);
  merge_snapshot = λ snapshot s. (err not_found, s);
}

abbrev calendar : Calendar
calendar = record { show_date = λ d. "monday"; parse_date = λ s. some 3; at_millis = λ ms. some ms }

abbrev consumer : Consumer repo
consumer = record {
  services = record {
    redis = worker.redis;
    db = tt;
    snapshot_success_total = 0;
    snapshot_failures_total = 0;
  };
  events_processed = 0;
  claimed_events = 0;
  writer_active = false;
  lock_held = false;
}

abbrev turns : List Turn
turns =
    record { lock = held_elsewhere; today = 3; wakes = []; last_day = 3 }
    ∷ record {
      lock = acquired;
      today = 3;
      wakes = reply_ready ∷ ticked 3 ∷ reply_ready ∷ [];
      last_day = 4;
    }
    ∷ []

run-returns_example :
    (c' : Consumer repo) × (run repo calendar codec 5 3 calm turns consumer ≡ some c')
run-returns_example =
    run-returns repo calendar codec 5 3 calm turns consumer (λ c i. refl) (λ i. refl) (omega arith)
      (omega arith)
