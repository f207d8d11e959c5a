-- ===== src/Core/MainTests.antt =====
-- Runs of the process of core/src/main.rs over Postgres.
use k_url.Core.Repository.Queries
use k_url.Common.Database.{LinkRow, PgPool}
use k_url.Common.RedisKeys.{link_cache_key}
use k_url.Core.Cache.{
  Answer, Redis, Worker, draining, exited, get, pool_error, served, spawn_cache_worker, turn,
}
use k_url.Core.Cache.Ends.{polled}
use k_url.Core.Main.{
  Process, Steps, closing, ends, returned, shut_down, signals, start, started, step, waited, works,
}
use k_url.Core.Main.Late.{deleted_late-cached}
use k_url.Core.Main.Shutdown.{returned-settled, signal-returns}
use k_url.Core.Repository.Pg.{pg_repository}
use k_url.Core.Service.{Env}
use k_url.Prelude.{List, [], arith, none, ok, refl, some, true, ◌∷◌, ◌≡◌}
use k_url.Prelude.Int.{pos}
use k_url.Prelude.Maps.{lookup, string_key}
use k_url.Prelude.Time.{DateTime, from_secs}

abbrev env : Env pg_repository
env = record { cache_ttl = from_secs 300; to_system_time = λ t. some t.seconds; samples = λ i. "x" }

abbrev link : LinkRow
link = record {
  target = "https://x.org";
  expiration = none;
  click_count = 0;
  last_clicked_at = none;
}

abbrev store : PgPool
store = record {
  db = record {
    links = ("a", link) ∷ [];
    link_daily_clicks = [];
    global_daily_clicks = [];
    total_clicks = 0;
  };
  outages = [];
}

abbrev redis : Redis
redis = (link_cache_key "a", ("https://x.org", pos 100)) ∷ []

abbrev begin : Process pg_repository env
begin = started pg_repository env store redis

abbrev turns : List (Answer × DateTime)
turns = (served, pos 1) ∷ (pool_error, pos 2) ∷ []

signal-returns_example :
    (q : Process pg_repository env) × Steps pg_repository env begin q
    × (q.stage ≡ returned)
    × (q.worker ≡ spawn_cache_worker (shut_down pg_repository env begin).worker (polled turns))
    × (q.worker.phase ≡ exited)
    × (q.worker.queue ≡ [])
unfolding started
signal-returns_example =
    signal-returns pg_repository env store redis begin turns start refl (omega arith)

-- Main after a signal and two turns of the worker.
abbrev halted : Worker
halted = record { phase = exited; cancelled = true; senders = true; queue = []; redis = redis }

abbrev over : Process pg_repository env
over = record begin { stage = returned; worker = halted }

over_Steps : Steps pg_repository env begin over
unfolding started shut_down turn
over_Steps =
    step
      (step
        (step
          (step (step start (signals begin refl))
            (works served (pos 1) (shut_down pg_repository env begin)))
          (works served (pos 2) (record (shut_down pg_repository env begin) {
            worker = record halted { phase = draining };
          })))
        (waited (record (shut_down pg_repository env begin) { worker = halted }) refl refl))
      (ends (record begin { stage = closing; worker = halted }) refl)

over_settled : (over.worker.phase ≡ exited) × (over.worker.queue ≡ [])
over_settled = returned-settled pg_repository env store redis over over_Steps refl

still_cached : get redis (link_cache_key "a") (pos 50) ≡ some "https://x.org"
unfolding get lookup link_cache_key
still_cached = refl

deletes : (Queries.delete_link "a" store).0 ≡ ok tt
unfolding Queries.delete_link lookup
deletes = refl

deleted_late-cached_example :
    (p : Process pg_repository env) × Steps pg_repository env begin p
    × (p.stage ≡ returned)
    × (pg_repository.row p.app.store "a" ≡ none)
    × (get p.worker.redis (link_cache_key "a") (pos 50) ≡ some "https://x.org")
deleted_late-cached_example =
    deleted_late-cached pg_repository env store redis "a" "https://x.org" (pos 50) still_cached
      deletes
