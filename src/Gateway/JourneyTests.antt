-- ===== src/Gateway/JourneyTests.antt =====
-- A run of the gateway over the core service at concrete inputs.
use k_url.Gateway.InFlight.{
  Client, Steps, acquire, acquires, finish, finishes, join, proceed, receive, send, sends, start,
  step, with_max_in_flight,
}
use k_url.Core.Cache
use k_url.Core.Service as Core
use k_url.Core.Repository.Queries
use k_url.Common.Database.{execute}
use k_url.Common.Rpc.{CreateLinkRequest, Timestamp, GetLinkResponse, Status}
use k_url.Core.Cache.{served}
use k_url.Core.Repository.Pg.{pg_repository}
use k_url.Core.Service.{Env}
use k_url.Gateway.CoreClient.{LinkServiceClient, call_with_timeout, core_get_link, create_link}
use k_url.Gateway.Create.{
  CreateLinkReq, Libraries, absolute, create, date_time, in_future, parse_target, try_from,
}
use k_url.Gateway.Journey.{core, redirect-create, services}
use k_url.Gateway.Redirect.{redirect}
use k_url.Gateway.State.{AppState, redis_query}
use k_url.Prelude.{[], arith, err, false, none, ok, refl, some, true, ◌≡◌, ◌⊎◌, ℕ, Result}
use k_url.Prelude.Int.{pos, ◌-ℤ◌, ◌+ℤ◌}
use k_url.Prelude.Maps.{insert, lookup, nat_key, string_key}
use k_url.Prelude.Time.{DateTime}

abbrev lib : Libraries
lib = record {
  add = λ t d. some t;
  try_into = λ t. some (record { seconds = t; nanos = pos 0 });
  parse_url = λ s. some s;
}

abbrev env : Env pg_repository
env = record { cache_ttl = 60; to_system_time = λ t. some t.seconds; samples = λ i. "x" }

abbrev stored : Core.AppState pg_repository
stored = record {
  store = record {
    db = record { links = []; link_daily_clicks = []; global_daily_clicks = []; total_clicks = 0 };
    outages = [];
  };
  tx_open = true;
  queue = [];
  drawn = 0;
}

abbrev gateway : AppState
gateway = record {
  redis = [];
  events = [];
  spawned = [];
  redirects = 0;
  cache_hits = 0;
  links_created = 0;
}

abbrev req : CreateLinkReq
req = record {
  short_code = some "rust";
  target = "https://rust-lang.org";
  expiration = some (date_time (pos 90_000));
}

abbrev sent : CreateLinkRequest
sent = record {
  short_code = some "rust";
  target = "https://rust-lang.org";
  expiration = some (record { seconds = pos 90_000; nanos = pos 0 });
}

converts : try_from lib (pos 5) (pos 6) req ≡ ok sent
unfolding try_from absolute in_future parse_target
converts = refl

reads : absolute lib (pos 5) req.expiration ≡ ok (some (pos 90_000))
unfolding absolute
reads = refl

survives :
    (t : DateTime) (ts : Timestamp) → lib.try_into t ≡ some ts → env.to_system_time ts ≡ some t
survives t ts h = ground arith

creates :
    (create lib
      (pos 5)
      (pos 6)
      (create_link (core pg_repository env (pos 7) (pos 7) stored))
      req
      gateway).0
    ≡ ok (record { short_code = "rust" })
unfolding create create_link call_with_timeout try_from absolute in_future parse_target
    Core.create_link Core.code_or_generated Core.timestamp_to_datetime Core.store_link
    Core.has_expired Core.calculate_cache_ttl Queries.create_link Queries.insert_link
    Queries.short_code_length execute lookup insert ◌-ℤ◌
creates = refl

valid : Core.has_expired (pg_repository.kept_at (some (pos 90_000))) (pos 8) ≡ false
unfolding Core.has_expired Queries.timestamptz ◌-ℤ◌ ◌+ℤ◌
valid = refl

misses : redis_query served (pos 8) "rust" gateway ≡ none
unfolding redis_query Cache.get lookup
misses = refl

-- The core service after the creation, which stays as it is.
abbrev after : Core.AppState pg_repository
after = (Core.create_link pg_repository env (pos 7) (pos 7) sent stored).1

abbrev history : ℕ → DateTime × DateTime × Core.AppState pg_repository
history n = (pos 8, pos 9, after)

abbrev service : LinkServiceClient
service = services pg_repository env lib history 0

-- The visit is the first request of its client, whose task calls and sends the outcome.
abbrev idle : Client
idle = with_max_in_flight 1

abbrev joined : Client
joined = (join "rust" idle).1

abbrev answered : Client
answered = send 0 (finish 0 service (acquire 0 joined))

alone : lookup "rust" idle.in_flight ≡ none
unfolding with_max_in_flight lookup
alone = refl

steps : Steps (services pg_repository env lib history) joined answered
steps =
    step (step (step start (acquires 0 joined)) (finishes 0 0 (acquire 0 joined)))
      (sends 0 (finish 0 service (acquire 0 joined)))

abbrev outcome : Result Status GetLinkResponse
outcome = ok (record { target = "https://rust-lang.org" })

got : (receive "rust" (join "rust" idle).0 answered).0 ≡ some outcome
unfolding join lookup insert with_max_in_flight acquire finish send proceed receive core_get_link
    call_with_timeout Core.create_link Core.code_or_generated Core.timestamp_to_datetime
    Core.store_link Core.has_expired Core.calculate_cache_ttl Queries.create_link
    Queries.insert_link Queries.short_code_length Queries.get_link Core.get_link execute
    Queries.timestamptz ◌-ℤ◌ ◌+ℤ◌
got = refl

redirect-create_example :
    (((redirect served (pos 8) (λ k. outcome) "rust" gateway).0 ≡ ok "https://rust-lang.org")
      × (lib.parse_url req.target ≡ some "https://rust-lang.org"))
    ⊎ ((redirect served (pos 8) (λ k. outcome) "rust" gateway).0 ≡ err 500)
redirect-create_example =
    redirect-create pg_repository env lib (pos 5) (pos 6) (pos 7) (pos 7) (pos 8) served req
      (some (pos 90_000)) sent gateway stored (record { short_code = "rust" }) (λ n. service) 1 idle
      answered history outcome survives creates converts reads (λ n. refl) (λ n. valid) misses start
      alone steps got
