-- ===== src/Core/Tests.antt =====
-- Runs of the definitions of the crate core at concrete inputs.
use k_url.Core.Repository.Queries
use k_url.Common.RedisKeys.{link_cache_key}
use k_url.Common.Rpc.{CreateLinkRequest, not_found, status}
use k_url.Core.Cache.{
  Event, Worker, cancels, del, get, polls, pool_error, process_op, running, sends, served, set,
  spawn_cache_worker,
}
use k_url.Core.Cache.Delivery.{accepted, exited-applied, ops_of, process_all, tried}
use k_url.Core.Coherence.Steps.{
  IsCoherent, Reach, System, cache_follows_links, creates, here, next, works,
}
use k_url.Core.Repository.{Link}
use k_url.Core.Repository.Pg.{pg_repository, row}
use k_url.Core.Service.{
  AppState, Env, calculate_cache_ttl, code_or_generated, create_link, delete_link,
  generate_short_code, get_link, has_expired, store_link, timestamp_to_datetime,
}
use k_url.Core.Service.CacheTtl.{Outlasts, calculate_cache_ttl_bounds}
use k_url.Core.Service.Codes.{Generated, Kept, generate_short_code_lem}
use k_url.Core.Service.Create.{Stored, create_link_ok}
use k_url.Core.Service.RoundTrips.{Finds, FindsNone, get_link-create_link, get_link-delete_link}
use k_url.Prelude.{List, Option, [], err, false, none, ok, refl, some, true, ◌∷◌, ◌≡◌, ◌≤◌}
use k_url.Prelude.Int.{pos, ◌+ℤ◌, ◌-ℤ◌}
use k_url.Prelude.Maps.{insert, lookup, remove}
use k_url.Prelude.Time.{DateTime, from_secs, nanos_per_sec}

-- What the tests of a handler see through.
abbrev creating : Unit {0}
unfolding create_link code_or_generated timestamp_to_datetime store_link Queries.create_link lookup
    insert calculate_cache_ttl
creating = tt

abbrev getting : Unit {0}
unfolding get_link Queries.get_link calculate_cache_ttl has_expired lookup insert
getting = tt

abbrev deleting : Unit {0}
unfolding delete_link Queries.delete_link lookup insert remove
deleting = tt

abbrev op : Event
op = sends (set "a" "u" (from_secs 60))

abbrev idle : Worker
idle = record { phase = running; cancelled = false; senders = true; queue = []; redis = [] }

abbrev shutdown : List Event
shutdown =
    op
    ∷ cancels
    ∷ sends (del "a")
    ∷ polls pool_error (pos 1)
    ∷ polls served (pos 2)
    ∷ polls served (pos 3)
    ∷ polls served (pos 4)
    ∷ []

exited-applied_example :
    (accepted idle shutdown ≡ ops_of (tried idle shutdown))
    × ((spawn_cache_worker idle shutdown).redis ≡ process_all (tried idle shutdown) [])
unfolding spawn_cache_worker
exited-applied_example = exited-applied idle shutdown (λ h. refl) refl

calculate_cache_ttl_bounds_example :
    (nanos_per_sec ≤ from_secs 30)
    × (from_secs 30 ≤ from_secs 300)
    × Outlasts (some (pos (from_secs 90))) (pos (from_secs 60)) (from_secs 30)
unfolding calculate_cache_ttl ◌-ℤ◌
calculate_cache_ttl_bounds_example =
    calculate_cache_ttl_bounds (from_secs 300) (some (pos (from_secs 90))) (pos (from_secs 60))
      (from_secs 30) refl

abbrev env : Env pg_repository
env = record { cache_ttl = from_secs 300; to_system_time = λ t. some t.seconds; samples = λ i. "x" }

abbrev fresh : AppState pg_repository
fresh = record {
  store = record {
    db = record { links = []; link_daily_clicks = []; global_daily_clicks = []; total_clicks = 0 };
    outages = [];
  };
  tx_open = true;
  queue = [];
  drawn = 0;
}

abbrev request : CreateLinkRequest
request = record { short_code = some "a"; target = "https://x.org"; expiration = none }

abbrev created : AppState pg_repository
created = (create_link pg_repository env (pos 5) (pos 5) request fresh).1

request_created :
    (create_link pg_repository env (pos 5) (pos 5) request fresh).0
    ≡ ok (record { short_code = "a" })
unfolding creating
request_created = refl

get_link-create_link_example :
    Finds "https://x.org"
      (get_link pg_repository env (pos 9) (pos 9) (record { short_code = "a" }) created).0
unfolding timestamp_to_datetime has_expired
get_link-create_link_example =
    get_link-create_link pg_repository env (pos 5) (pos 5) (pos 9) (pos 9) request fresh
      (record { short_code = "a" }) none request_created refl refl

create_link_ok_example :
    (x : Option DateTime) × (timestamp_to_datetime pg_repository env none ≡ ok x)
    × Stored pg_repository env (pos 5) (pos 5) "a" "https://x.org" x fresh created
create_link_ok_example =
    create_link_ok pg_repository env (pos 5) (pos 5) request fresh (record { short_code = "a" })
      request_created

-- A code of six characters is made up.
generate_short_code_lem_example :
    Kept pg_repository created (generate_short_code pg_repository env.samples created).1
    × Generated pg_repository 10 created
        (generate_short_code pg_repository env.samples created).0
        (generate_short_code pg_repository env.samples created).1
generate_short_code_lem_example = generate_short_code_lem pg_repository env.samples created

found :
    (get_link pg_repository env (pos 9) (pos 9) (record { short_code = "a" }) created).0
    ≡ ok (record { target = "https://x.org" })
unfolding creating getting
found = refl

missing :
    (get_link pg_repository env (pos 9) (pos 9) (record { short_code = "b" }) fresh).0
    ≡ err (status not_found "Short code not found")
unfolding getting
missing = refl

deleted : (delete_link pg_repository (record { short_code = "a" }) created).0 ≡ ok tt
unfolding creating deleting
deleted = refl

get_link-delete_link_example :
    FindsNone
      (get_link pg_repository env
        (pos 9)
        (pos 9)
        (record { short_code = "a" })
        (delete_link pg_repository (record { short_code = "a" }) created).1).0
get_link-delete_link_example =
    get_link-delete_link pg_repository env (pos 9) (pos 9) "a" created deleted

not_deleted :
    (delete_link pg_repository (record { short_code = "b" }) fresh).0
    ≡ err (status not_found "Short code not found")
unfolding deleting
not_deleted = refl

abbrev start : System pg_repository env
start = record { app = fresh; redis = [] }

start-IsCoherent : IsCoherent pg_repository env start
unfolding lookup
start-IsCoherent = record { open_channel = refl; backed = λ c v h. cc }

-- A link is created, and the worker caches it.
abbrev cached_system : System pg_repository env
cached_system = record {
  app = record created { queue = [] };
  redis = process_op served (pos 7) (set "a" "https://x.org" (from_secs 300)) [];
}

reached : Reach pg_repository env start cached_system
unfolding creating
reached =
    next (next here (creates (pos 5) (pos 5) request start))
      (works served (pos 7) (set "a" "https://x.org" (from_secs 300)) [] _ refl tt)

in_cache : get cached_system.redis (link_cache_key "a") (pos 8) ≡ some "https://x.org"
unfolding process_op get link_cache_key lookup insert ◌+ℤ◌
in_cache = refl

cache_follows_links_example :
    (l : Link) × (row created.store "a" ≡ some l) × (l.target ≡ "https://x.org")
cache_follows_links_example =
    cache_follows_links pg_repository env start cached_system "a" "https://x.org" (pos 8)
      start-IsCoherent reached refl in_cache
