-- ===== src/Gateway/Tests.antt =====
-- Runs of the handlers of the gateway at concrete inputs.
use k_url.Core.Cache
use k_url.Common.RedisKeys.{link_cache_key}
use k_url.Common.Rpc.{
  CreateLinkRequest, CreateLinkResponse, GetLinkResponse, Status, failed_precondition,
  invalid_argument, status,
}
use k_url.Core.Cache.{pool_error, served}
use k_url.Gateway.Create.{
  CreateLinkReq, Libraries, absolute, create, create_error, duration, in_future, parse_target,
  try_from,
}
use k_url.Gateway.Create.Replies.{Blames, create_err}
use k_url.Gateway.Redirect.{Tells, redirect, redirect_err, redirect_ok, redirect_status}
use k_url.Gateway.State.{AppState, redis_query, send_click_event}
use k_url.Prelude.{
  Result, String, [], err, if◌then◌else◌, none, ok, refl, some, ◌++◌, ◌+◌, ◌∷◌, ◌≡◌, ◌⊎◌,
}
use k_url.Prelude.Faults.{panicked}
use k_url.Prelude.Int.{pos, ◌+ℤ◌}
use k_url.Prelude.Maps.{lookup, string_key, ◌==◌}

abbrev lib : Libraries
lib = record {
  add = λ t d. some (t +ℤ pos d);
  try_into = λ t. some (record { seconds = t; nanos = pos 0 });
  parse_url = λ s. if s == "rust-lang.org" then none else some s;
}

abbrev gateway : AppState
gateway = record {
  redis = ("cache:js", ("https://js.org", pos 1000)) ∷ [];
  events = [];
  spawned = [];
  redirects = 0;
  cache_hits = 0;
  links_created = 0;
}

abbrev visiting : Unit {0}
unfolding redirect redirect_status redis_query Cache.get lookup link_cache_key send_click_event
visiting = tt

abbrev nobody : String → Result Status GetLinkResponse
nobody c = err (status failed_precondition "Link has expired")

hit : (redirect served (pos 5) nobody "js" gateway).0 ≡ ok "https://js.org"
unfolding visiting
hit = refl

redirect_ok_example :
    ((redis_query served (pos 5) "js" gateway ≡ some "https://js.org")
      ⊎ ((redis_query served (pos 5) "js" gateway ≡ none)
          × (nobody "js" ≡ ok (record { target = "https://js.org" }))))
    × ((redirect served (pos 5) nobody "js" gateway).1.spawned ≡ gateway.spawned ++ "js" ∷ [])
    × ((redirect served (pos 5) nobody "js" gateway).1.redirects ≡ gateway.redirects + 1)
    × ((redirect served (pos 5) nobody "js" gateway).1.redis ≡ gateway.redis)
redirect_ok_example = redirect_ok served (pos 5) nobody "js" "https://js.org" gateway hit

expired : (redirect pool_error (pos 5) nobody "js" gateway).0 ≡ err 410
unfolding visiting
expired = refl

redirect_err_example :
    ((redirect pool_error (pos 5) nobody "js" gateway).1 ≡ gateway)
    × (redis_query pool_error (pos 5) "js" gateway ≡ none)
    × ((e : Status) × (nobody "js" ≡ err e) × Tells 410 e.code)
redirect_err_example = redirect_err pool_error (pos 5) nobody "js" 410 gateway expired

abbrev req : CreateLinkReq
req = record {
  short_code = some "rust";
  target = "https://rust-lang.org";
  expiration = some (duration 100);
}

abbrev sent : CreateLinkRequest
sent = record {
  short_code = some "rust";
  target = "https://rust-lang.org";
  expiration = some (record { seconds = pos 105; nanos = pos 0 });
}

sends : try_from lib (pos 5) (pos 6) req ≡ ok sent
unfolding try_from absolute in_future parse_target ◌+ℤ◌
sends = refl

abbrev makes : CreateLinkRequest → Result Status CreateLinkResponse
makes q = ok (record { short_code = "rust" })

creates : (create lib (pos 5) (pos 6) makes req gateway).0 ≡ ok (record { short_code = "rust" })
unfolding create try_from absolute in_future parse_target ◌+ℤ◌
creates = refl

abbrev refuses : CreateLinkRequest → Result Status CreateLinkResponse
refuses q = err (status invalid_argument "Expiration must be in the future")

panics : (create lib (pos 5) (pos 6) refuses req gateway).0 ≡ err panicked
unfolding create create_error try_from absolute in_future parse_target ◌+ℤ◌
panics = refl

create_err_example :
    ((create lib (pos 5) (pos 6) refuses req gateway).1 ≡ gateway)
    × ((try_from lib (pos 5) (pos 6) req ≡ err panicked)
        ⊎ ((q : CreateLinkRequest) × (e : Status) × (try_from lib (pos 5) (pos 6) req ≡ ok q)
            × (refuses q ≡ err e)
            × Blames lib panicked e.code))
create_err_example = create_err lib (pos 5) (pos 6) refuses req gateway panicked panics
