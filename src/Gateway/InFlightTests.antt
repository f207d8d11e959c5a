-- ===== src/Gateway/InFlightTests.antt =====
-- Steps of the sharing of requests in flight at concrete inputs: with one permit, a second code waits
-- for the first.
use k_url.Common.Rpc.{GetLinkResponse, Status}
use k_url.Gateway.CoreClient.{LinkServiceClient, call_with_timeout, core_get_link}
use k_url.Gateway.InFlight.{
  Client, Reachable, Steps, Task, acquire, acquires, finish, finishes, join, joins, new, proceed,
  queued, receive, send, sends, start, step, with_max_in_flight,
}
use k_url.Gateway.InFlight.Changes.{held, is_pending}
use k_url.Gateway.InFlight.Permits.{calls, held_below, permits_kept}
use k_url.Gateway.InFlight.Progress.{IsAnswerable, pending-IsAnswerable}
use k_url.Gateway.InFlight.Replies.{IsReply, receive-IsReply}
use k_url.Gateway.InFlight.Single.{single_flight}
use k_url.Prelude.{Result, arith, none, ok, refl, some, ℕ, ◌+◌, ◌≡◌, ◌≤◌}
use k_url.Prelude.Maps.{insert, lookup, string_key, nat_key}

-- A core service that knows every code.
abbrev service : LinkServiceClient
service = record {
  get_link = λ request. some (ok (record { target = "https://rust-lang.org" }));
  create_link = λ request. none;
  delete_link = λ request. none;
}

abbrev services : ℕ → LinkServiceClient
services at = service

abbrev idle : Client
idle = with_max_in_flight 1

abbrev joined_once : Client
joined_once = (join "rust" idle).1

abbrev one : Task
one = record { key = "rust"; slot = queued }

once_Reachable : Reachable services 1 joined_once
once_Reachable = step start (joins "rust" idle)

abbrev joined_twice : Client
joined_twice = (join "rust" joined_once).1

twice_Reachable : Reachable services 1 joined_twice
twice_Reachable = step once_Reachable (joins "rust" joined_once)

abbrev first : ℕ
first = (join "rust" idle).0

abbrev second : ℕ
second = (join "rust" joined_once).0

at_first : lookup first joined_twice.tasks ≡ some one
unfolding join lookup insert with_max_in_flight
at_first = refl

at_second : lookup second joined_twice.tasks ≡ some one
unfolding join lookup insert with_max_in_flight
at_second = refl

single_flight_example : first ≡ second
unfolding is_pending
single_flight_example =
    single_flight services 1 joined_twice first second one one twice_Reachable at_first at_second
      refl refl refl

-- One task calls under the permit, and a task for another code waits.
abbrev crowded : Client
crowded = (join "go" (acquire 0 joined_once)).1

crowded_Reachable : Reachable services 1 crowded
crowded_Reachable =
    step (step once_Reachable (acquires 0 joined_once)) (joins "go" (acquire 0 joined_once))

crowded_values : (crowded.semaphore ≡ 0) × (calls crowded ≡ 1) × (acquire 1 crowded ≡ crowded)
unfolding join lookup insert with_max_in_flight acquire proceed calls held_below held
crowded_values = (refl, refl, refl)

permits_kept_example : (crowded.semaphore + calls crowded ≡ 1) × (calls crowded ≤ 1)
permits_kept_example = permits_kept services 1 crowded crowded_Reachable

abbrev waits_for_go : Task
waits_for_go = record { key = "go"; slot = queued }

at_go : lookup 1 crowded.tasks ≡ some waits_for_go
unfolding join lookup insert with_max_in_flight acquire proceed
at_go = refl

pending-IsAnswerable_example : IsAnswerable services 1 crowded
unfolding is_pending
pending-IsAnswerable_example =
    pending-IsAnswerable services 1 1 waits_for_go crowded crowded_Reachable (omega arith) at_go
      refl

-- The first task is done, and its request gets what the service said.
abbrev served : Client
served = send 0 (finish 0 service (acquire 0 joined_once))

served_Steps : Steps services joined_once served
served_Steps =
    step (step (step start (acquires 0 joined_once)) (finishes 0 0 (acquire 0 joined_once)))
      (sends 0 (finish 0 service (acquire 0 joined_once)))

abbrev link : Result Status GetLinkResponse
link = ok (record { target = "https://rust-lang.org" })

got_link : (receive "rust" first served).0 ≡ some link
unfolding join lookup insert with_max_in_flight acquire finish send proceed receive core_get_link
    call_with_timeout
got_link = refl

receive-IsReply_example : IsReply services "rust" link
receive-IsReply_example =
    receive-IsReply services 1 "rust" idle served link start served_Steps got_link

-- A client that the service makes has the permits of MAX_IN_FLIGHT.
new_permits : new.semaphore ≡ 100
unfolding new with_max_in_flight
new_permits = refl
