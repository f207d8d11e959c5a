-- ===== src/Gateway/InFlight.antt =====
-- CoreClient::get_link of gateway/src/grpc/core_client.rs: requests for one code share one call of
-- the core service, and a semaphore bounds the calls. Each channel has a number; the steps of tasks
-- and of requests are taken in any order.
pub mod Changes
pub mod Shared
pub mod Permits
pub mod Single
pub mod Replies
pub mod Progress
use k_url.Common.Rpc.{GetLinkResponse, Status, status, unavailable}
use k_url.Gateway.CoreClient.{LinkServiceClient, core_get_link}
use k_url.Prelude.{
  Option, Result, String, [], err, if◌then◌else◌, none, some, suc, zero, ℕ, ◌+◌, ◌==◌,
}
use k_url.Prelude.Maps.{Map, insert, lookup, remove, string_key, nat_key}

-- How far a task is: it waits for a permit, calls the core service under its permit, has dropped
-- the permit, has sent the outcome, or is gone without one. Its channel holds an outcome where the
-- task has sent one, and is closed where the task is gone.
pub data Slot : Type 0 where
  queued : Slot
  calling : Slot
  returned : Result Status GetLinkResponse → Slot
  answered : Result Status GetLinkResponse → Slot
  stopped : Slot

-- A spawned task: the code that it asks for, and how far it is.
pub record Task : Type 0 where
  pub key : String
  pub slot : Slot

pub record Client : Type 0 where
  pub in_flight : Map String ℕ
  pub semaphore : ℕ
  pub tasks : Map ℕ Task
  pub next : ℕ

unfoldable pub with_max_in_flight : ℕ → Client
with_max_in_flight max_in_flight = record {
  in_flight = [];
  semaphore = max_in_flight;
  tasks = [];
  next = 0;
}

abbrev pub max_calls : ℕ
max_calls = 100

unfoldable pub new : Client
unfolding with_max_in_flight
new = with_max_in_flight max_calls

-- A request takes the channel that is there for its code, or makes one with its task.
unfoldable pub join : String → Client → ℕ × Client
join code c = elim (lookup code c.in_flight) [
  | some id ↦ (id, c)
  | none ↦ (
    c.next,
    record c {
      in_flight = insert code c.next c.in_flight;
      tasks = insert c.next (record { key = code; slot = queued }) c.tasks;
      next = c.next + 1;
    },
  )
]

-- The entry of a code goes if it still has the channel.
unfoldable pub remove_if : String → ℕ → Client → Client
remove_if code id c = elim (lookup code c.in_flight) [
  | none ↦ c
  | some j ↦ if id == j then record c { in_flight = remove code c.in_flight } else c
]

-- A task goes on, and leaves so many permits.
unfoldable pub proceed : ℕ → Task → Slot → ℕ → Client → Client
proceed id t slot semaphore c = record c {
  tasks = insert id (record t { slot = slot }) c.tasks;
  semaphore = semaphore;
}

-- A task that waits takes a permit where one is left.
unfoldable pub acquire : ℕ → Client → Client
unfolding proceed
acquire id c = elim (lookup id c.tasks) [
  | none ↦ c
  | some t ↦ elim t.slot [
    | queued ↦ elim c.semaphore [ zero ↦ c | suc left ↦ proceed id t calling left c ]
    | calling ↦ c
    | returned r ↦ c
    | answered r ↦ c
    | stopped ↦ c
  ]
]

-- The call of a task ends, with the core service as it is then, and the permit is dropped.
unfoldable pub finish : ℕ → LinkServiceClient → Client → Client
unfolding proceed
finish id client c = elim (lookup id c.tasks) [
  | none ↦ c
  | some t ↦ elim t.slot [
    | queued ↦ c
    | calling ↦ proceed id t (returned (core_get_link client t.key)) (c.semaphore + 1) c
    | returned r ↦ c
    | answered r ↦ c
    | stopped ↦ c
  ]
]

-- The outcome is sent on the channel.
unfoldable pub send : ℕ → Client → Client
unfolding proceed
send id c = elim (lookup id c.tasks) [
  | none ↦ c
  | some t ↦ elim t.slot [
    | queued ↦ c
    | calling ↦ c
    | returned r ↦ proceed id t (answered r) c.semaphore c
    | answered r ↦ c
    | stopped ↦ c
  ]
]

-- A task that has sent its outcome removes its entry.
unfoldable pub clear : ℕ → Client → Client
unfolding remove_if
clear id c = elim (lookup id c.tasks) [
  | none ↦ c
  | some t ↦ elim t.slot [
    | queued ↦ c
    | calling ↦ c
    | returned r ↦ c
    | answered r ↦ remove_if t.key id c
    | stopped ↦ c
  ]
]

-- A task is dropped before it has sent an outcome, and the permit that it holds with it.
unfoldable pub stop : ℕ → Client → Client
unfolding proceed
stop id c = elim (lookup id c.tasks) [
  | none ↦ c
  | some t ↦ elim t.slot [
    | queued ↦ proceed id t stopped c.semaphore c
    | calling ↦ proceed id t stopped (c.semaphore + 1) c
    | returned r ↦ proceed id t stopped c.semaphore c
    | answered r ↦ c
    | stopped ↦ c
  ]
]

-- What a request for a code that waits on a channel gets, if anything, and what it leaves.
unfoldable pub receive : String → ℕ → Client → Option (Result Status GetLinkResponse) × Client
unfolding remove_if
receive code id c = elim (lookup id c.tasks) [
  | none ↦ (none, c)
  | some t ↦ elim t.slot [
    | queued ↦ (none, c)
    | calling ↦ (none, c)
    | returned r ↦ (none, c)
    | answered r ↦ (some r, c)
    | stopped ↦ (some (err (status unavailable "in-flight gRPC task stopped")), remove_if code id c)
  ]
]

-- One step of a task or of a request. `service` is the core service at each moment.
pub data Step (service : ℕ → LinkServiceClient) : Client → Client → Type 0 where
  joins : (code : String) (c : Client) → Step service c (join code c).1
  acquires : (id : ℕ) (c : Client) → Step service c (acquire id c)
  finishes : (id at : ℕ) (c : Client) → Step service c (finish id (service at) c)
  sends : (id : ℕ) (c : Client) → Step service c (send id c)
  stops : (id : ℕ) (c : Client) → Step service c (stop id c)
  clears : (id : ℕ) (c : Client) → Step service c (clear id c)
  receives : (code : String) (id : ℕ) (c : Client) → Step service c (receive code id c).1

pub data Steps (service : ℕ → LinkServiceClient) (c : Client) : Client → Type 0 where
  start : Steps service c c
  step : {d e : Client} → Steps service c d → Step service d e → Steps service c e

-- A state of a client that was made for so many calls at once.
abbrev pub Reachable : (ℕ → LinkServiceClient) → ℕ → Client → Type 0
Reachable service max_in_flight c = Steps service (with_max_in_flight max_in_flight) c
