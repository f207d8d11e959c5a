-- ===== src/Gateway/InFlight/Progress.antt =====
-- No deadlock among the tasks and requests of gateway/src/grpc/core_client.rs.
use k_url.Common.Rpc.{GetLinkResponse, Status}
use k_url.Gateway.CoreClient.{LinkServiceClient, core_get_link}
use k_url.Gateway.InFlight.{
  Client, Reachable, Slot, Step, Steps, Task, acquire, acquires, answered, calling, finish,
  finishes, proceed, queued, returned, send, sends, start, step, stopped,
}
use k_url.Gateway.InFlight.Changes.{held-cases, is_pending}
use k_url.Gateway.InFlight.Permits.{calls, held_below, permits_kept}
use k_url.Gateway.InFlight.Shared.{Steps-trans}
use k_url.Prelude.{
  Option-cases, Result, String, arith, inl, inr, refl, some, suc, true, zero, zero-cases, ℕ, ◌+◌,
  ◌<◌, ◌≡◌,
}
use k_url.Prelude.Maps.{Map, lookup, lookup-insert, nat_key, same_refl, string_key}

-- What each step of a task makes of it.
module _ (id : ℕ) (key : String) (c : Client) where
  acquire_at :
      (left : ℕ)
      → lookup id c.tasks ≡ some (record { key = key; slot = queued })
      → c.semaphore ≡ suc left
      → lookup id (acquire id c).tasks ≡ some (record { key = key; slot = calling })
  unfolding acquire proceed
  acquire_at left there e =
      simp (there, e, acquire)
        (ground
          (arith, lookup-insert id id (record { key = key; slot = calling }) c.tasks, same_refl id))

  finish_lem :
      (client : LinkServiceClient)
      → lookup id c.tasks ≡ some (record { key = key; slot = calling })
      → finish id client c
        ≡ proceed id
            (record { key = key; slot = calling })
            (returned (core_get_link client key))
            (c.semaphore + 1)
            c
  unfolding finish
  finish_lem client there = rw (there, finish) refl

  finish_at :
      (client : LinkServiceClient)
      → lookup id c.tasks ≡ some (record { key = key; slot = calling })
      → lookup id (finish id client c).tasks
        ≡ some (record { key = key; slot = returned (core_get_link client key) })
  unfolding proceed
  finish_at client there = rw (finish_lem client there) (
      ground (
        arith,
        lookup-insert id id (record { key = key; slot = returned (core_get_link client key) })
            c.tasks,
        same_refl id,
      ))

  send_at :
      (r : Result Status GetLinkResponse)
      → lookup id c.tasks ≡ some (record { key = key; slot = returned r })
      → lookup id (send id c).tasks ≡ some (record { key = key; slot = answered r })
  unfolding send proceed
  send_at r there =
      rw (there, send)
        (ground (
          arith,
          lookup-insert id id (record { key = key; slot = answered r }) c.tasks,
          same_refl id,
        ))

-- From a state, steps lead to one where a task has sent an outcome.
unfoldable pub IsAnswerable : (ℕ → LinkServiceClient) → ℕ → Client → Type 0
IsAnswerable service id c =
    (d : Client) × Steps service c d
    × (t : Task) × (r : Result Status GetLinkResponse) × (lookup id d.tasks ≡ some t)
    × (t.slot ≡ answered r)

step-IsAnswerable :
    {service : ℕ → LinkServiceClient} {c d : Client} (id : ℕ)
    → Step service c d
    → IsAnswerable service id d
    → IsAnswerable service id c
unfolding IsAnswerable
step-IsAnswerable id one (e, steps, t, r, there, done) =
    (e, Steps-trans (step start one) steps, t, r, there, done)

returned-IsAnswerable :
    (service : ℕ → LinkServiceClient) (id : ℕ) (key : String) (r : Result Status GetLinkResponse)
    (c : Client)
    → lookup id c.tasks ≡ some (record { key = key; slot = returned r })
    → IsAnswerable service id c
unfolding IsAnswerable
returned-IsAnswerable service id key r c there = (
  send id c,
  step start (sends id c),
  record { key = key; slot = answered r },
  r,
  send_at id key c r there,
  refl,
)

calling-IsAnswerable :
    (service : ℕ → LinkServiceClient) (id : ℕ) (key : String) (c : Client)
    → lookup id c.tasks ≡ some (record { key = key; slot = calling })
    → IsAnswerable service id c
calling-IsAnswerable service id key c there = step-IsAnswerable id (finishes id 0 c) (
    returned-IsAnswerable service id key (core_get_link (service 0) key) (finish id (service 0) c)
      (finish_at id key c (service 0) there))

spare-IsAnswerable :
    (service : ℕ → LinkServiceClient) (left id : ℕ) (key : String) (c : Client)
    → lookup id c.tasks ≡ some (record { key = key; slot = queued })
    → c.semaphore ≡ suc left
    → IsAnswerable service id c
spare-IsAnswerable service left id key c there e =
    step-IsAnswerable id (acquires id c)
      (calling-IsAnswerable service id key (acquire id c) (acquire_at id key c left there e))

-- Where permits are held, some task calls.
caller :
    (n : ℕ) (tasks : Map ℕ Task)
    → 0 < held_below n tasks
    → (j : ℕ) × (key : String) × (lookup j tasks ≡ some (record { key = key; slot = calling }))
unfolding held_below
caller zero tasks h = absurd (omega arith)
caller (suc n) tasks h = elim (Option-cases (lookup n tasks)) [
  | inl missing ↦ caller n tasks (ground (arith, missing))
  | inr (t, there) ↦ elim (held-cases t.slot) [
    | inl busy ↦ (n, t.key, ground (arith, there, busy))
    | inr idle ↦ caller n tasks (ground (arith, there, idle))
  ]
]

full-IsAnswerable :
    (service : ℕ → LinkServiceClient) (id j : ℕ) (key rival : String) (c : Client)
    → lookup id c.tasks ≡ some (record { key = key; slot = queued })
    → lookup j c.tasks ≡ some (record { key = rival; slot = calling })
    → IsAnswerable service id c
unfolding proceed
full-IsAnswerable service id j key rival c there busy = step-IsAnswerable id (finishes j 0 c) (
    spare-IsAnswerable service c.semaphore id key (finish j (service 0) c)
      (rw (finish_lem j rival c (service 0) busy) (
        ground (
          arith,
          lookup-insert j id
              (record { key = rival; slot = returned (core_get_link (service 0) rival) }) c.tasks,
          nat_key.same_iff j id,
        )))
      (rw (finish_lem j rival c (service 0) busy) (omega arith)))

queued-IsAnswerable :
    (service : ℕ → LinkServiceClient) (max_in_flight id : ℕ) (key : String) (c : Client)
    → Reachable service max_in_flight c
    → 0 < max_in_flight
    → lookup id c.tasks ≡ some (record { key = key; slot = queued })
    → IsAnswerable service id c
unfolding calls
queued-IsAnswerable service max_in_flight id key c reached some_permit there =
    elim (zero-cases c.semaphore) [
      | inr (left, e) ↦ spare-IsAnswerable service left id key c there e
      | inl none_left ↦
          let (j, rival, busy) =
            caller c.next c.tasks
              (omega (arith, (permits_kept service max_in_flight c reached).0)) in
          full-IsAnswerable service id j key rival c there busy
    ]

-- A client that may make a call at all never blocks: in every state that the steps lead to, a task
-- that is pending can come to send an outcome, with a permit that a call under way gives back where
-- none is left.
pub pending-IsAnswerable :
    (service : ℕ → LinkServiceClient) (max_in_flight id : ℕ) (t : Task) (c : Client)
    → Reachable service max_in_flight c
    → 0 < max_in_flight
    → lookup id c.tasks ≡ some t
    → is_pending t.slot ≡ true
    → IsAnswerable service id c
unfolding is_pending
pending-IsAnswerable service max_in_flight id t c reached some_permit there = go t.slot there
  where
    go :
        (s : Slot)
        → lookup id c.tasks ≡ some (record { key = t.key; slot = s })
        → is_pending s ≡ true
        → IsAnswerable service id c
    go queued at h = queued-IsAnswerable service max_in_flight id t.key c reached some_permit at
    go calling at h = calling-IsAnswerable service id t.key c at
    go (returned r) at h = returned-IsAnswerable service id t.key r c at
    go (answered r) at h = absurd (ground arith)
    go stopped at h = absurd (ground arith)
