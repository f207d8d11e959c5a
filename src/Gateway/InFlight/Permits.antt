-- ===== src/Gateway/InFlight/Permits.antt =====
-- The permits of the semaphore in gateway/src/grpc/core_client.rs.
use k_url.Gateway.CoreClient.{LinkServiceClient}
use k_url.Gateway.InFlight.{
  Client, Reachable, Task, proceed, queued, start, step, with_max_in_flight,
}
use k_url.Gateway.InFlight.Changes.{
  Change, Step-Change, adds, held, joined, proceeds, removes, stays,
}
use k_url.Gateway.InFlight.Shared.{IsWellFormed, Reachable-IsWellFormed}
use k_url.Prelude.{arith, dec_lt, none, refl, some, suc, zero, ℕ, ◌+◌, ◌<◌, ◌∙◌, ◌≡◌, ◌≤◌}
use k_url.Prelude.Maps.{Map, insert, lookup, lookup-insert, nat_key, same_refl, string_key}

-- The permits held by the tasks with numbers below a bound.
unfoldable pub held_below : ℕ → Map ℕ Task → ℕ
unfolding held
held_below zero tasks = 0
held_below (suc id) tasks =
    held_below id tasks + elim (lookup id tasks) [ none ↦ 0 | some t ↦ held t.slot ]

-- The calls of the core service that are under way.
unfoldable pub calls : Client → ℕ
unfolding held_below
calls c = held_below c.next c.tasks

held_below-insert_above :
    (n id : ℕ) (t : Task) (tasks : Map ℕ Task)
    → n ≤ id
    → held_below n (insert id t tasks) ≡ held_below n tasks
unfolding held_below
held_below-insert_above zero id t tasks h = refl
held_below-insert_above (suc n) id t tasks h =
    ground (
      arith,
      held_below-insert_above n id t tasks,
      lookup-insert id n t tasks,
      nat_key.same_iff id n,
    )

held_below-insert :
    (n id : ℕ) (t u : Task) (tasks : Map ℕ Task)
    → id < n
    → lookup id tasks ≡ some t
    → held_below n (insert id u tasks) + held t.slot ≡ held_below n tasks + held u.slot
unfolding held_below
held_below-insert zero id t u tasks h there = absurd (omega arith)
held_below-insert (suc n) id t u tasks h there = elim (dec_lt id n) [
  | yes below ↦ ground (
    arith,
    held_below-insert n id t u tasks below there,
    lookup-insert id n u tasks,
    nat_key.same_iff id n,
  )
  | no last ↦ ground (
    arith,
    held_below-insert_above n id u tasks,
    lookup-insert id n u tasks,
    nat_key.same_iff id n,
  )
]

pub listed_below :
    (c : Client) (id : ℕ) (t : Task) → IsWellFormed c → lookup id c.tasks ≡ some t → id < c.next
listed_below c id t w there = ground (arith, w.fresh id)

Change-permits :
    {service : ℕ → LinkServiceClient} {c d : Client}
    → Change service c d
    → IsWellFormed c
    → d.semaphore + calls d ≡ c.semaphore + calls c
unfolding calls proceed joined held_below
Change-permits stays w = refl
Change-permits {c} (adds code missing) w = ground (
  arith,
  held_below-insert_above c.next c.next (record { key = code; slot = queued }) c.tasks,
  lookup-insert c.next c.next (record { key = code; slot = queued }) c.tasks,
  same_refl c.next,
)
Change-permits (removes code id t there quiet entry) w = refl
Change-permits {c} (proceeds id t slot semaphore there unset balance genuine) w = omega (
  arith,
  balance,
  held_below-insert c.next id t (record t { slot = slot }) c.tasks (listed_below c id t w there)
      there,
)

made-permits : (n : ℕ) (c : Client) → c ≡ with_max_in_flight n → c.semaphore + calls c ≡ n
unfolding with_max_in_flight calls held_below
made-permits n c e = ground arith

-- However the steps of tasks and requests interleave, tasks that are dropped in the middle of a call
-- included, the permits that are left and the calls of the core service under way add up to the
-- bound that the client was made with; so no more calls are under way than that.
pub permits_kept :
    (service : ℕ → LinkServiceClient) (max_in_flight : ℕ) (c : Client)
    → Reachable service max_in_flight c
    → (c.semaphore + calls c ≡ max_in_flight) × (calls c ≤ max_in_flight)
permits_kept service max_in_flight c r = let kept = go r in (kept, omega (arith, kept))
  where
    go : {d : Client} → Reachable service max_in_flight d → d.semaphore + calls d ≡ max_in_flight
    go start = made-permits max_in_flight (with_max_in_flight max_in_flight) refl
    go (step {d = d} s one) =
        Change-permits (Step-Change one) (Reachable-IsWellFormed max_in_flight d s) ∙ go s
