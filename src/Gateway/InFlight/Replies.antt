-- ===== src/Gateway/InFlight/Replies.antt =====
-- What a request of CoreClient::get_link in gateway/src/grpc/core_client.rs gets.
use mathlib.Core.Path.{subst}
use k_url.Common.Rpc.{GetLinkResponse, Status, status, unavailable}
use k_url.Gateway.CoreClient.{LinkServiceClient, core_get_link}
use k_url.Gateway.InFlight.{
  Client, Reachable, Slot, Steps, Task, answered, calling, join, joins, proceed, queued, receive,
  returned, start, step, stopped, with_max_in_flight,
}
use k_url.Gateway.InFlight.Changes.{
  Change, HasGenuine, Step-Change, adds, joined, proceeds, removes, stays,
}
use k_url.Gateway.InFlight.Shared.{IsWellFormed, Reachable-IsWellFormed, Steps-IsWellFormed}
use k_url.Gateway.InFlight.Single.{join-Task}
use k_url.Prelude.{Bool-cases, Result, String, arith, err, inl, inr, none, refl, some, ℕ, ◌≡◌, ◌⊎◌}
use k_url.Prelude.Maps.{lookup, lookup-insert, nat_key, same_refl, ◌==◌, string_key}

pub IsGenuine : (ℕ → LinkServiceClient) → Client → Type 0
IsGenuine service c =
    (id : ℕ) (t : Task) → lookup id c.tasks ≡ some t → HasGenuine service t.key t.slot

made-IsGenuine :
    (service : ℕ → LinkServiceClient) (max_in_flight : ℕ)
    → IsGenuine service (with_max_in_flight max_in_flight)
unfolding IsGenuine with_max_in_flight lookup
made-IsGenuine service max_in_flight = λ id t there. absurd (ground arith)

-- The task of a channel keeps its code, and has an outcome only from a call for it.
Keeps : (ℕ → LinkServiceClient) → ℕ → String → Client → Type 0
Keeps service id key c =
    (t : Task) × (lookup id c.tasks ≡ some t) × (t.key ≡ key) × HasGenuine service t.key t.slot

module _ {service : ℕ → LinkServiceClient} where
  Change-IsGenuine : {c d : Client} → Change service c d → IsGenuine service c → IsGenuine service d
  unfolding IsGenuine joined proceed HasGenuine
  Change-IsGenuine stays g = g
  Change-IsGenuine {c} (adds code missing) g = λ id t there. elim (Bool-cases (c.next == id)) [
    | inl same ↦
        subst (λ u. HasGenuine service u.key u.slot) {x = record { key = code; slot = queued }}
          {y = t}
          (ground (arith, lookup-insert c.next id (record { key = code; slot = queued }) c.tasks))
          tt
    | inr apart ↦
        g id t
          (ground (arith, lookup-insert c.next id (record { key = code; slot = queued }) c.tasks))
  ]
  Change-IsGenuine (removes code id t there quiet entry) g = g
  Change-IsGenuine {c} (proceeds id t slot semaphore there unset balance genuine) g = λ j u at_j.
      elim (Bool-cases (id == j)) [
        | inl same ↦
            subst (λ v. HasGenuine service v.key v.slot) {x = record t { slot = slot }} {y = u}
              (ground (arith, lookup-insert id j (record t { slot = slot }) c.tasks))
              (genuine (g id t there))
        | inr apart ↦ g j u (ground (arith, lookup-insert id j (record t { slot = slot }) c.tasks))
      ]

  Steps-IsGenuine : {c d : Client} → Steps service c d → IsGenuine service c → IsGenuine service d
  Steps-IsGenuine start g = g
  Steps-IsGenuine (step s one) g = Change-IsGenuine (Step-Change one) (Steps-IsGenuine s g)

  Change-Keeps :
      {c d : Client} (id : ℕ) (key : String)
      → Change service c d
      → IsWellFormed c
      → Keeps service id key c
      → Keeps service id key d
  unfolding Keeps joined proceed
  Change-Keeps id key stays w k = k
  Change-Keeps {c} id key (adds code missing) w (t, there, same, genuine) = (
    t,
    ground (
      arith,
      lookup-insert c.next id (record { key = code; slot = queued }) c.tasks,
      nat_key.same_iff c.next id,
      w.fresh id,
    ),
    same,
    genuine,
  )
  Change-Keeps {c} id key (removes code j t there quiet entry) w k = k
  Change-Keeps {c} id key (proceeds j u slot semaphore at_j unset balance goes) w
        (t, there, same, genuine) =
      elim (Bool-cases (j == id)) [
        | inl hit ↦ (
          record u { slot = slot },
          ground (arith, lookup-insert j id (record u { slot = slot }) c.tasks),
          ground (arith, nat_key.same_iff j id),
          goes (
              subst (λ v. HasGenuine service v.key v.slot) {x = t} {y = u}
                (ground (arith, nat_key.same_iff j id)) genuine),
        )
        | inr apart ↦ (
          t,
          ground (arith, lookup-insert j id (record u { slot = slot }) c.tasks),
          same,
          genuine,
        )
      ]

  Steps-Keeps :
      {c d : Client} (id : ℕ) (key : String)
      → Steps service c d
      → IsWellFormed c
      → Keeps service id key c
      → Keeps service id key d
  Steps-Keeps id key start w k = k
  Steps-Keeps id key (step s one) w k =
      Change-Keeps id key (Step-Change one) (Steps-IsWellFormed s w) (Steps-Keeps id key s w k)

-- What a request may get for its code.
unfoldable pub IsReply : (ℕ → LinkServiceClient) → String → Result Status GetLinkResponse → Type 0
IsReply service code r =
    ((at : ℕ) × (r ≡ core_get_link (service at) code))
    ⊎ (r ≡ err (status unavailable "in-flight gRPC task stopped"))

module _ (service : ℕ → LinkServiceClient) where
  received :
      (code key : String) (s : Slot) (id : ℕ) (c : Client) (r : Result Status GetLinkResponse)
      → lookup id c.tasks ≡ some (record { key = key; slot = s })
      → key ≡ code
      → HasGenuine service key s
      → (receive code id c).0 ≡ some r
      → IsReply service code r
  unfolding receive HasGenuine IsReply
  received code key queued id c r there same g got = absurd (ground arith)
  received code key calling id c r there same g got = absurd (ground arith)
  received code key (returned a) id c r there same g got = absurd (ground arith)
  received code key (answered a) id c r there same (at, e) got = inl (at, ground arith)
  received code key stopped id c r there same g got = inr (ground arith)

  kept-IsReply :
      (id : ℕ) (code : String) (c d : Client) (r : Result Status GetLinkResponse)
      → IsWellFormed c
      → Keeps service id code c
      → Steps service c d
      → (receive code id d).0 ≡ some r
      → IsReply service code r
  unfolding Keeps
  kept-IsReply id code c d r w k steps got =
      let (t, there, same, genuine) = Steps-Keeps id code steps w k in
      received code t.key t.slot id d r there same genuine got

-- A request takes a channel and waits while tasks and other requests take any steps. What it then
-- gets is the outcome of a call for its own code to the core service, as it is at some moment of the
-- history, or the status for a task that has stopped; never an outcome for another code.
pub receive-IsReply :
    (service : ℕ → LinkServiceClient) (max_in_flight : ℕ) (code : String) (c d : Client)
    (r : Result Status GetLinkResponse)
    → Reachable service max_in_flight c
    → Steps service (join code c).1 d
    → (receive code (join code c).0 d).0 ≡ some r
    → IsReply service code r
unfolding Keeps IsGenuine
receive-IsReply service max_in_flight code c d r reached steps got =
    let whole = step reached (joins code c) in
    let genuine = Steps-IsGenuine whole (made-IsGenuine service max_in_flight) in
    let (t, there, same) = join-Task service max_in_flight c code reached in
    kept-IsReply service (join code c).0 code (join code c).1 d r
      (Reachable-IsWellFormed max_in_flight (join code c).1 whole)
      (t, there, same, genuine (join code c).0 t there) steps got

-- A request that finds no call for its code in flight gets the outcome of a call that is made after
-- it has come, or the status for a task that has stopped.
pub fresh-IsReply :
    (service later : ℕ → LinkServiceClient) (max_in_flight : ℕ) (code : String) (c d : Client)
    (r : Result Status GetLinkResponse)
    → Reachable service max_in_flight c
    → lookup code c.in_flight ≡ none
    → Steps later (join code c).1 d
    → (receive code (join code c).0 d).0 ≡ some r
    → IsReply later code r
unfolding Keeps HasGenuine join
fresh-IsReply service later max_in_flight code c d r reached missing steps got =
    kept-IsReply later (join code c).0 code (join code c).1 d r
      (Reachable-IsWellFormed max_in_flight (join code c).1 (step reached (joins code c)))
      (rw (missing, join)
        (
          record { key = code; slot = queued },
          ground (
            arith,
            lookup-insert c.next c.next (record { key = code; slot = queued }) c.tasks,
            same_refl c.next,
          ),
          refl,
          tt,
        ))
      steps got
