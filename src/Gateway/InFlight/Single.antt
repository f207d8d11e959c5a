-- ===== src/Gateway/InFlight/Single.antt =====
-- Of CoreClient::get_link in gateway/src/grpc/core_client.rs, at most one call for a code is under
-- way at a time.
use k_url.Gateway.CoreClient.{LinkServiceClient}
use k_url.Gateway.InFlight.{Client, Reachable, Task, join, queued}
use k_url.Gateway.InFlight.Changes.{is_pending}
use k_url.Gateway.InFlight.Shared.{Reachable-IsWellFormed}
use k_url.Prelude.{Option-cases, String, ap, arith, inl, inr, refl, some, true, ℕ, ◌≡◌}
use k_url.Prelude.Maps.{lookup, lookup-insert, same_refl, string_key, nat_key}

-- However the steps of tasks and requests interleave, no two tasks for one code are pending, that is
-- wait for a permit, call the core service or have an outcome to send, at a time.
pub single_flight :
    (service : ℕ → LinkServiceClient) (max_in_flight : ℕ) (c : Client) (i j : ℕ) (t u : Task)
    → Reachable service max_in_flight c
    → lookup i c.tasks ≡ some t
    → lookup j c.tasks ≡ some u
    → is_pending t.slot ≡ true
    → is_pending u.slot ≡ true
    → t.key ≡ u.key
    → i ≡ j
single_flight service max_in_flight c i j t u r at_i at_j wait_i wait_j same =
    let w = Reachable-IsWellFormed max_in_flight c r in
    ground (
      arith,
      w.listed i t at_i wait_i,
      w.listed j u at_j wait_j,
      ap (λ k. lookup k c.in_flight) same,
    )

-- However the steps interleave, the channel that a request takes is that of a task for its code.
pub join-Task :
    (service : ℕ → LinkServiceClient) (max_in_flight : ℕ) (c : Client) (code : String)
    → Reachable service max_in_flight c
    → (t : Task) × (lookup (join code c).0 (join code c).1.tasks ≡ some t) × (t.key ≡ code)
unfolding join
join-Task service max_in_flight c code r = elim (Option-cases (lookup code c.in_flight)) [
  | inr (id, there) ↦
      rw (there, join) ((Reachable-IsWellFormed max_in_flight c r).owned code id there)
  | inl missing ↦
      rw (missing, join)
        (
          record { key = code; slot = queued },
          ground (
            arith,
            lookup-insert c.next c.next (record { key = code; slot = queued }) c.tasks,
            same_refl c.next,
          ),
          refl,
        )
]
