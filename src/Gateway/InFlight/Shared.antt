-- ===== src/Gateway/InFlight/Shared.antt =====
-- An invariant of the steps of CoreClient::get_link in gateway/src/grpc/core_client.rs.
use k_url.Gateway.CoreClient.{LinkServiceClient}
use k_url.Gateway.InFlight.{
  Client, Reachable, Slot, Steps, Task, proceed, queued, start, step, with_max_in_flight,
}
use k_url.Gateway.InFlight.Changes.{
  Change, Step-Change, adds, is_pending, joined, proceeds, removes, stays,
}
use k_url.Prelude.{
  Bool-cases, String, ap, arith, false, inl, inr, none, refl, some, true, ℕ, ◌≡◌, ◌≤◌,
}
use k_url.Prelude.Maps.{
  lookup, lookup-insert, lookup-remove, nat_key, remove, same_refl, string_key, ◌==◌,
}

-- A task that is pending is the one in flight for its code, tasks are numbered from below `next`,
-- and an entry in flight has the task of its code.
pub record IsWellFormed (c : Client) : Type 0 where
  pub listed :
      (id : ℕ) (t : Task)
      → lookup id c.tasks ≡ some t
      → is_pending t.slot ≡ true
      → lookup t.key c.in_flight ≡ some id
  pub fresh : (id : ℕ) → c.next ≤ id → lookup id c.tasks ≡ none
  pub owned :
      (code : String) (id : ℕ)
      → lookup code c.in_flight ≡ some id
      → (t : Task) × (lookup id c.tasks ≡ some t) × (t.key ≡ code)

made-IsWellFormed : (max_in_flight : ℕ) → IsWellFormed (with_max_in_flight max_in_flight)
unfolding lookup with_max_in_flight
made-IsWellFormed max_in_flight = record {
  listed = λ id t h w. absurd (ground arith);
  fresh = λ id h. refl;
  owned = λ code id h. absurd (ground arith);
}

joined-IsWellFormed :
    (code : String) (c : Client)
    → lookup code c.in_flight ≡ none
    → IsWellFormed c
    → IsWellFormed (joined code c)
unfolding joined
joined-IsWellFormed code c missing w = record {
  listed = λ id t h s. ground (
    arith,
    lookup-insert c.next id (record { key = code; slot = queued }) c.tasks,
    lookup-insert code t.key c.next c.in_flight,
    w.listed id t,
    nat_key.same_iff c.next id,
    string_key.same_iff code t.key,
    ap (λ x. lookup x c.in_flight),
  );
  fresh = λ id h. ground (
    arith,
    lookup-insert c.next id (record { key = code; slot = queued }) c.tasks,
    w.fresh id,
    nat_key.same_iff c.next id,
  );
  owned = λ k id h. elim (Bool-cases (code == k)) [
    | inl same ↦ (
      record { key = code; slot = queued },
      ground (
        arith,
        lookup-insert code k c.next c.in_flight,
        lookup-insert c.next id (record { key = code; slot = queued }) c.tasks,
        same_refl id,
      ),
      ground (arith, string_key.same_iff code k),
    )
    | inr apart ↦
        let (t, there, key) =
          w.owned k id (ground (arith, lookup-insert code k c.next c.in_flight)) in
        (
          t,
          ground (
            arith,
            lookup-insert c.next id (record { key = code; slot = queued }) c.tasks,
            nat_key.same_iff c.next id,
            w.fresh id,
          ),
          key,
        )
  ];
}

removed-IsWellFormed :
    (code : String) (id : ℕ) (t : Task) (c : Client)
    → lookup id c.tasks ≡ some t
    → is_pending t.slot ≡ false
    → lookup code c.in_flight ≡ some id
    → IsWellFormed c
    → IsWellFormed (record c { in_flight = remove code c.in_flight })
removed-IsWellFormed code id t c there quiet entry w = record {
  listed = λ j u h s. ground (
    arith,
    lookup-remove code u.key c.in_flight,
    w.listed j u h s,
    string_key.same_iff code u.key,
    ap (λ x. lookup x c.in_flight),
  );
  fresh = w.fresh;
  owned = λ k j h. w.owned k j (ground (arith, lookup-remove code k c.in_flight));
}

written-IsWellFormed :
    (id : ℕ) (t : Task) (slot : Slot) (semaphore : ℕ) (c : Client)
    → lookup id c.tasks ≡ some t
    → is_pending t.slot ≡ true
    → IsWellFormed c
    → IsWellFormed (proceed id t slot semaphore c)
unfolding proceed
written-IsWellFormed id t slot semaphore c there unset w = record {
  listed = λ j u h s. ground (
    arith,
    lookup-insert id j (record t { slot = slot }) c.tasks,
    w.listed j u,
    w.listed id t there unset,
    nat_key.same_iff id j,
  );
  fresh = λ j h. ground (
    arith,
    lookup-insert id j (record t { slot = slot }) c.tasks,
    w.fresh j h,
    nat_key.same_iff id j,
  );
  owned = λ k j h.
      let (u, at_j, key) = w.owned k j h in
      elim (Bool-cases (id == j)) [
        | inl same ↦ (
          record t { slot = slot },
          ground (arith, lookup-insert id j (record t { slot = slot }) c.tasks),
          ground (arith, nat_key.same_iff id j),
        )
        | inr apart ↦
            (u, ground (arith, lookup-insert id j (record t { slot = slot }) c.tasks), key)
      ];
}

pub Change-IsWellFormed :
    {service : ℕ → LinkServiceClient} {c d : Client}
    → Change service c d
    → IsWellFormed c
    → IsWellFormed d
Change-IsWellFormed stays w = w
Change-IsWellFormed {c} (adds code missing) w = joined-IsWellFormed code c missing w
Change-IsWellFormed {c} (removes code id t there quiet entry) w =
    removed-IsWellFormed code id t c there quiet entry w
Change-IsWellFormed {c} (proceeds id t slot semaphore there unset balance genuine) w =
    written-IsWellFormed id t slot semaphore c there unset w

pub Steps-IsWellFormed :
    {service : ℕ → LinkServiceClient} {c d : Client}
    → Steps service c d
    → IsWellFormed c
    → IsWellFormed d
Steps-IsWellFormed start w = w
Steps-IsWellFormed (step s one) w = Change-IsWellFormed (Step-Change one) (Steps-IsWellFormed s w)

pub Reachable-IsWellFormed :
    {service : ℕ → LinkServiceClient} (max_in_flight : ℕ) (c : Client)
    → Reachable service max_in_flight c
    → IsWellFormed c
Reachable-IsWellFormed max_in_flight c r = Steps-IsWellFormed r (made-IsWellFormed max_in_flight)

pub Steps-trans :
    {service : ℕ → LinkServiceClient} {c d e : Client}
    → Steps service c d
    → Steps service d e
    → Steps service c e
Steps-trans s start = s
Steps-trans s (step t one) = step (Steps-trans s t) one
