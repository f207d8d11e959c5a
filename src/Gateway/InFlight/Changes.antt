-- ===== src/Gateway/InFlight/Changes.antt =====
-- Every step of CoreClient::get_link in gateway/src/grpc/core_client.rs is one of four changes.
use k_url.Gateway.CoreClient.{LinkServiceClient, core_get_link}
use k_url.Gateway.InFlight.{
  Client, Slot, Step, Task, acquire, acquires, answered, calling, clear, clears, finish, finishes,
  join, joins, proceed, queued, receive, receives, remove_if, returned, send, sends, stop, stopped,
  stops,
}
use k_url.Prelude.{
  Bool, Bool-cases, Option-cases, String, arith, false, inl, inr, none, refl, some, true,
  zero-cases, ℕ, ◌+◌, ◌≡◌, ◌⊎◌,
}
use k_url.Prelude.Maps.{insert, lookup, nat_key, remove, string_key, ◌==◌}

-- A task that has neither sent an outcome nor gone away.
unfoldable pub is_pending : Slot → Bool
is_pending queued = true
is_pending calling = true
is_pending (returned r) = true
is_pending (answered r) = false
is_pending stopped = false

-- The permits that a task holds.
unfoldable pub held : Slot → ℕ
held queued = 0
held calling = 1
held (returned r) = 0
held (answered r) = 0
held stopped = 0

pub held-cases : (s : Slot) → (s ≡ calling) ⊎ (held s ≡ 0)
unfolding held
held-cases queued = inr refl
held-cases calling = inl refl
held-cases (returned r) = inr refl
held-cases (answered r) = inr refl
held-cases stopped = inr refl

-- The outcome that a task has, if any, is that of a call for its code.
unfoldable pub HasGenuine : (ℕ → LinkServiceClient) → String → Slot → Type 0
HasGenuine service key queued = Unit {0}
HasGenuine service key calling = Unit {0}
HasGenuine service key (returned r) = (at : ℕ) × (r ≡ core_get_link (service at) key)
HasGenuine service key (answered r) = (at : ℕ) × (r ≡ core_get_link (service at) key)
HasGenuine service key stopped = Unit {0}

-- With a task added for a code that has none in flight.
unfoldable pub joined : String → Client → Client
joined code c = record c {
  in_flight = insert code c.next c.in_flight;
  tasks = insert c.next (record { key = code; slot = queued }) c.tasks;
  next = c.next + 1;
}

pub data Change (service : ℕ → LinkServiceClient) (c : Client) : Client → Type 0 where
  stays : Change service c c
  adds : (code : String) → lookup code c.in_flight ≡ none → Change service c (joined code c)
  removes :
      (code : String) (id : ℕ) (t : Task)
      → lookup id c.tasks ≡ some t
      → is_pending t.slot ≡ false
      → lookup code c.in_flight ≡ some id
      → Change service c (record c { in_flight = remove code c.in_flight })
  proceeds :
      (id : ℕ) (t : Task) (slot : Slot) (semaphore : ℕ)
      → lookup id c.tasks ≡ some t
      → is_pending t.slot ≡ true
      → (semaphore + held slot ≡ c.semaphore + held t.slot)
      → (HasGenuine service t.key t.slot → HasGenuine service t.key slot)
      → Change service c (proceed id t slot semaphore c)

join-Change :
    {service : ℕ → LinkServiceClient} (code : String) (c : Client)
    → Change service c (join code c).1
unfolding join joined
join-Change code c = elim (Option-cases (lookup code c.in_flight)) [
  | inr (id, there) ↦ rw (there, join) stays
  | inl missing ↦ rw (missing, join) (adds code missing)
]

remove_if-Change :
    {service : ℕ → LinkServiceClient} (code : String) (id : ℕ) (t : Task) (c : Client)
    → lookup id c.tasks ≡ some t
    → is_pending t.slot ≡ false
    → Change service c (remove_if code id c)
unfolding remove_if
remove_if-Change code id t c there quiet = elim (Option-cases (lookup code c.in_flight)) [
  | inl missing ↦ rw (missing, remove_if) stays
  | inr (j, entry) ↦ elim (Bool-cases (id == j)) [
    | inr apart ↦ rw (entry, apart, remove_if) stays
    | inl same ↦
        rw (entry, same, remove_if)
          (removes code id t there quiet (ground (arith, nat_key.same_iff id j)))
  ]
]

module _ {service : ℕ → LinkServiceClient} (id : ℕ) (key : String) (c : Client) where
  acquire_task :
      (s : Slot)
      → lookup id c.tasks ≡ some (record { key = key; slot = s })
      → Change service c (acquire id c)
  unfolding acquire is_pending held HasGenuine
  acquire_task queued there = elim (zero-cases c.semaphore) [
    | inl none_left ↦ simp (there, none_left, acquire) stays
    | inr (left, some_left) ↦
        simp (there, some_left, acquire)
          (proceeds id _ calling left there refl (omega (arith, some_left)) (λ g. tt))
  ]
  acquire_task calling there = rw (there, acquire) stays
  acquire_task (returned r) there = rw (there, acquire) stays
  acquire_task (answered r) there = rw (there, acquire) stays
  acquire_task stopped there = rw (there, acquire) stays

  finish_task :
      (at : ℕ) (s : Slot)
      → lookup id c.tasks ≡ some (record { key = key; slot = s })
      → Change service c (finish id (service at) c)
  unfolding finish is_pending held HasGenuine
  finish_task at queued there = rw (there, finish) stays
  finish_task at calling there =
      rw (there, finish)
        (proceeds id _ (returned (core_get_link (service at) key)) (c.semaphore + 1) there refl
          (omega arith) (λ g. (at, refl)))
  finish_task at (returned r) there = rw (there, finish) stays
  finish_task at (answered r) there = rw (there, finish) stays
  finish_task at stopped there = rw (there, finish) stays

  send_task :
      (s : Slot)
      → lookup id c.tasks ≡ some (record { key = key; slot = s })
      → Change service c (send id c)
  unfolding send is_pending held HasGenuine
  send_task queued there = rw (there, send) stays
  send_task calling there = rw (there, send) stays
  send_task (returned r) there =
      rw (there, send) (proceeds id _ (answered r) c.semaphore there refl refl (λ g. g))
  send_task (answered r) there = rw (there, send) stays
  send_task stopped there = rw (there, send) stays

  stop_task :
      (s : Slot)
      → lookup id c.tasks ≡ some (record { key = key; slot = s })
      → Change service c (stop id c)
  unfolding stop is_pending held HasGenuine
  stop_task queued there =
      rw (there, stop) (proceeds id _ stopped c.semaphore there refl refl (λ g. tt))
  stop_task calling there =
      rw (there, stop) (proceeds id _ stopped (c.semaphore + 1) there refl (omega arith) (λ g. tt))
  stop_task (returned r) there =
      rw (there, stop) (proceeds id _ stopped c.semaphore there refl refl (λ g. tt))
  stop_task (answered r) there = rw (there, stop) stays
  stop_task stopped there = rw (there, stop) stays

  clear_task :
      (s : Slot)
      → lookup id c.tasks ≡ some (record { key = key; slot = s })
      → Change service c (clear id c)
  unfolding clear is_pending
  clear_task queued there = rw (there, clear) stays
  clear_task calling there = rw (there, clear) stays
  clear_task (returned r) there = rw (there, clear) stays
  clear_task (answered r) there = rw (there, clear) (remove_if-Change key id _ c there refl)
  clear_task stopped there = rw (there, clear) stays

  receive_task :
      (code : String) (s : Slot)
      → lookup id c.tasks ≡ some (record { key = key; slot = s })
      → Change service c (receive code id c).1
  unfolding receive is_pending
  receive_task code queued there = rw (there, receive) stays
  receive_task code calling there = rw (there, receive) stays
  receive_task code (returned r) there = rw (there, receive) stays
  receive_task code (answered r) there = rw (there, receive) stays
  receive_task code stopped there = rw (there, receive) (remove_if-Change code id _ c there refl)

-- Every step of a task or of a request leaves the client as it is, adds a task for a code that has
-- none in flight, removes the entry of a task that is not pending, or moves a pending task on, and
-- then no permit is lost or made up and the outcome of the task is that of a call for its code.
pub Step-Change :
    {service : ℕ → LinkServiceClient} {c d : Client} → Step service c d → Change service c d
unfolding acquire finish send stop clear receive
Step-Change (joins code c) = join-Change code c
Step-Change (acquires id c) = elim (Option-cases (lookup id c.tasks)) [
  | inl missing ↦ rw (missing, acquire) stays
  | inr (t, there) ↦ acquire_task id t.key c t.slot there
]
Step-Change (finishes id at c) = elim (Option-cases (lookup id c.tasks)) [
  | inl missing ↦ rw (missing, finish) stays
  | inr (t, there) ↦ finish_task id t.key c at t.slot there
]
Step-Change (sends id c) = elim (Option-cases (lookup id c.tasks)) [
  | inl missing ↦ rw (missing, send) stays
  | inr (t, there) ↦ send_task id t.key c t.slot there
]
Step-Change (stops id c) = elim (Option-cases (lookup id c.tasks)) [
  | inl missing ↦ rw (missing, stop) stays
  | inr (t, there) ↦ stop_task id t.key c t.slot there
]
Step-Change (clears id c) = elim (Option-cases (lookup id c.tasks)) [
  | inl missing ↦ rw (missing, clear) stays
  | inr (t, there) ↦ clear_task id t.key c t.slot there
]
Step-Change (receives code id c) = elim (Option-cases (lookup id c.tasks)) [
  | inl missing ↦ rw (missing, receive) stays
  | inr (t, there) ↦ receive_task id t.key c code t.slot there
]
