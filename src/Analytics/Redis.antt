-- ===== src/Analytics/Redis.antt =====
-- What the analytics service uses of Redis: hashes of counters, the instants of the last clicks, and
-- the stream of events with its consumer group; and a pool of connections whose commands may fail.
pub mod Commands
pub mod Counters
use k_url.Prelude.{
  ℕ, zero, suc, ◌+◌, String, Bool, true, false, List, [], ◌∷◌, ◌++◌, Option, none, some, Result, ok,
  err, get_or, map, filter_by, if◌then◌else◌, ◌||◌,
}
use k_url.Prelude.Int.{ℤ, pos}
use k_url.Prelude.Maps.{Map, lookup, insert, ◌==◌, string_key}
use k_url.Prelude.Effects.{Exec}
use k_url.Prelude.Parse.Show.{to_string}

-- redis::Value, of a field of an entry.
pub data Value : Type 0 where
  bulk_string simple_string : String → Value
  other_value : Value

-- An entry of the stream, with its field `event`.
pub record StreamId : Type 0 where
  pub id : String
  pub event : Option Value

-- The hashes of counters, the last clicks in milliseconds, the ids of the stream's entries, and its
-- group: whether it exists, the entries to deliver, and those delivered and not acknowledged.
pub record Store : Type 0 where
  pub hashes : Map String (Map String ℕ)
  pub strings : Map String ℤ
  pub entries : List String
  pub group : Bool
  pub incoming : List StreamId
  pub pending : List StreamId

abbrev pub has : String → List StreamId → Bool
has id [] = false
has id (x ∷ xs) = (x.id == id) || has id xs

abbrev pub without : String → List StreamId → List StreamId
without id [] = []
without id (x ∷ xs) = if x.id == id then without id xs else x ∷ without id xs

abbrev pub without_id : String → List String → List String
without_id id [] = []
without_id id (x ∷ xs) = if x == id then without_id id xs else x ∷ without_id id xs

abbrev pub take : {A : Type 0} → ℕ → List A → List A
take n [] = []
take zero (x ∷ xs) = []
take (suc n) (x ∷ xs) = x ∷ take n xs

abbrev pub drop : {A : Type 0} → ℕ → List A → List A
drop n [] = []
drop zero (x ∷ xs) = x ∷ xs
drop (suc n) (x ∷ xs) = drop n xs

-- HGET, for a counter that may be missing.
unfoldable pub hget : String → String → Store → Option ℕ
hget key field r = elim (lookup key r.hashes) [ none ↦ none | some h ↦ lookup field h ]

unfoldable pub hset : String → String → ℕ → Store → Store
hset key field n r = record r {
  hashes = insert key (insert field n (get_or [] (lookup key r.hashes))) r.hashes;
}

-- HINCRBY key field 1
unfoldable pub hincrby : String → String → Store → Store
unfolding hget hset
hincrby key field r = hset key field (get_or 0 (hget key field r) + 1) r

-- HGETALL: the fields with the texts of their counters.
unfoldable pub hgetall : String → Store → List (String × String)
hgetall key r = map (λ f. (f.0, to_string f.1)) (get_or [] (lookup key r.hashes))

-- XADD
unfoldable pub xadd : StreamId → Store → Store
xadd e r = record r { entries = r.entries ++ e.id ∷ []; incoming = r.incoming ++ e ∷ [] }

-- XREADGROUP of the entries to deliver, at most `n`.
unfoldable pub xreadgroup : ℕ → Store → List StreamId × Store
xreadgroup n r = (
  take n r.incoming,
  record r { incoming = drop n r.incoming; pending = r.pending ++ take n r.incoming },
)

-- XAUTOCLAIM from the first pending entry on, whatever its idle time, at most `n`.
unfoldable pub xautoclaim : ℕ → Store → List StreamId × Store
xautoclaim n r = (take n r.pending, r)

-- XACK of one entry: how many were pending, and are not any more.
unfoldable pub xack : String → Store → ℕ × Store
xack id r = if has id r.pending then (1, record r { pending = without id r.pending }) else (0, r)

unfoldable pub xdel : String → Store → Store
xdel id r = record r { entries = without_id id r.entries }

abbrev pub is_zero : ℕ → Bool
is_zero zero = true
is_zero (suc n) = false

-- XACKDEL of one entry with the policy ACKED.
unfoldable pub xack_del : String → Store → Store
unfolding xack xdel
xack_del id r = let (acked, r') = xack id r in if is_zero acked then r' else xdel id r'

-- The commands by their kinds. A connection is taken from the pool by `acquire`.
pub data Command : Type 0 where
  acquire script acknowledge claim read_group create_group scan get_all get_many : Command

-- What a command meets: it is carried out and answered, it is not carried out, or its answer is lost.
pub data Answer : Type 0 where
  served refused lost : Answer

pub data RedisError : Type 0 where
  io script_error busy_group invalid_data : RedisError

-- The pool; `at` counts the commands so far.
pub record RedisPool : Type 0 where
  pub store : Store
  pub answer : Command → ℕ → Answer
  pub at : ℕ

unfoldable pub command : {A : Type 0} → Command → (Store → A × Store) → Exec RedisPool RedisError A
command c run pool =
    let next = record pool { at = pool.at + 1 } in
    let (a, changed) = run pool.store in
    elim (pool.answer c pool.at) [
      | served ↦ (ok a, record next { store = changed })
      | refused ↦ (err io, next)
      | lost ↦ (err io, record next { store = changed })
    ]
