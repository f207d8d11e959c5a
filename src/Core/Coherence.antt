-- ===== src/Core/Coherence.antt =====
-- The handlers of core/src/grpc.rs and the worker of core/src/cache.rs together: what the cache
-- holds once the worker has caught up. A handler is one step here, so a look-up and a deletion of
-- one link do not interleave.
pub mod Steps
use k_url.Prelude.{
  ℕ, String, Bool, List, [], ◌∷◌, ◌++◌, Option, none, some, map_option, ◌≡◌, refl, ap, ltb, arith,
  if◌then◌else◌, Bool-cases, true, false, inl, inr, ◌⊎◌,
}
use k_url.Prelude.Time.{DateTime, as_secs, from_secs, Duration}
use k_url.Prelude.Int.{pos, ◌+ℤ◌}
use k_url.Prelude.Maps.{Map, lookup, ◌==◌, string_key, lookup-insert, lookup-remove}
use k_url.Common.RedisKeys.{link_cache_key}
use k_url.Common.RedisKeys.Distinct.{link_cache_key-injective}
use k_url.Core.Cache.{CacheOp, Redis, set, del, served, process_op, Answer, is_carried_out}

-- The value under the key of a code, whether it has expired or not.
abbrev pub cached : Redis → String → Option String
cached redis c = map_option (λ e. e.0) (lookup (link_cache_key c) redis)

-- What an operation makes of the value of the code `c`.
abbrev pub effect : CacheOp → String → Option String → Option String
effect (set key value ttl) c o =
    if ltb 0 (as_secs ttl) then (if key == c then some value else o) else o
effect (del key) c o = if key == c then none else o

-- A deletion has to be carried out; a value that is not set may be missing.
abbrev pub IsKept : CacheOp → Answer → Type 0
IsKept (set key value ttl) a = Unit {0}
IsKept (del key) a = is_carried_out a ≡ true

-- The value that the cache may hold for a code when the operations have been worked off, of which any
-- that sets a value may be dropped.
abbrev pub MayHold : List CacheOp → String → Option String → String → Type 0
MayHold [] c o w = o ≡ some w
MayHold (set k v ttl ∷ ops) c o w = MayHold ops c (effect (set k v ttl) c o) w ⊎ MayHold ops c o w
MayHold (del k ∷ ops) c o w = MayHold ops c (effect (del k) c o) w

pub MayHold-set :
    (ops : List CacheOp) (k v : String) (ttl : Duration) (c : String) (o : Option String)
    (w : String)
    → MayHold (ops ++ set k v ttl ∷ []) c o w
    → ((k ≡ c) × (v ≡ w)) ⊎ MayHold ops c o w
MayHold-set [] k v ttl c o w (inl h) = ground (arith, string_key.same_iff k c)
MayHold-set [] k v ttl c o w (inr h) = inr h
MayHold-set (set j u life ∷ ops) k v ttl c o w (inl h) =
    elim (MayHold-set ops k v ttl c (effect (set j u life) c o) w h) [
      | inl new ↦ inl new
      | inr old ↦ inr (inl old)
    ]
MayHold-set (set j u life ∷ ops) k v ttl c o w (inr h) = elim (MayHold-set ops k v ttl c o w h) [
  | inl new ↦ inl new
  | inr old ↦ inr (inr old)
]
MayHold-set (del j ∷ ops) k v ttl c o w h = MayHold-set ops k v ttl c (effect (del j) c o) w h

pub MayHold-del :
    (ops : List CacheOp) (k c : String) (o : Option String) (w : String)
    → MayHold (ops ++ del k ∷ []) c o w
    → ((k == c) ≡ false) × MayHold ops c o w
MayHold-del [] k c o w h = ground arith
MayHold-del (set j u life ∷ ops) k c o w (inl h) =
    let p = MayHold-del ops k c (effect (set j u life) c o) w h in (p.0, inl p.1)
MayHold-del (set j u life ∷ ops) k c o w (inr h) =
    let p = MayHold-del ops k c o w h in (p.0, inr p.1)
MayHold-del (del j ∷ ops) k c o w h = MayHold-del ops k c (effect (del j) c o) w h

same_key : (k c : String) → (link_cache_key k == link_cache_key c) ≡ (k == c)
same_key k c = ground (
  arith,
  string_key.same_iff k c,
  string_key.same_iff (link_cache_key k) (link_cache_key c),
  link_cache_key-injective k c,
  ap link_cache_key,
)

-- The worker does to Redis what `effect` says, where the operation is carried out.
cached-process_op :
    (a : Answer) (now : DateTime) (op : CacheOp) (redis : Redis) (c : String)
    → cached (process_op a now op redis) c
      ≡ (if is_carried_out a then effect op c (cached redis c) else cached redis c)
unfolding process_op
cached-process_op a now (set key value ttl) redis c = ground (
  arith,
  lookup-insert (link_cache_key key) (link_cache_key c)
      (value, now +ℤ pos (from_secs (as_secs ttl))) redis,
  same_key key c,
)
cached-process_op a now (del key) redis c =
    ground (arith, lookup-remove (link_cache_key key) (link_cache_key c) redis, same_key key c)

-- A turn of the worker leaves no value that the cache might not have held before.
pub MayHold-process_op :
    (a : Answer) (now : DateTime) (op : CacheOp) (rest : List CacheOp) (redis : Redis)
    (c w : String)
    → IsKept op a
    → MayHold rest c (cached (process_op a now op redis) c) w
    → MayHold (op ∷ rest) c (cached redis c) w
MayHold-process_op a now (set key value ttl) rest redis c w kept h =
    elim (Bool-cases (is_carried_out a)) [
      | inl carried ↦ inl (rw (cached-process_op a now (set key value ttl) redis c, carried) at h)
      | inr dropped ↦ inr (rw (cached-process_op a now (set key value ttl) redis c, dropped) at h)
    ]
MayHold-process_op a now (del key) rest redis c w kept h =
    rw (cached-process_op a now (del key) redis c, kept) at h
