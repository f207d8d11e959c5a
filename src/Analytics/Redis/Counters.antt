-- ===== src/Analytics/Redis/Counters.antt =====
-- The counters of the hashes in Redis, and the entries that wait in the stream.
use k_url.Analytics.Redis.{Store, StreamId, has, hget, hincrby, hset, without}
use k_url.Prelude.{
  List, String, [], ap, arith, false, get_or, if◌then◌else◌, length, refl, true, ℕ, ◌&&◌, ◌+◌, ◌<◌,
  ◌∷◌, ◌≡◌, ◌≤◌,
}
use k_url.Prelude.Maps.{insert, lookup, lookup-insert, string_key, ◌==◌, nat_key}
use k_url.Prelude.Sums.{sum, sum-insert}

pub has-without : (id : String) (xs : List StreamId) → has id (without id xs) ≡ false
has-without id [] = refl
has-without id (x ∷ xs) = ground (arith, has-without id xs)

-- The number of clicks of a counter.
unfoldable pub clicks : String → String → Store → ℕ
unfolding hget
clicks key field r = get_or 0 (hget key field r)

pub hset-clicks :
    (key field k f : String) (n : ℕ) (r : Store)
    → clicks k f (hset key field n r) ≡ (if (key == k) && (field == f) then n else clicks k f r)
unfolding clicks hset lookup
hset-clicks key field k f n r = ground (
  arith,
  lookup-insert key k (insert field n (get_or [] (lookup key r.hashes))) r.hashes,
  lookup-insert field f n (get_or [] (lookup key r.hashes)),
  string_key.same_iff key k,
  ap (λ x. lookup x r.hashes),
)

pub hincrby-clicks :
    (key field k f : String) (r : Store)
    → clicks k f (hincrby key field r)
      ≡ (if (key == k) && (field == f) then clicks k f r + 1 else clicks k f r)
unfolding hincrby clicks
hincrby-clicks key field k f r = ground (
  arith,
  hset-clicks key field k f (get_or 0 (hget key field r) + 1) r,
  string_key.same_iff key k,
  string_key.same_iff field f,
  ap (λ x. hget x field r),
  ap (λ x. hget key x r),
)

pub without-length : (id : String) (xs : List StreamId) → length (without id xs) ≤ length xs
without-length id [] = omega arith
without-length id (x ∷ xs) = ground (arith, without-length id xs)

-- To remove an entry that is there makes the list shorter.
pub without-shorter :
    (id : String) (xs : List StreamId) → has id xs ≡ true → length (without id xs) < length xs
without-shorter id [] h = cc
without-shorter id (x ∷ xs) h = ground (arith, without-length id xs, without-shorter id xs)

-- The clicks of all fields of a hash.
unfoldable pub all_clicks : String → Store → ℕ
all_clicks key r = sum (get_or [] (lookup key r.hashes))

pub hincrby-all_clicks :
    (key field k : String) (r : Store)
    → all_clicks k (hincrby key field r) ≡ (if key == k then all_clicks k r + 1 else all_clicks k r)
unfolding all_clicks hincrby hset hget lookup
hincrby-all_clicks key field k r = ground (
  arith,
  lookup-insert key k
      (insert field (get_or 0 (hget key field r) + 1) (get_or [] (lookup key r.hashes))) r.hashes,
  sum-insert field (get_or 0 (hget key field r) + 1) (get_or [] (lookup key r.hashes)),
  string_key.same_iff key k,
  ap (λ x. lookup x r.hashes),
)
