-- ===== src/Core/Service/CacheTtl.antt =====
-- How long core/src/grpc.rs lets a link be cached.
use k_url.Prelude.{◌≤◌, ◌<◌, ◌≡◌, Option, none, some, arith}
use k_url.Prelude.Int.{pos, ◌+ℤ◌, ◌≤ℤ◌, +ℤ_parts, -ℤ_parts}
use k_url.Prelude.Time.{Duration, DateTime, nanos_per_sec}
use k_url.Core.Service.{calculate_cache_ttl}

-- The link is there for `ttl` after `now`.
abbrev pub Outlasts : Option DateTime → DateTime → Duration → Type 0
Outlasts none now ttl = Unit {0}
Outlasts (some at) now ttl = now +ℤ pos ttl ≤ℤ at

-- The time to live is at least a second, at most the configured one, and ends before the link does.
pub calculate_cache_ttl_bounds :
    (cache_ttl : Duration) (expiration : Option DateTime) (now : DateTime) (ttl : Duration)
    → calculate_cache_ttl cache_ttl expiration now ≡ some ttl
    → (nanos_per_sec ≤ ttl) × (ttl ≤ cache_ttl) × Outlasts expiration now ttl
unfolding calculate_cache_ttl
calculate_cache_ttl_bounds cache_ttl none now ttl h = ground arith
calculate_cache_ttl_bounds cache_ttl (some at) now ttl h =
    ground (arith, +ℤ_parts now (pos ttl), -ℤ_parts at now)

-- It is the longest such time: where there is none, the configured time or the time that is left
-- is below a second.
pub calculate_cache_ttl-none :
    (cache_ttl : Duration) (expiration : Option DateTime) (now : DateTime) (ttl : Duration)
    → calculate_cache_ttl cache_ttl expiration now ≡ none
    → ttl ≤ cache_ttl
    → Outlasts expiration now ttl
    → ttl < nanos_per_sec
unfolding calculate_cache_ttl
calculate_cache_ttl-none cache_ttl none now ttl h b o = ground arith
calculate_cache_ttl-none cache_ttl (some at) now ttl h b o =
    ground (arith, +ℤ_parts now (pos ttl), -ℤ_parts at now)

pub calculate_cache_ttl-longest :
    (cache_ttl : Duration) (expiration : Option DateTime) (now : DateTime) (ttl other : Duration)
    → calculate_cache_ttl cache_ttl expiration now ≡ some ttl
    → other ≤ cache_ttl
    → Outlasts expiration now other
    → other ≤ ttl
unfolding calculate_cache_ttl
calculate_cache_ttl-longest cache_ttl none now ttl other h b o = ground arith
calculate_cache_ttl-longest cache_ttl (some at) now ttl other h b o =
    ground (arith, +ℤ_parts now (pos other), -ℤ_parts at now)
