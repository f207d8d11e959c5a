-- ===== src/Analytics/RedisStats/Hmax.antt =====
-- HMAX_SCRIPT of analytics/src/redis_stats.rs.

use k_url.Analytics.Redis.{Store, hget}
use k_url.Analytics.Redis.Counters.{clicks, hset-clicks}
use k_url.Analytics.RedisStats.{hmax_script}
use k_url.Prelude.{String, arith, false, max, none, true, ℕ, ◌&&◌, ◌<◌, ◌↔◌, ◌≡◌, ◌⊎◌}
use k_url.Prelude.Maps.{same_refl, string_key, ◌==◌, nat_key}

-- The script leaves the greater of the two counts in its field and every other field as it was, and
-- answers true exactly where the field had no count or a smaller one.
pub hmax_script_lem :
    (key field : String) (value : ℕ) (r : Store)
    → (clicks key field (hmax_script key field value r).1 ≡ max (clicks key field r) value)
      × ((k f : String)
          → ((key == k) && (field == f)) ≡ false
          → clicks k f (hmax_script key field value r).1 ≡ clicks k f r)
      × (((hmax_script key field value r).0 ≡ true)
          ↔ ((hget key field r ≡ none) ⊎ (clicks key field r < value)))
unfolding hmax_script clicks
hmax_script_lem key field value r = (
  ground (arith, hset-clicks key field key field value r, same_refl key, same_refl field),
  λ k f h. ground (arith, hset-clicks key field k f value r),
  ground arith,
)
