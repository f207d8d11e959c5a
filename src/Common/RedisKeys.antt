-- ===== src/Common/RedisKeys.antt =====
-- common/src/redis_keys.rs: the names of the Redis keys.
pub mod Distinct
use Prim.Native.String.{String, ◌++◌}

abbrev pub cache : String
cache = "cache"

abbrev pub stats : String
stats = "stats"

unfoldable pub stats_key : String → String
stats_key stat = (stats ++ ":") ++ stat

unfoldable pub global_stats_key : String
global_stats_key = stats ++ ":global"

unfoldable pub link_stats_key : String → String
link_stats_key short_code = (stats ++ ":link:") ++ short_code

unfoldable pub link_cache_key : String → String
link_cache_key short_code = (cache ++ ":") ++ short_code

unfoldable pub link_last_clicked_at_key : String → String
link_last_clicked_at_key short_code = (stats ++ ":last_clicked_at:") ++ short_code
