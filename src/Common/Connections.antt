-- ===== src/Common/Connections.antt =====
-- common/src/connections.rs: how the services connect to Postgres, Redis and one another. The
-- attempt to connect is a parameter.
use k_url.Common.Config.{DatabaseConfig, RedisConfig, show_database, show_redis}
use k_url.Common.Retry.{Outcome, into_future, max_retries, on_retry, retry, with_strategy}
use k_url.Common.Retry.Run.{first_success, into_future-Runs}
use k_url.Common.Retry.Strategies.{
  JitterTy, equal, exponential_strategy, jittered, jittered_strategy, new,
}
use k_url.Prelude.{
  Bool, Result, String, arith, err, if◌then◌else◌, map_err, max, ok, refl, ℕ, ◌-◌, ◌≡◌, ◌≤◌, ◌>>=◌,
}
use k_url.Prelude.Time.{Duration, from_millis}

abbrev max_connection_attempts : ℕ
max_connection_attempts = 10

abbrev initial_backoff : Duration
initial_backoff = from_millis 125

-- `Failed to connect to {service_name}: {error}`
pub record ConnectError (E : Type 0) : Type 0 where
  pub service_name : String
  pub error : E

module _ {E T : Type 0} (scale : JitterTy → ℕ → Duration → Duration) where
  -- The run that is awaited.
  unfoldable pub backoff_run : (ℕ → Result E T) → ℕ → Duration → Outcome E T
  unfolding retry with_strategy max_retries on_retry new jittered
  backoff_run operation max_attempts initial =
      into_future (jittered_strategy scale exponential_strategy) (
        on_retry (
          max_retries (max max_attempts 1 - 1)
            (with_strategy (jittered (new initial) equal) (retry operation))))

  unfoldable pub retry_with_exp_backoff :
      String → (ℕ → Result E T) → ℕ → Duration → Result (ConnectError E) T
  retry_with_exp_backoff service_name operation max_attempts initial =
      map_err (λ e. record { service_name = service_name; error = e })
        (backoff_run operation max_attempts initial).result

  unfoldable pub retry_connection : String → (ℕ → Result E T) → Result (ConnectError E) T
  retry_connection service_name operation =
      retry_with_exp_backoff service_name operation max_connection_attempts initial_backoff

  -- Connecting gives the first connection that is made, or the last error with the service's name;
  -- the operation is called at least once and at most `max_attempts` times (once, if that is zero).
  pub retry_with_exp_backoff_lem :
      (service_name : String) (operation : ℕ → Result E T) (max_attempts : ℕ) (initial : Duration)
      → (retry_with_exp_backoff service_name operation max_attempts initial
          ≡ map_err
              (λ e. record { service_name = service_name; error = e })
              (first_success (max max_attempts 1 - 1) 0 operation))
        × (1 ≤ (backoff_run operation max_attempts initial).calls)
        × ((backoff_run operation max_attempts initial).calls ≤ max max_attempts 1)
  unfolding retry_with_exp_backoff backoff_run
  retry_with_exp_backoff_lem service_name operation max_attempts initial =
      let runs = into_future-Runs (jittered_strategy scale exponential_strategy) (
        on_retry (
          max_retries (max max_attempts 1 - 1)
            (with_strategy (jittered (new initial) equal) (retry operation)))) in
      (rw (runs.result) refl, omega (arith, runs.sleeps), omega (arith, runs.bounded))

-- What the drivers offer: to connect to Postgres with all that it takes, to make a pool for a URL of
-- Redis, and to take a connection from it and send it PING. Each attempt may end otherwise.
pub record Drivers (E Pg Pool Connection : Type 0) : Type 0 where
  pub connect : String → ℕ → Result E Pg
  pub create_pool : String → Result E Pool
  pub get : ℕ → Pool → Result E Connection
  pub ping : ℕ → Connection → Result E (Unit {0})

module _ {E Pg Pool Connection : Type 0} (scale : JitterTy → ℕ → Duration → Duration)
    (drivers : Drivers E Pg Pool Connection) (to_string : ℕ → String) where
  unfoldable pub connect_postgres : DatabaseConfig → Result (ConnectError E) Pg
  unfolding retry_with_exp_backoff show_database
  connect_postgres config =
      let database_url = show_database to_string config in
      retry_with_exp_backoff scale "Postgres" (drivers.connect database_url) max_connection_attempts
        initial_backoff

  -- One attempt to reach Redis.
  unfoldable pub try_redis : String → ℕ → Result E Pool
  try_redis redis_url attempt = do
    pool ← drivers.create_pool redis_url
    connection ← drivers.get attempt pool
    _ ← drivers.ping attempt connection
    ok pool

  unfoldable pub connect_redis : RedisConfig → Result (ConnectError E) Pool
  unfolding retry_connection try_redis show_redis
  connect_redis config =
      let redis_url = show_redis to_string config in
      retry_connection scale "Redis" (try_redis redis_url)

-- `tokio::try_join!`: both, or the error that comes first, which `left_first` tells where both fail.
unfoldable pub try_join : {E A B : Type 0} → Bool → Result E A → Result E B → Result E (A × B)
try_join left_first (ok a) (ok b) = ok (a, b)
try_join left_first (ok a) (err e) = err e
try_join left_first (err e) (ok b) = err e
try_join left_first (err e) (err f) = if left_first then err e else err f
