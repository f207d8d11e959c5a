-- ===== src/Common/Tests.antt =====
-- Runs of the definitions of the crate common at concrete inputs.
use Prim.Native.String.{count}
use k_url.Common.Config
use k_url.Common.Config.Validation.{IsValid, validate, validate-IsValid, message}
use k_url.Common.Connections.{backoff_run, retry_connection, retry_with_exp_backoff}
use k_url.Common.RedisKeys.Distinct.{link_stats, name-injective}
use k_url.Common.Retry.{Retry, into_future}
use k_url.Common.Retry.Run.{Runs, into_future-Runs}
use k_url.Common.Retry.Strategies.{ExponentialBackoff, JitterTy, exponential_strategy}
use k_url.Prelude.{
  Bool, Result, String, [], err, ok, refl, some, suc, true, zero, ℕ, ◌==◌, ◌↔◌, ◌∷◌, ◌≡◌,
}
use k_url.Prelude.Time.{Duration, from_millis}

name-injective_example : link_stats "a" ≡ link_stats "a"
name-injective_example = name-injective (link_stats "a") (link_stats "a") refl

-- Fails twice, then gives 7.
abbrev flaky : ℕ → Result String ℕ
flaky zero = err "down"
flaky (suc zero) = err "down"
flaky (suc (suc n)) = ok 7

abbrev run : Retry String ℕ ExponentialBackoff
run = record {
  f = flaky;
  config = record {
    backoff_strategy = record { backoff = from_millis 125 };
    max_delay = some (from_millis 200);
    max_retries = 4;
  };
  on_retry = true;
}

run_sleeps : (into_future exponential_strategy run).sleeps ≡ from_millis 125 ∷ from_millis 200 ∷ []
unfolding into_future
run_sleeps = refl

into_future-Runs_example : Runs exponential_strategy run 4 0 (into_future exponential_strategy run)
into_future-Runs_example = into_future-Runs exponential_strategy run

-- No jitter.
abbrev plain : JitterTy → ℕ → Duration → Duration
plain ty i d = d

-- Never succeeds, and is given up after the last attempt.
gives_up :
    retry_connection {E = String} {T = ℕ} plain "Redis" (λ n. err "down")
    ≡ err (record { service_name = "Redis"; error = "down" })
unfolding retry_connection retry_with_exp_backoff backoff_run into_future
gives_up = refl

abbrev no_text : String → Bool
no_text s = count s == 0

validate-IsValid_example :
    (validate no_text Config.default_config ≡ ok tt) ↔ IsValid no_text Config.default_config
validate-IsValid_example = validate-IsValid no_text Config.default_config

unset_port :
    validate no_text
      (record Config.default_config { gateway = record { host = "localhost"; port = 0 } })
    ≡ err (message "invalid configuration `gateway.port`: must be greater than zero")
unfolding validate
unset_port = refl
