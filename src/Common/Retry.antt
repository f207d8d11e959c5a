-- ===== src/Common/Retry.antt =====
-- common/src/retry: an operation that is called again after a failure. The operation is the
-- sequence of its results, by the number of the call; what the run does besides is recorded.
pub mod Strategies
pub mod Run
pub mod Delays
use k_url.Prelude.{
  ℕ, zero, suc, ◌+◌, ◌-◌, Bool, true, false, List, [], ◌∷◌, Option, none, some, Result, ok, err,
  min, max, get_or,
}
use k_url.Prelude.Time.{Duration}

-- trait BackoffStrategy: the delay before the next attempt, given the attempts made so far.
pub record BackoffStrategy (BS : Type 0) : Type 0 where
  pub next_backoff : ℕ → BS → Duration × BS

pub record RetryConfig (BS : Type 0) : Type 0 where
  pub backoff_strategy : BS
  pub max_delay : Option Duration
  pub max_retries : ℕ

module _ {BS NewBS : Type 0} where
  -- RetryConfig::with_strategy
  unfoldable pub change_strategy : NewBS → RetryConfig BS → RetryConfig NewBS
  change_strategy new c = record {
    backoff_strategy = new;
    max_delay = c.max_delay;
    max_retries = c.max_retries;
  }

-- A call of the callback `on_retry`.
pub record Notice (E : Type 0) : Type 0 where
  pub attempt : ℕ
  pub next_backoff : Duration
  pub error : E

pub record Retry (E T BS : Type 0) : Type 0 where
  pub f : ℕ → Result E T
  pub config : RetryConfig BS
  pub on_retry : Bool  -- whether a callback is set

module _ {E T BS : Type 0} where
  unfoldable pub max_retries : ℕ → Retry E T BS → Retry E T BS
  max_retries n r = record r { config = record r.config { max_retries = n } }

  unfoldable pub max_delay : Duration → Retry E T BS → Retry E T BS
  max_delay d r = record r { config = record r.config { max_delay = some d } }

  unfoldable pub with_config : RetryConfig BS → Retry E T BS → Retry E T BS
  with_config c r = record r { config = c }

  unfoldable pub on_retry : Retry E T BS → Retry E T BS
  on_retry r = record r { on_retry = true }

module _ {E T BS NewBS : Type 0} where
  unfoldable pub with_strategy : NewBS → Retry E T BS → Retry E T NewBS
  unfolding change_strategy
  with_strategy new r = record {
    f = r.f;
    config = change_strategy new r.config;
    on_retry = r.on_retry;
  }

-- NoBackoff
pub data NoBackoff : Type 0 where
  no_backoff : NoBackoff

unfoldable pub default_config : RetryConfig NoBackoff
default_config = record { backoff_strategy = no_backoff; max_delay = none; max_retries = 1 }

unfoldable pub retry : {E T : Type 0} → (ℕ → Result E T) → Retry E T NoBackoff
unfolding default_config
retry f = record { f = f; config = default_config; on_retry = false }

-- How a run ends, and what it did: the calls of the operation, the sleeps, the callbacks.
pub record Outcome (E T : Type 0) : Type 0 where
  pub result : Result E T
  pub calls : ℕ
  pub sleeps : List Duration
  pub notices : List (Notice E)

-- The delay that is slept, with the limit of the configuration.
abbrev pub capped : Option Duration → Duration → Duration
capped none d = d
capped (some limit) d = min limit d

module _ {E T BS : Type 0} (strategy : BackoffStrategy BS) (r : Retry E T BS) where
  -- The loop from `attempt` on, with `left` retries left.
  unfoldable pub attempts : ℕ → ℕ → BS → Outcome E T
  attempts zero attempt st = record { result = r.f attempt; calls = 1; sleeps = []; notices = [] }
  attempts (suc left) attempt st = elim (r.f attempt) [
    | ok v ↦ record { result = ok v; calls = 1; sleeps = []; notices = [] }
    | err e ↦
        let (delay, st') = strategy.next_backoff (attempt + 1) st in
        let backoff = capped r.config.max_delay delay in
        let rest = attempts left (attempt + 1) st' in
        record {
          result = rest.result;
          calls = suc rest.calls;
          sleeps = backoff ∷ rest.sleeps;
          notices = elim r.on_retry [
            | true ↦ record { attempt = attempt; next_backoff = backoff; error = e } ∷ rest.notices
            | false ↦ rest.notices
          ];
        }
  ]

  -- IntoFuture for Retry
  unfoldable pub into_future : Outcome E T
  unfolding attempts
  into_future = attempts r.config.max_retries 0 r.config.backoff_strategy
