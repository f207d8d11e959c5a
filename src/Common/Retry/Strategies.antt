-- ===== src/Common/Retry/Strategies.antt =====
-- common/src/retry/backoff_strategy: the strategies.
use k_url.Prelude.{ℕ, ◌+◌, ◌%◌, ◌^◌}
use k_url.Prelude.Time.{Duration, saturating_mul, from_millis}
use k_url.Common.Retry.{BackoffStrategy, NoBackoff}

pub record ConstantBackoff : Type 0 where
  pub backoff : Duration

pub record LinearBackoff : Type 0 where
  pub backoff : Duration

pub record ExponentialBackoff : Type 0 where
  pub backoff : Duration

pub data JitterTy : Type 0 where
  full equal : JitterTy

-- The inner strategy, and how many random numbers were drawn.
pub record Jittered (BS : Type 0) : Type 0 where
  pub inner : BS
  pub ty : JitterTy
  pub drawn : ℕ

unfoldable pub new : Duration → ExponentialBackoff
new initial = record { backoff = initial }

unfoldable pub exponential_from_millis : ℕ → ExponentialBackoff
exponential_from_millis millis = record { backoff = from_millis millis }

unfoldable pub constant_from_millis : ℕ → ConstantBackoff
constant_from_millis millis = record { backoff = from_millis millis }

unfoldable pub linear_from_millis : ℕ → LinearBackoff
linear_from_millis millis = record { backoff = from_millis millis }

abbrev pub no_backoff_strategy : BackoffStrategy NoBackoff
no_backoff_strategy = record { next_backoff = λ attempt s. (0, s) }

abbrev pub constant_strategy : BackoffStrategy ConstantBackoff
constant_strategy = record { next_backoff = λ attempt s. (s.backoff, s) }

-- `attempt as u32` drops the high bits.
abbrev pub linear_strategy : BackoffStrategy LinearBackoff
linear_strategy = record {
  next_backoff = λ attempt s. (saturating_mul s.backoff (attempt % 2 ^ 32), s);
}

abbrev pub exponential_strategy : BackoffStrategy ExponentialBackoff
exponential_strategy = record {
  next_backoff = λ attempt s. (s.backoff, record { backoff = saturating_mul s.backoff 2 });
}

-- `scale ty i` is the product with the i-th random float of the range of `ty`.
abbrev pub jittered_strategy :
    {BS : Type 0}
    → (JitterTy → ℕ → Duration → Duration)
    → BackoffStrategy BS
    → BackoffStrategy (Jittered BS)
jittered_strategy scale inner = record {
  next_backoff = λ attempt s.
      let (delay, inner') = inner.next_backoff attempt s.inner in
      (scale s.ty s.drawn delay, record s { inner = inner'; drawn = s.drawn + 1 });
}

unfoldable pub jittered : {BS : Type 0} → BS → JitterTy → Jittered BS
jittered inner ty = record { inner = inner; ty = ty; drawn = 0 }
