-- ===== src/Common/Retry/Delays.antt =====
-- The delays that common/src/retry/backoff_strategy/exponential.rs gives.
use native.Mathlib.Nat.{pow-suc}
use native.Mathlib.Numerals.{add-one}
use k_url.Prelude.{
  ℕ, zero, suc, ◌+◌, ◌*◌, ◌^◌, ◌≤◌, List, [], ◌∷◌, Option, Result-cases, ◌≡◌, refl, ap, ◌∙◌, inl,
  inr, arith, length, min,
}
use k_url.Prelude.Time.{Duration, max_duration, saturating_mul}
use k_url.Common.Retry.{Retry, capped, attempts, into_future}
use k_url.Common.Retry.Strategies.{ExponentialBackoff, exponential_strategy}

-- The delay after `i` failures: doubled each time, up to the longest duration.
abbrev pub delay : Duration → ℕ → Duration
delay d i = min (d * 2 ^ i) max_duration

abbrev pub delays : Option Duration → Duration → ℕ → ℕ → List Duration
delays limit d i zero = []
delays limit d i (suc n) = capped limit (delay d i) ∷ delays limit d (i + 1) n

power : (d i : ℕ) → d * 2 ^ (i + 1) ≡ d * 2 ^ i * 2
power d i = rw (add-one, pow-suc) (omega arith)

delay-next : (d i : ℕ) → saturating_mul (delay d i) 2 ≡ delay d (i + 1)
delay-next d i = omega (arith, power d i)

module _ {E T : Type 0} (r : Retry E T ExponentialBackoff) (d : Duration) where
  attempts-delays :
      (n i : ℕ) (st : ExponentialBackoff)
      → st.backoff ≡ delay d i
      → (attempts exponential_strategy r n i st).sleeps
        ≡ delays r.config.max_delay d i (length (attempts exponential_strategy r n i st).sleeps)
  unfolding attempts
  attempts-delays zero i st h = refl
  attempts-delays (suc n) i st h =
      let next : ExponentialBackoff = record { backoff = saturating_mul st.backoff 2 } in
      let ih = attempts-delays n (i + 1) next (ap (λ b. saturating_mul b 2) h ∙ delay-next d i) in
      elim (Result-cases (r.f i)) [
        | inl (v, e) ↦ rw (e, attempts) refl
        | inr (x, e) ↦ rw (e, attempts) (cc (h, ih))
      ]

  -- The sleeps of a run with exponential backoff are the initial delay doubled again and again,
  -- each cut to the limit.
  pub into_future-delays :
      r.config.backoff_strategy.backoff ≡ d
      → d ≤ max_duration
      → (into_future exponential_strategy r).sleeps
        ≡ delays r.config.max_delay d 0 (length (into_future exponential_strategy r).sleeps)
  unfolding into_future
  into_future-delays h b =
      attempts-delays r.config.max_retries 0 r.config.backoff_strategy (omega arith)
