-- ===== src/Common/Retry/Run.antt =====
-- What a run of common/src/retry/mod.rs returns, and how often it calls the operation.
use k_url.Prelude.{
  ℕ, zero, suc, ◌+◌, ◌≤◌, Option, none, some, Result, ok, err, Result-cases, ◌≡◌, refl, inl, inr,
  arith, length, All,
}
use k_url.Prelude.Time.{Duration}
use k_url.Common.Retry.{BackoffStrategy, Retry, Outcome, capped, attempts, into_future}

-- The first success among the results from `i` on, or else the last of the `n + 1` results.
abbrev pub first_success : {E T : Type 0} → ℕ → ℕ → (ℕ → Result E T) → Result E T
first_success zero i f = f i
first_success (suc n) i f = elim (f i) [ ok v ↦ ok v | err e ↦ first_success n (i + 1) f ]

-- The calls up to and with the first success, at most `n + 1`.
abbrev pub calls_needed : {E T : Type 0} → ℕ → ℕ → (ℕ → Result E T) → ℕ
calls_needed zero i f = 1
calls_needed (suc n) i f = elim (f i) [ ok v ↦ 1 | err e ↦ suc (calls_needed n (i + 1) f) ]

abbrev pub Within : Option Duration → Duration → Type 0
Within none d = Unit {0}
Within (some limit) d = d ≤ limit

capped-Within : (o : Option Duration) (d : Duration) → Within o (capped o d)
capped-Within none d = tt
capped-Within (some limit) d = omega arith

module _ {E T BS : Type 0} (strategy : BackoffStrategy BS) (r : Retry E T BS) where
  -- What the loop from attempt `i` on does, with `n` retries left.
  pub record Runs (n i : ℕ) (o : Outcome E T) : Type 0 where
    pub result : o.result ≡ first_success n i r.f
    pub calls : o.calls ≡ calls_needed n i r.f
    pub bounded : o.calls ≤ n + 1
    pub sleeps : length o.sleeps + 1 ≡ o.calls
    pub within : All (Within r.config.max_delay) o.sleeps

  attempts-Runs : (n i : ℕ) (st : BS) → Runs n i (attempts strategy r n i st)
  unfolding attempts
  attempts-Runs zero i st = record {
    result = refl;
    calls = refl;
    bounded = omega arith;
    sleeps = omega arith;
    within = tt;
  }
  attempts-Runs (suc n) i st =
      let ih = attempts-Runs n (i + 1) (strategy.next_backoff (i + 1) st).1 in
      elim (Result-cases (r.f i)) [
        | inl (v, e) ↦ record {
          result = ground arith;
          calls = ground arith;
          bounded = ground arith;
          sleeps = ground arith;
          within = rw (e, attempts) tt;
        }
        | inr (x, e) ↦ record {
          result = ground (arith, ih.result);
          calls = ground (arith, ih.calls);
          bounded = ground (arith, ih.bounded);
          sleeps = ground (arith, ih.sleeps);
          within = rw (e, attempts) (capped-Within r.config.max_delay _, ih.within);
        }
      ]

  -- A run returns the first success among its attempts, or else the last failure; it calls the
  -- operation up to the first success, at most once more than the retries, and sleeps between the
  -- calls, never longer than the limit.
  pub into_future-Runs : Runs r.config.max_retries 0 (into_future strategy r)
  unfolding into_future
  into_future-Runs = attempts-Runs r.config.max_retries 0 r.config.backoff_strategy
