-- ===== src/Analytics/Redis/Commands.antt =====
-- What a command leaves, by the answer that it meets.
use k_url.Analytics.Redis.{Answer, Command, RedisPool, Store, command, io, lost, refused, served}
use k_url.Prelude.{ap, err, inl, inr, ok, refl, ℕ, ◌+◌, ◌≡◌, ◌⊎◌}

-- The pool after one more command, with a changed store.
abbrev pub after : Store → RedisPool → RedisPool
after store pool = record pool { store = store; at = pool.at + 1 }

-- Every command is carried out and answered.
abbrev pub Up : RedisPool → Type 0
Up pool = (c : Command) (i : ℕ) → pool.answer c i ≡ served

module _ {A : Type 0} (c : Command) (run : Store → A × Store) (pool : RedisPool) where
  pub command-served :
      pool.answer c pool.at ≡ served
      → command c run pool ≡ (ok (run pool.store).0, after (run pool.store).1 pool)
  unfolding command
  command-served up = rw (up, command) refl

  pub command-refused :
      pool.answer c pool.at ≡ refused → command c run pool ≡ (err io, after pool.store pool)
  unfolding command
  command-refused up = rw (up, command) refl

  -- Whatever the answer, the command is carried out or not.
  pub command-cases :
      (command c run pool ≡ (ok (run pool.store).0, after (run pool.store).1 pool))
      ⊎ (command c run pool ≡ (err io, after pool.store pool))
      ⊎ (command c run pool ≡ (err io, after (run pool.store).1 pool))
  unfolding command
  command-cases = by_answer (pool.answer c pool.at) refl
    where
      by_answer :
          (a : Answer)
          → pool.answer c pool.at ≡ a
          → (command c run pool ≡ (ok (run pool.store).0, after (run pool.store).1 pool))
            ⊎ (command c run pool ≡ (err io, after pool.store pool))
            ⊎ (command c run pool ≡ (err io, after (run pool.store).1 pool))
      by_answer served e = inl (rw (e, command) refl)
      by_answer refused e = inr (inl (rw (e, command) refl))
      by_answer lost e = inr (inr (rw (e, command) refl))

-- A command changes the store as it does when it is carried out, or not at all.
pub command-store :
    {A : Type 0} (c : Command) (run : Store → A × Store) (pool : RedisPool)
    → ((command c run pool).1.store ≡ (run pool.store).1)
      ⊎ ((command c run pool).1.store ≡ pool.store)
command-store c run pool = elim (command-cases c run pool) [
  | inl e ↦ inl (ap (λ x. x.1.store) e)
  | inr (inl e) ↦ inr (ap (λ x. x.1.store) e)
  | inr (inr e) ↦ inl (ap (λ x. x.1.store) e)
]
