-- ===== src/Analytics/Merge/Statements.antt =====
-- What a merge that succeeds writes: the statements of merge_snapshot of
-- analytics/src/db/pg_snapshot_repo.rs one after the other, without the outages between them.
-- merge_snapshot leaves the tables to this run, or as they were.
use k_url.Common.Database.{Db, PgPool, execute}
use k_url.Common.DbErrors.{SqlxError}
use k_url.Prelude.{
  Bool, Result, Result-cases, [], arith, false, if◌then◌else◌, inl, inr, none, ok, refl, some, true,
  ◌∷◌, ◌≡◌,
}
use k_url.Prelude.Effects.{Exec, pure, ◌>>=◌}

module _ {E A : Type 0} where
  -- On a success the pool's tables are those of a run on the tables alone.
  abbrev pub Does : Exec PgPool E A → Exec Db E A → Type 0
  Does m f =
      (pool : PgPool) (a : A)
      → (m pool).0 ≡ ok a
      → ((f pool.db).0 ≡ ok a) × ((m pool).1.db ≡ (f pool.db).1)

pub execute-Does : {A : Type 0} (f : Db → Result SqlxError A × Db) → Does (execute f) f
unfolding execute
execute-Does f pool a h = elim pool.outages [
  | [] ↦ ground arith
  | none ∷ rest ↦ ground arith
  | some o ∷ rest ↦ ground arith
]

pub pure-Does : {E A : Type 0} (a : A) → Does {E = E} (pure a) (pure a)
pure-Does a pool b h = (h, refl)

pub bind-Does :
    {E A B : Type 0} (m : Exec PgPool E A) (f : Exec Db E A) (k : A → Exec PgPool E B)
    (g : A → Exec Db E B)
    → Does m f
    → ((a : A) → Does (k a) (g a))
    → Does (m >>= k) (f >>= g)
bind-Does m f k g hm hk pool b h = elim (Result-cases (m pool).0) [
  | inr (e, failed) ↦ ground arith
  | inl (a, good) ↦ ground (arith, hm pool a good, hk a (m pool).1 b)
]

pub if-Does :
    {E A : Type 0} (b : Bool) (m : Exec PgPool E A) (f : Exec Db E A) (a : A)
    → Does m f
    → Does (if b then m else pure a) (if b then f else pure a)
if-Does true m f a h = h
if-Does false m f a h = pure-Does a

pub unless-Does :
    {E A : Type 0} (b : Bool) (m : Exec PgPool E A) (f : Exec Db E A) (a : A)
    → Does m f
    → Does (if b then pure a else m) (if b then pure a else f)
unless-Does true m f a h = pure-Does a
unless-Does false m f a h = h
