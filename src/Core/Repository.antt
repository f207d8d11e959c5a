-- ===== src/Core/Repository.antt =====
-- core/src/db.rs: the trait LinkRepository, as its operations with what the service relies on.
pub mod Pg
pub mod Queries
use k_url.Prelude.{
  ℕ, String, Bool, Option, none, some, ◌≡◌, ◌≢◌, ◌⊎◌, Result, ok, err, if◌then◌else◌,
}
use k_url.Prelude.Time.{DateTime}
use k_url.Prelude.Maps.{◌==◌, string_key}
use k_url.Prelude.Effects.{Exec}
use k_url.Common.DbErrors.{DbError, SqlxError, conflict, not_found}

pub record Link : Type 0 where
  pub target : String
  pub expiration : Option DateTime

-- `kept_at` is what the store keeps of an expiration, and `row s c` is the link that the store `s` has under the code `c`. The laws say when a reply may
-- be given and what the call leaves in the store; any call may fail otherwise, without effect or with
-- its whole effect, where only its answer is lost.
pub record LinkRepository : Type 1 where
  pub Store : Type 0
  pub kept_at : Option DateTime → Option DateTime
  pub row : Store → String → Option Link
  pub get_link : String → Exec Store DbError Link
  pub link_exists : String → Exec Store DbError Bool
  pub create_link : String → String → Option DateTime → Exec Store DbError (Unit {0})
  pub delete_link : String → Exec Store DbError (Unit {0})
  pub row-get_link : (c j : String) (s : Store) → row (get_link c s).1 j ≡ row s j
  pub get_link_found :
      (c : String) (s : Store) (l : Link) → (get_link c s).0 ≡ ok l → row s c ≡ some l
  pub get_link_missing :
      (c : String) (s : Store) → (get_link c s).0 ≡ err not_found → row s c ≡ none
  pub row-link_exists : (c j : String) (s : Store) → row (link_exists c s).1 j ≡ row s j
  pub link_exists_absent :
      (c : String) (s : Store) → (link_exists c s).0 ≡ ok Bool.false → row s c ≡ none
  pub create_link_new :
      (c t : String) (x : Option DateTime) (s : Store)
      → (create_link c t x s).0 ≡ ok tt
      → row s c ≡ none
  pub row-create_link :
      (c t : String) (x : Option DateTime) (j : String) (s : Store)
      → (create_link c t x s).0 ≡ ok tt
      → row (create_link c t x s).1 j
        ≡ (if c == j then some (record { target = t; expiration = kept_at x }) else row s j)
  pub create_link_failed :
      (c t : String) (x : Option DateTime) (s : Store) (e : DbError)
      → (create_link c t x s).0 ≡ err e
      → ((j : String) → row (create_link c t x s).1 j ≡ row s j)
        ⊎ ((row s c ≡ none)
            × ((j : String)
                → row (create_link c t x s).1 j ≡ (
                    if c == j
                    then some (record { target = t; expiration = kept_at x })
                    else row s j)))
  pub create_link_conflict :
      (c t : String) (x : Option DateTime) (s : Store) (e : SqlxError)
      → (create_link c t x s).0 ≡ err (conflict e)
      → row s c ≢ none
  pub row-delete_link :
      (c j : String) (s : Store)
      → (delete_link c s).0 ≡ ok tt
      → row (delete_link c s).1 j ≡ (if c == j then none else row s j)
  pub delete_link_failed :
      (c : String) (s : Store) (e : DbError)
      → (delete_link c s).0 ≡ err e
      → ((j : String) → row (delete_link c s).1 j ≡ row s j)
        ⊎ ((j : String) → row (delete_link c s).1 j ≡ (if c == j then none else row s j))
  pub delete_link_missing :
      (c : String) (s : Store) → (delete_link c s).0 ≡ err not_found → row s c ≡ none
