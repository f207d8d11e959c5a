-- ===== src/Core/Repository/Pg.antt =====
-- The Postgres implementation of core/src/db.rs keeps what the trait LinkRepository promises.
use k_url.Prelude.{
  String, false, Option, none, some, map_option, ◌≡◌, ◌≢◌, ok, err, arith, if◌then◌else◌,
  Bool-cases, Option-cases, inl, inr, ap, ◌⊎◌,
}
use k_url.Prelude.Time.{DateTime}
use k_url.Prelude.Maps.{lookup, ◌==◌, string_key, lookup-insert, lookup-remove, insert}
use k_url.Common.DbErrors.{DbError, SqlxError, conflict, not_found}
use k_url.Common.Database.{LinkRow, PgPool, Db, execute-cases, reaches_server}
use k_url.Core.Repository.{Link, LinkRepository}
use k_url.Core.Repository.Queries.{
  get_link, link_exists, create_link, delete_link, insert_link, delete_row, short_code_length,
  timestamptz,
}

abbrev pub to_link : LinkRow → Link
to_link r = record { target = r.target; expiration = r.expiration }

abbrev pub row : PgPool → String → Option Link
row pool c = map_option to_link (lookup c pool.links)

pub row-get_link : (c j : String) (s : PgPool) → row (get_link c s).1 j ≡ row s j
unfolding get_link
row-get_link c j s = ground arith

pub get_link_found :
    (c : String) (s : PgPool) (l : Link) → (get_link c s).0 ≡ ok l → row s c ≡ some l
unfolding get_link
get_link_found c s l h = ground arith

pub get_link_missing : (c : String) (s : PgPool) → (get_link c s).0 ≡ err not_found → row s c ≡ none
unfolding get_link
get_link_missing c s h = ground arith

pub row-link_exists : (c j : String) (s : PgPool) → row (link_exists c s).1 j ≡ row s j
unfolding link_exists
row-link_exists c j s = ground arith

pub link_exists_absent : (c : String) (s : PgPool) → (link_exists c s).0 ≡ ok false → row s c ≡ none
unfolding link_exists
link_exists_absent c s h = ground arith

module _ (c t : String) (x : Option DateTime) where
  pub create_link_new : (s : PgPool) → (create_link c t x s).0 ≡ ok tt → row s c ≡ none
  unfolding create_link
  create_link_new s h = ground arith

  pub row-create_link :
      (j : String) (s : PgPool)
      → (create_link c t x s).0 ≡ ok tt
      → row (create_link c t x s).1 j ≡ (
          if c == j
          then some (record { target = t; expiration = map_option timestamptz x })
          else row s j)
  unfolding create_link
  row-create_link j s h = ground (
    arith,
    lookup-insert c j
        (record {
          target = t;
          expiration = map_option timestamptz x;
          click_count = 0;
          last_clicked_at = none;
        })
        s.links,
  )

  -- An insertion changes nothing, or adds the row of a code that had none.
  insert_link-cases :
      (db : Db)
      → ((insert_link c t x db).1 ≡ db)
        ⊎ ((lookup c db.links ≡ none)
            × ((insert_link c t x db).1.links
                ≡ insert c
                    (record {
                      target = t;
                      expiration = map_option timestamptz x;
                      click_count = 0;
                      last_clicked_at = none;
                    })
                    db.links))
  unfolding insert_link
  insert_link-cases db = elim (Bool-cases (short_code_length c)) [
    | inr bad ↦ inl (ground (arith, bad))
    | inl good ↦ elim (Option-cases (lookup c db.links)) [
      | inr (r, there) ↦ inl (ground (arith, good, there))
      | inl missing ↦ inr (missing, ground (arith, good, missing))
    ]
  ]

  pub create_link_failed :
      (s : PgPool) (e : DbError)
      → (create_link c t x s).0 ≡ err e
      → ((j : String) → row (create_link c t x s).1 j ≡ row s j)
        ⊎ ((row s c ≡ none)
            × ((j : String)
                → row (create_link c t x s).1 j ≡ (
                    if c == j
                    then some (record { target = t; expiration = map_option timestamptz x })
                    else row s j)))
  unfolding create_link
  create_link_failed s e h = elim (insert_link-cases s.db) [
    | inl same ↦ inl (λ j. ground (arith, execute-cases (insert_link c t x) s, same))
    | inr (missing, added) ↦ elim (execute-cases (insert_link c t x) s) [
      | inl (result, tables) ↦ inr (
        ground (arith, missing),
        λ j. ground (
          arith,
          tables,
          added,
          lookup-insert c j
              (record {
                target = t;
                expiration = map_option timestamptz x;
                click_count = 0;
                last_clicked_at = none;
              })
              s.links,
        ),
      )
      | inr (o, refused, tables) ↦ elim (Bool-cases (reaches_server o)) [
        | inr missed ↦ inl (λ j. ground (arith, tables, missed))
        | inl reached ↦ inr (
          ground (arith, missing),
          λ j. ground (
            arith,
            tables,
            reached,
            added,
            lookup-insert c j
                (record {
                  target = t;
                  expiration = map_option timestamptz x;
                  click_count = 0;
                  last_clicked_at = none;
                })
                s.links,
          ),
        )
      ]
    ]
  ]

  pub create_link_conflict :
      (s : PgPool) (e : SqlxError) → (create_link c t x s).0 ≡ err (conflict e) → row s c ≢ none
  unfolding create_link
  create_link_conflict s e h = ground arith

pub row-delete_link :
    (c j : String) (s : PgPool)
    → (delete_link c s).0 ≡ ok tt
    → row (delete_link c s).1 j ≡ (if c == j then none else row s j)
unfolding delete_link
row-delete_link c j s h = ground (arith, lookup-remove c j s.links)

-- A deletion leaves the links without the code.
delete_row-links :
    (c : String) (db : Db) (j : String)
    → lookup j (delete_row c db).1.links ≡ (if c == j then none else lookup j db.links)
unfolding delete_row
delete_row-links c db j =
    ground (arith, lookup-remove c j db.links, string_key.same_iff c j, ap (λ k. lookup k db.links))

pub delete_link_failed :
    (c : String) (s : PgPool) (e : DbError)
    → (delete_link c s).0 ≡ err e
    → ((j : String) → row (delete_link c s).1 j ≡ row s j)
      ⊎ ((j : String) → row (delete_link c s).1 j ≡ (if c == j then none else row s j))
unfolding delete_link
delete_link_failed c s e h = elim (execute-cases (delete_row c) s) [
  | inl (result, tables) ↦ inr (λ j. ground (arith, result, tables, delete_row-links c s.db j))
  | inr (o, refused, tables) ↦ elim (Bool-cases (reaches_server o)) [
    | inr missed ↦ inl (λ j. ground (arith, refused, tables, missed))
    | inl reached ↦ inr (λ j. ground (arith, refused, tables, reached, delete_row-links c s.db j))
  ]
]

pub delete_link_missing :
    (c : String) (s : PgPool) → (delete_link c s).0 ≡ err not_found → row s c ≡ none
unfolding delete_link
delete_link_missing c s h = ground arith

-- impl LinkRepository for sqlx::PgPool
abbrev pub pg_repository : LinkRepository
pg_repository = record {
  Store = PgPool;
  kept_at = map_option timestamptz;
  row = row;
  get_link = get_link;
  link_exists = link_exists;
  create_link = create_link;
  delete_link = delete_link;
  row-get_link = row-get_link;
  get_link_found = get_link_found;
  get_link_missing = get_link_missing;
  row-link_exists = row-link_exists;
  link_exists_absent = link_exists_absent;
  create_link_new = create_link_new;
  row-create_link = row-create_link;
  create_link_failed = create_link_failed;
  create_link_conflict = create_link_conflict;
  row-delete_link = row-delete_link;
  delete_link_failed = delete_link_failed;
  delete_link_missing = delete_link_missing;
}
