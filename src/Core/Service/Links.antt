-- ===== src/Core/Service/Links.antt =====
-- What the handlers of core/src/grpc.rs do to the links and to the queue of the cache worker.
use k_url.Prelude.{
  String, Bool, true, false, List, [], ◌∷◌, ◌++◌, Option, none, some, ok, err, Result-cases, inl,
  inr, ◌⊎◌, ◌≡◌, arith, if◌then◌else◌,
}
use k_url.Prelude.Time.{Duration, DateTime}
use k_url.Prelude.Maps.{◌==◌, string_key}
use k_url.Common.DbErrors.{DbError}
use k_url.Common.Rpc.{
  Status, GetLinkRequest, GetLinkResponse, DeleteLinkRequest, not_found, failed_precondition,
  internal,
}
use k_url.Core.Repository.{Link, LinkRepository}
use k_url.Core.Cache.{CacheOp, set, del}
use k_url.Core.Service.{AppState, Env, calculate_cache_ttl, has_expired, get_link, delete_link}

-- The queue after a set with the time to live that was computed.
abbrev pub with_set : Bool → Option Duration → String → String → List CacheOp → List CacheOp
with_set tx_open ttl key value q = elim ttl [
  | none ↦ q
  | some d ↦ if tx_open then q ++ set key value d ∷ [] else q
]

abbrev pub Expired : Option Link → DateTime → Type 0
Expired none now = ⊥
Expired (some l) now = has_expired l.expiration now ≡ true

module _ (db : LinkRepository) (env : Env db) (now later : DateTime) where
  pub row-get_link :
      (c j : String) (s : AppState db)
      → db.row (get_link db env now later (record { short_code = c }) s).1.store j
        ≡ db.row s.store j
  unfolding get_link
  row-get_link c j s = ground (arith, db.row-get_link c j s.store)

  -- A reply has the target of the stored link, which has not expired, and the link is queued for
  -- the cache with the time to live that is computed for it.
  pub get_link_ok :
      (c : String) (s : AppState db) (r : GetLinkResponse)
      → (get_link db env now later (record { short_code = c }) s).0 ≡ ok r
      → (l : Link) × (db.row s.store c ≡ some l)
        × (r.target ≡ l.target)
        × (has_expired l.expiration now ≡ false)
        × ((get_link db env now later (record { short_code = c }) s).1.queue
            ≡ with_set s.tx_open
                (calculate_cache_ttl env.cache_ttl l.expiration later)
                c
                l.target
                s.queue)
  unfolding get_link
  get_link_ok c s r h = elim (Result-cases (db.get_link c s.store).0) [
    | inl (l, found) ↦
        (l, db.get_link_found c s.store l found, ground arith, ground arith, ground arith)
    | inr (e, failed) ↦ ground arith
  ]

  -- A failed look-up queues nothing, and its code says why: not_found for a code with no link,
  -- failed_precondition for a link that has expired, internal otherwise.
  pub get_link_err :
      (c : String) (s : AppState db) (e : Status)
      → (get_link db env now later (record { short_code = c }) s).0 ≡ err e
      → ((get_link db env now later (record { short_code = c }) s).1.queue ≡ s.queue)
        × (((e.code ≡ not_found) × (db.row s.store c ≡ none))
            ⊎ ((e.code ≡ failed_precondition) × Expired (db.row s.store c) now)
            ⊎ (e.code ≡ internal))
  unfolding get_link
  get_link_err c s e h = elim (Result-cases (db.get_link c s.store).0) [
    | inl (l, found) ↦ (
      ground arith,
      inr (inl (ground arith, rw (db.get_link_found c s.store l found) (ground arith))),
    )
    | inr (DbError.not_found, failed) ↦
        (ground arith, inl (ground arith, db.get_link_missing c s.store failed))
    | inr (DbError.transient x, failed) ↦ (ground arith, inr (inr (ground arith)))
    | inr (DbError.conflict x, failed) ↦ (ground arith, inr (inr (ground arith)))
    | inr (DbError.other x, failed) ↦ (ground arith, inr (inr (ground arith)))
  ]

  pub tx_open-get_link :
      (q : GetLinkRequest) (s : AppState db) → (get_link db env now later q s).1.tx_open ≡ s.tx_open
  unfolding get_link
  tx_open-get_link q s = ground arith

module _ (db : LinkRepository) where
  pub row-delete_link :
      (c j : String) (s : AppState db)
      → (delete_link db (record { short_code = c }) s).0 ≡ ok tt
      → (db.row (delete_link db (record { short_code = c }) s).1.store j
          ≡ (if c == j then none else db.row s.store j))
        × ((delete_link db (record { short_code = c }) s).1.queue
            ≡ (if s.tx_open then s.queue ++ del c ∷ [] else s.queue))
  unfolding delete_link
  row-delete_link c j s h = elim (Result-cases (db.delete_link c s.store).0) [
    | inl (u, done) ↦ (ground (arith, db.row-delete_link c j s.store), ground arith)
    | inr (e, failed) ↦ ground arith
  ]

  -- A failed deletion queues nothing, and leaves the links as they were or, where only its answer is
  -- lost, without the code; not_found says that there was no link.
  pub delete_link_err :
      (c : String) (s : AppState db) (e : Status)
      → (delete_link db (record { short_code = c }) s).0 ≡ err e
      → (((j : String)
            → db.row (delete_link db (record { short_code = c }) s).1.store j ≡ db.row s.store j)
          ⊎ ((j : String)
              → db.row (delete_link db (record { short_code = c }) s).1.store j
                ≡ (if c == j then none else db.row s.store j)))
        × ((delete_link db (record { short_code = c }) s).1.queue ≡ s.queue)
        × (((e.code ≡ not_found) × (db.row s.store c ≡ none)) ⊎ (e.code ≡ internal))
  unfolding delete_link
  delete_link_err c s e h = elim (Result-cases (db.delete_link c s.store).0) [
    | inl (u, done) ↦ ground arith
    | inr (x, failed) ↦ (
      elim (db.delete_link_failed c s.store x failed) [
        | inl same ↦ inl (λ j. ground (arith, same j))
        | inr gone ↦ inr (λ j. ground (arith, gone j))
      ],
      ground arith,
      ground (arith, db.delete_link_missing c s.store),
    )
  ]

  pub tx_open-delete_link :
      (q : DeleteLinkRequest) (s : AppState db) → (delete_link db q s).1.tx_open ≡ s.tx_open
  unfolding delete_link
  tx_open-delete_link q s = ground arith
