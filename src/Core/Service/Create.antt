-- ===== src/Core/Service/Create.antt =====
-- What create_link of core/src/grpc.rs does to the links and to the queue of the cache worker.
use k_url.Prelude.{
  String, false, Option, none, some, Result, ok, err, Result-cases, inl, inr, ◌≡◌, ◌≢◌, ◌∙◌, sym,
  arith, if◌then◌else◌, ◌⊎◌, Bool-cases,
}
use k_url.Prelude.Time.{DateTime}
use k_url.Prelude.Maps.{◌==◌, string_key}
use k_url.Common.DbErrors.{conflict, transient, other, not_found}
use k_url.Common.Rpc.{Status, CreateLinkRequest, CreateLinkResponse, already_exists}
use k_url.Core.Repository.{LinkRepository}
use k_url.Core.Service.{
  AppState, Env, calculate_cache_ttl, has_expired, code_or_generated, timestamp_to_datetime,
  store_link, create_link,
}
use k_url.Core.Service.Codes.{Kept, Kept-refl, generate_short_code_lem}
use k_url.Core.Service.Links.{with_set}

module _ (db : LinkRepository) (env : Env db) where
  -- The code that the request asks for, or a free one, with nothing changed.
  code_or_generated-Kept :
      (c : Option String) (s : AppState db) → Kept db s (code_or_generated db env c s).1
  unfolding code_or_generated
  code_or_generated-Kept (some c) s = Kept-refl db s
  code_or_generated-Kept none s = (generate_short_code_lem db env.samples s).0

  code_or_generated_err :
      (c : Option String) (s : AppState db) (e : Status)
      → (code_or_generated db env c s).0 ≡ err e
      → e.code ≢ already_exists
  unfolding code_or_generated
  code_or_generated_err (some c) s e h a = cc
  code_or_generated_err none s e h a = ground arith

  module _ (now later : DateTime) where
    -- What a success has done: the link is stored under a code that no link had, the others are as
    -- they were, the expiration lies ahead, and the link is queued for the cache.
    pub record Stored (c t : String) (x : Option DateTime) (s s' : AppState db) : Type 0 where
      pub ahead : has_expired x now ≡ false
      pub fresh : db.row s.store c ≡ none
      pub rows :
          (j : String)
          → db.row s'.store j ≡ (
              if c == j
              then some (record { target = t; expiration = db.kept_at x })
              else db.row s.store j)
      pub queue :
          s'.queue ≡ with_set s.tx_open (calculate_cache_ttl env.cache_ttl x later) c t s.queue
      pub tx_open : s'.tx_open ≡ s.tx_open

    store_link_ok :
        (c t : String) (x : Option DateTime) (s : AppState db) (r : CreateLinkResponse)
        → (store_link db env now later c t x s).0 ≡ ok r
        → (r.short_code ≡ c) × Stored c t x s (store_link db env now later c t x s).1
    unfolding store_link
    store_link_ok c t x s r h = elim (Result-cases (db.create_link c t x s.store).0) [
      | inr (e, failed) ↦ ground arith
      | inl (u, stored) ↦ (
        ground arith,
        record {
          ahead = ground arith;
          fresh = ground (arith, db.create_link_new c t x s.store);
          rows = λ j. ground (arith, db.row-create_link c t x j s.store);
          queue = ground arith;
          tx_open = ground arith;
        },
      )
    ]

    -- A link is stored under a code that no link had, and the others are as they were.
    pub record Added (c t : String) (x : Option DateTime) (s s' : AppState db) : Type 0 where
      pub fresh : db.row s.store c ≡ none
      pub rows :
          (j : String)
          → db.row s'.store j ≡ (
              if c == j
              then some (record { target = t; expiration = db.kept_at x })
              else db.row s.store j)

    -- What a failure has done: nothing is queued, and no link has changed, unless the database has
    -- stored the whole link and its answer is lost.
    pub record Failed (q : CreateLinkRequest) (s s' : AppState db) : Type 0 where
      pub queue : s'.queue ≡ s.queue
      pub tx_open : s'.tx_open ≡ s.tx_open
      pub rows :
          ((j : String) → db.row s'.store j ≡ db.row s.store j)
          ⊎ ((c : String) × (x : Option DateTime) × ((code_or_generated db env q.short_code s).0
                ≡ ok c)
              × (timestamp_to_datetime db env q.expiration ≡ ok x)
              × Added c q.target x s s')

    -- A failure queues nothing.
    store_link_err :
        (c t : String) (x : Option DateTime) (s : AppState db) (e : Status)
        → (store_link db env now later c t x s).0 ≡ err e
        → let s' = (store_link db env now later c t x s).1 in
          (s'.queue ≡ s.queue)
          × (s'.tx_open ≡ s.tx_open)
          × (((j : String) → db.row s'.store j ≡ db.row s.store j) ⊎ Added c t x s s')
    unfolding store_link
    store_link_err c t x s e h = elim (Result-cases (db.create_link c t x s.store).0) [
      | inl (u, stored) ↦ (ground arith, ground arith, inl (λ j. ground arith))
      | inr (f, failed) ↦ (
        ground arith,
        ground arith,
        elim (Bool-cases (has_expired x now)) [
          | inl past ↦ inl (λ j. ground (arith, past))
          | inr ahead ↦ elim (db.create_link_failed c t x s.store f failed) [
            | inl same ↦ inl (λ j. ground (arith, ahead, same j))
            | inr (fresh, rows) ↦
                inr (record { fresh = fresh; rows = λ j. ground (arith, ahead, rows j) })
          ]
        ],
      )
    ]

    -- The code `already_exists` is given only where the link is there.
    store_link_conflict :
        (c t : String) (x : Option DateTime) (s : AppState db) (e : Status)
        → (store_link db env now later c t x s).0 ≡ err e
        → e.code ≡ already_exists
        → db.row s.store c ≢ none
    unfolding store_link
    store_link_conflict c t x s e h a = elim (Result-cases (db.create_link c t x s.store).0) [
      | inl (u, stored) ↦ ground arith
      | inr (conflict f, failed) ↦ db.create_link_conflict c t x s.store f failed
      | inr (transient f, failed) ↦ ground arith
      | inr (other f, failed) ↦ ground arith
      | inr (not_found, failed) ↦ ground arith
    ]

    module _ (q : CreateLinkRequest) (s : AppState db) where
      abbrev chosen : Result Status String × AppState db
      chosen = code_or_generated db env q.short_code s

      create_link-store_link :
          (c : String) (x : Option DateTime)
          → chosen.0 ≡ ok c
          → timestamp_to_datetime db env q.expiration ≡ ok x
          → create_link db env now later q s ≡ store_link db env now later c q.target x chosen.1
      unfolding create_link
      create_link-store_link c x e f = rw (e, f)

      Kept-Failed : (s' : AppState db) → Kept db s s' → Failed q s s'
      Kept-Failed s' k = record { queue = k.queue; tx_open = k.tx_open; rows = inl k.rows }

      Added-chosen :
          (c t : String) (x : Option DateTime) (s' : AppState db)
          → Added c t x chosen.1 s'
          → Added c t x s s'
      Added-chosen c t x s' h =
          let k = code_or_generated-Kept q.short_code s in
          record { fresh = sym (k.rows c) ∙ h.fresh; rows = λ j. rw (k.rows j) at (h.rows j) }

      Stored-chosen :
          (c : String) (x : Option DateTime) (s' : AppState db)
          → Stored c q.target x chosen.1 s'
          → Stored c q.target x s s'
      Stored-chosen c x s' h =
          let k = code_or_generated-Kept q.short_code s in
          record {
            ahead = h.ahead;
            fresh = sym (k.rows c) ∙ h.fresh;
            rows = λ j. rw (k.rows j) at (h.rows j);
            queue = rw (k.queue, k.tx_open) at h.queue;
            tx_open = h.tx_open ∙ k.tx_open;
          }

      -- A successful request converts its expiration and leaves the new link stored, under the code
      -- of the reply.
      pub create_link_ok :
          (r : CreateLinkResponse)
          → (create_link db env now later q s).0 ≡ ok r
          → (x : Option DateTime) × (timestamp_to_datetime db env q.expiration ≡ ok x)
            × Stored r.short_code q.target x s (create_link db env now later q s).1
      create_link_ok r h = elim (Result-cases chosen.0) [
        | inr (e, failed) ↦ unfold create_link in ground arith
        | inl (c, found) ↦ elim (Result-cases (timestamp_to_datetime db env q.expiration)) [
          | inr (e, failed) ↦ unfold create_link in ground arith
          | inl (x, converted) ↦
              let e = create_link-store_link c x found converted in
              let stored = store_link_ok c q.target x chosen.1 r (rw e at h) in
              (x, converted, rw (e, stored.0) (Stored-chosen c x _ stored.1))
        ]
      ]

      pub create_link_err :
          (e : Status)
          → (create_link db env now later q s).0 ≡ err e
          → Failed q s (create_link db env now later q s).1
      create_link_err e h = elim (Result-cases chosen.0) [
        | inr (f, failed) ↦
            unfold create_link in rw failed (Kept-Failed _ (code_or_generated-Kept q.short_code s))
        | inl (c, found) ↦ elim (Result-cases (timestamp_to_datetime db env q.expiration)) [
          | inr (f, failed) ↦
              unfold create_link in
              rw (found, failed) (Kept-Failed _ (code_or_generated-Kept q.short_code s))
          | inl (x, converted) ↦
              let e' = create_link-store_link c x found converted in
              let k = code_or_generated-Kept q.short_code s in
              let (queue, tx_open, rows) = store_link_err c q.target x chosen.1 e (rw e' at h) in
              rw e' (record {
                queue = queue ∙ k.queue;
                tx_open = tx_open ∙ k.tx_open;
                rows = elim rows [
                  | inl same ↦ inl (λ j. same j ∙ k.rows j)
                  | inr added ↦ inr (c, x, found, converted, Added-chosen c q.target x _ added)
                ];
              })
        ]
      ]

      -- The answer `already_exists` means that the code is taken.
      pub create_link-already_exists :
          (e : Status)
          → (create_link db env now later q s).0 ≡ err e
          → e.code ≡ already_exists
          → (c : String) × (chosen.0 ≡ ok c) × (db.row s.store c ≢ none)
      create_link-already_exists e h a = elim (Result-cases chosen.0) [
        | inr (f, failed) ↦
            absurd
              (code_or_generated_err q.short_code s f failed (unfold create_link in ground arith))
        | inl (c, found) ↦ (
          c,
          found,
          elim (Result-cases (timestamp_to_datetime db env q.expiration)) [
            | inr (f, failed) ↦ unfold create_link timestamp_to_datetime in ground arith
            | inl (x, converted) ↦
                let e' = create_link-store_link c x found converted in
                λ gone.
                  store_link_conflict c q.target x chosen.1 e (rw e' at h) a
                    ((code_or_generated-Kept q.short_code s).rows c ∙ gone)
          ],
        )
      ]
