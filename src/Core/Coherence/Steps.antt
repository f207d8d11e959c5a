-- ===== src/Core/Coherence/Steps.antt =====
-- Every step of the handlers and the worker keeps the cache coherent with the links.
use k_url.Prelude.{
  String, true, List, [], ◌∷◌, Option, none, some, Result-cases, inl, inr, ◌⊎◌, ◌≡◌, refl, sym, ◌∙◌,
  arith, err,
}
use k_url.Prelude.Time.{Duration, DateTime}
use k_url.Prelude.Maps.{string_key, same_refl}
use k_url.Common.Rpc.{CreateLinkRequest}
use k_url.Common.RedisKeys.{link_cache_key}
use k_url.Core.Repository.{Link, LinkRepository}
use k_url.Core.Cache.{CacheOp, Redis, get, process_op, Answer}
use k_url.Core.Service.{AppState, Env, calculate_cache_ttl, create_link, get_link, delete_link}
use k_url.Core.Service.Links.{
  with_set, get_link_ok, get_link_err, row-get_link, tx_open-get_link, row-delete_link,
  delete_link_err, tx_open-delete_link,
}
use k_url.Core.Service.Create.{create_link_ok, create_link_err}
use mathlib.Core.Path.{subst}
use k_url.Core.Coherence.{IsKept, cached, MayHold, MayHold-del, MayHold-process_op, MayHold-set}
use k_url.Common.Rpc.{Status}

module _ (db : LinkRepository) (env : Env db) where
  pub record System : Type 0 where
    pub app : AppState db
    pub redis : Redis

  -- The value that the cache may hold for a code when the queue has been worked off.
  abbrev MayBe : System → String → String → Type 0
  MayBe s c w = MayHold s.app.queue c (cached s.redis c) w

  -- One request, or one operation of the worker. A deletion that fails has left the links, and one that
  -- the worker takes from its queue is carried out.
  pub data Step : System → System → Type 0 where
    creates :
        (now later : DateTime) (q : CreateLinkRequest) (s : System)
        → Step s (record s { app = (create_link db env now later q s.app).1 })
    gets :
        (now later : DateTime) (c : String) (s : System)
        → Step s
            (record s { app = (get_link db env now later (record { short_code = c }) s.app).1 })
    deletes :
        (c : String) (s : System)
        → ((e : Status)
            → (delete_link db (record { short_code = c }) s.app).0 ≡ err e
            → (j : String)
            → db.row (delete_link db (record { short_code = c }) s.app).1.store j
              ≡ db.row s.app.store j)
        → Step s (record s { app = (delete_link db (record { short_code = c }) s.app).1 })
    works :
        (a : Answer) (now : DateTime) (op : CacheOp) (rest : List CacheOp) (s : System)
        → s.app.queue ≡ op ∷ rest
        → IsKept op a
        → Step s
            (record { app = record s.app { queue = rest }; redis = process_op a now op s.redis })

  pub data Reach (s : System) : System → Type 0 where
    here : Reach s s
    next : {t u : System} → Reach s t → Step t u → Reach s u

  -- The worker takes operations, and what the cache may hold for a code is the target of its link.
  pub record IsCoherent (s : System) : Type 0 where
    pub open_channel : s.app.tx_open ≡ true
    pub backed :
        (c v : String) → MayBe s c v → (l : Link) × (db.row s.app.store c ≡ some l) × (l.target ≡ v)

  module _ (s : System) (h : IsCoherent s) where
    -- A step that keeps the links and adds nothing to what the cache may hold.
    keep :
        (u : System)
        → u.app.tx_open ≡ s.app.tx_open
        → ((j : String) → db.row u.app.store j ≡ db.row s.app.store j)
        → ((c v : String) → MayBe u c v → MayBe s c v)
        → IsCoherent u
    keep u e rows pend = record {
      open_channel = e ∙ h.open_channel;
      backed = λ c v p.
          let (l, stored, target) = h.backed c v (pend c v p) in (l, rows c ∙ stored, target);
    }

    works-IsCoherent :
        (a : Answer) (now : DateTime) (op : CacheOp) (rest : List CacheOp)
        → s.app.queue ≡ op ∷ rest
        → IsKept op a
        → IsCoherent
            (record { app = record s.app { queue = rest }; redis = process_op a now op s.redis })
    works-IsCoherent a now op rest q kept =
        keep _ refl (λ j. refl)
          (λ c v p.
            subst (λ ops. MayHold ops c (cached s.redis c) v) (sym q)
              (MayHold-process_op a now op rest s.redis c v kept p))

    with_set-MayBe :
        (o : Option Duration) (k v c : String)
        → (w : String) → MayHold (with_set true o k v s.app.queue) c (cached s.redis c) w
        → ((k ≡ c) × (v ≡ w)) ⊎ MayBe s c w
    with_set-MayBe none k v c w p = inr p
    with_set-MayBe (some d) k v c w p = MayHold-set s.app.queue k v d c (cached s.redis c) w p

    gets-IsCoherent :
        (now later : DateTime) (c : String)
        → IsCoherent
            (record s { app = (get_link db env now later (record { short_code = c }) s.app).1 })
    gets-IsCoherent now later c =
        elim (Result-cases (get_link db env now later (record { short_code = c }) s.app).0) [
          | inr (e, failed) ↦
              let (q, why) = get_link_err db env now later c s.app e failed in
              keep _ (tx_open-get_link db env now later (record { short_code = c }) s.app)
                (λ j. row-get_link db env now later c j s.app)
                (λ j v p. subst (λ ops. MayHold ops j (cached s.redis j) v) q p)
          | inl (r, found) ↦
              let p = get_link_ok db env now later c s.app r found in
              record {
                open_channel =
                    tx_open-get_link db env now later (record { short_code = c }) s.app
                    ∙ h.open_channel;
                backed = λ j w x.
                    elim (with_set-MayBe (calculate_cache_ttl env.cache_ttl p.0.expiration later) c
                      p.0.target j w (rw (p.4, h.open_channel) at x)) [
                        | inl (same, target) ↦
                            (p.0, rw (row-get_link db env now later c j s.app, ← same) p.1, target)
                        | inr before ↦
                            let (l, stored, target) = h.backed j w before in
                            (l, row-get_link db env now later c j s.app ∙ stored, target)
                      ];
              }
        ]

    creates-IsCoherent :
        (now later : DateTime) (q : CreateLinkRequest)
        → IsCoherent (record s { app = (create_link db env now later q s.app).1 })
    creates-IsCoherent now later q = elim (Result-cases (create_link db env now later q s.app).0) [
      | inr (e, failed) ↦
          let k = create_link_err db env now later q s.app e failed in
          let same : (j v : String)
              → MayHold (create_link db env now later q s.app).1.queue j (cached s.redis j) v
              → MayBe s j v =
            λ j v p. subst (λ ops. MayHold ops j (cached s.redis j) v) k.queue p in
          elim k.rows [
            | inl rows ↦ keep _ k.tx_open rows same
            | inr (code, x, found, converted, added) ↦ record {
              open_channel = k.tx_open ∙ h.open_channel;
              backed = λ j w y.
                  let (l, there, target) = h.backed j w (same j w y) in
                  (
                    l,
                    ground (arith, added.rows j, added.fresh, there, string_key.same_iff code j),
                    target,
                  );
            }
          ]
      | inl (r, done) ↦
          let (x, converted, stored) = create_link_ok db env now later q s.app r done in
          record {
            open_channel = stored.tx_open ∙ h.open_channel;
            backed = λ j w y.
                elim (with_set-MayBe (calculate_cache_ttl env.cache_ttl x later) r.short_code
                  q.target j w (rw (stored.queue, h.open_channel) at y)) [
                    | inl (same, target) ↦ (
                      record { target = q.target; expiration = db.kept_at x },
                      rw (stored.rows j, same, same_refl j) refl,
                      target,
                    )
                    | inr before ↦
                        let (l, there, target) = h.backed j w before in
                        (
                          l,
                          ground (
                            arith,
                            stored.rows j,
                            stored.fresh,
                            there,
                            string_key.same_iff r.short_code j,
                          ),
                          target,
                        )
                  ];
          }
    ]

    deletes-IsCoherent :
        (c : String)
        → ((e : Status)
            → (delete_link db (record { short_code = c }) s.app).0 ≡ err e
            → (j : String)
            → db.row (delete_link db (record { short_code = c }) s.app).1.store j
              ≡ db.row s.app.store j)
        → IsCoherent (record s { app = (delete_link db (record { short_code = c }) s.app).1 })
    deletes-IsCoherent c left =
        elim (Result-cases (delete_link db (record { short_code = c }) s.app).0) [
          | inr (e, failed) ↦
              let (rows, queue, why) = delete_link_err db c s.app e failed in
              keep _ (tx_open-delete_link db (record { short_code = c }) s.app) (left e failed)
                (λ j v p. subst (λ ops. MayHold ops j (cached s.redis j) v) queue p)
          | inl (u, done) ↦
              let gone = λ (j : String). row-delete_link db c j s.app done in
              record {
                open_channel =
                    tx_open-delete_link db (record { short_code = c }) s.app ∙ h.open_channel;
                backed = λ j w y.
                    let p =
                      MayHold-del s.app.queue c j (cached s.redis j) w
                        (rw ((gone j).1, h.open_channel) at y) in
                    let (l, there, target) = h.backed j w p.1 in
                    (l, (gone j).0 ∙ rw p.0 there, target);
              }
        ]

  Step-IsCoherent : {s u : System} → Step s u → IsCoherent s → IsCoherent u
  Step-IsCoherent (creates now later q s) h = creates-IsCoherent s h now later q
  Step-IsCoherent (gets now later c s) h = gets-IsCoherent s h now later c
  Step-IsCoherent (deletes c s left) h = deletes-IsCoherent s h c left
  Step-IsCoherent (works a now op rest s q kept) h = works-IsCoherent s h a now op rest q kept

  pub Reach-IsCoherent : {s u : System} → IsCoherent s → Reach s u → IsCoherent u
  Reach-IsCoherent h here = h
  Reach-IsCoherent h (next r st) = Step-IsCoherent st (Reach-IsCoherent h r)

  get-cached :
      (redis : Redis) (c v : String) (now : DateTime)
      → get redis (link_cache_key c) now ≡ some v
      → cached redis c ≡ some v
  unfolding get
  get-cached redis c v now h = ground arith

  -- From a coherent start, with the channel of the worker open, after any requests and turns of the worker in which each request is handled
  -- in one piece, a deletion that fails has left the links as they were, and each queued `Del` is
  -- carried out, while any `Set` may fail: once the queue is worked off, a value that Redis gives for a
  -- code is the target of the link stored under it.
  pub cache_follows_links :
      (s u : System) (c v : String) (now : DateTime)
      → IsCoherent s
      → Reach s u
      → u.app.queue ≡ []
      → get u.redis (link_cache_key c) now ≡ some v
      → (l : Link) × (db.row u.app.store c ≡ some l) × (l.target ≡ v)
  cache_follows_links s u c v now h r q g =
      (Reach-IsCoherent h r).backed c v (rw q (get-cached u.redis c v now g))
