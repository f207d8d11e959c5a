-- ===== src/Core/Main/Late.antt =====
-- Requests that core/src/main.rs takes while it shuts down.
use k_url.Common.RedisKeys.{link_cache_key}
use k_url.Core.Cache.{Redis, exited, get, is_open, served, spawn_cache_worker, turn}
use k_url.Core.Main.{
  Process, Request, Steps, answer, closing, delete, ends, handle, handles, is_returned, returned,
  shared, shut_down, signals, start, started, step, waited,
}
use k_url.Core.Main.Shutdown.{Steps-trans, handle-closed, works-Steps}
use k_url.Core.Repository.{LinkRepository}
use k_url.Core.Service.{AppState, Env, delete_link}
use k_url.Core.Service.Links.{row-delete_link}
use k_url.Prelude.{String, [], ap, arith, none, ok, refl, some, ◌∙◌, ◌∷◌, ◌≡◌}
use k_url.Prelude.Maps.{same_refl, string_key}
use k_url.Prelude.Time.{DateTime}

module _ (db : LinkRepository) (env : Env db) where
  -- The process after a signal and the worker's last two turns, which still takes requests.
  unfoldable pub drained : db.Store → Redis → Process db env
  unfolding started shut_down turn
  drained store redis = record (shut_down db env (started db env store redis)) {
    worker = record (shut_down db env (started db env store redis)).worker { phase = exited };
  }

  started-drained :
      (store : db.Store) (redis : Redis) (now : DateTime)
      → Steps db env (started db env store redis) (drained store redis)
  unfolding drained spawn_cache_worker k_url.Core.Cache.step
  started-drained store redis now =
      Steps-trans db env (step start (signals (started db env store redis) refl)) (
        works-Steps db env ((served, now) ∷ (served, now) ∷ [])
          (shut_down db env (started db env store redis)))

  delete_link-succeeds :
      (c : String) (s : AppState db)
      → (db.delete_link c s.store).0 ≡ ok tt
      → (delete_link db (record { short_code = c }) s).0 ≡ ok tt
  unfolding delete_link
  delete_link-succeeds c s h = ground (arith, h)

  gone_row :
      (store : db.Store) (redis : Redis) (c : String)
      → (db.delete_link c store).0 ≡ ok tt
      → db.row
          (handle db env (delete (record { short_code = c })) (drained store redis)).app.store
          c
        ≡ none
  unfolding handle answer shared drained
  gone_row store redis c h =
      let s = shared db env (drained store redis) in
      ground (arith, (row-delete_link db c c s (delete_link-succeeds c s h)).0, same_refl c)

  same_worker :
      (store : db.Store) (redis : Redis) (r : Request db env)
      → (handle db env r (drained store redis)).worker ≡ (drained store redis).worker
  unfolding drained is_open
  same_worker store redis r = handle-closed db env r (drained store redis) refl

  -- While main waits for its worker, and after, the server still takes requests. A link that is
  -- deleted then is gone from the links, but the target that Redis has for it stays there, since the
  -- worker takes no more operations: in some run it outlives main.
  pub deleted_late-cached :
      (store : db.Store) (redis : Redis) (c v : String) (now : DateTime)
      → get redis (link_cache_key c) now ≡ some v
      → (db.delete_link c store).0 ≡ ok tt
      → (p : Process db env) × Steps db env (started db env store redis) p
        × (p.stage ≡ returned)
        × (db.row p.app.store c ≡ none)
        × (get p.worker.redis (link_cache_key c) now ≡ some v)
  unfolding is_returned drained handle
  deleted_late-cached store redis c v now cached_c deletes =
      let before = drained store redis in
      let same = same_worker store redis (delete (record { short_code = c })) in
      let after = handle db env (delete (record { short_code = c })) before in
      (
        record after { stage = returned },
        step
            (step
              (step (started-drained store redis now)
                (handles (delete (record { short_code = c })) before refl))
              (waited after refl (ap (λ w. w.phase) same)))
            (ends (record after { stage = closing }) refl),
        refl,
        gone_row store redis c deletes,
        ap (λ w. get w.redis (link_cache_key c) now) same ∙ cached_c,
      )
