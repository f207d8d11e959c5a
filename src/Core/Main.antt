-- ===== src/Core/Main.antt =====
-- core/src/main.rs: the process from the start of the server to its end. The server takes requests
-- until its shutdown future is done, which first cancels the cache worker and waits for it.
pub mod Shutdown
pub mod Late
use k_url.Analytics.EventConsumer.Loop.{worker}
use k_url.Common.Rpc.{CreateLinkRequest, DeleteLinkRequest, GetLinkRequest}
use k_url.Core.Cache.{Answer, Redis, Worker, exited, is_open, running, turn}
use k_url.Core.Repository.{LinkRepository}
use k_url.Core.Service.{AppState, Env, create_link, delete_link, get_link}
use k_url.Prelude.{Bool, String, [], false, true, ◌≡◌}
use k_url.Prelude.Time.{DateTime}

-- How far main is: the server runs, a signal has come and `task_tracker.wait()` is awaited, the server
-- takes no new connection and answers what it has, or main has returned.
pub data Stage : Type 0 where
  serving waiting closing returned : Stage

unfoldable pub is_returned : Stage → Bool
is_returned serving = false
is_returned waiting = false
is_returned closing = false
is_returned returned = true

module _ (db : LinkRepository) (env : Env db) where
  -- What the server is asked to do, with the instants that its handler reads.
  pub data Request : Type 0 where
    create : DateTime → DateTime → CreateLinkRequest → Request
    lookup_link : DateTime → DateTime → GetLinkRequest → Request
    delete : DeleteLinkRequest → Request

  unfoldable pub answer : Request → AppState db → AppState db
  answer (create now later r) s = (create_link db env now later r s).1
  answer (lookup_link now later r) s = (get_link db env now later r s).1
  answer (delete r) s = (delete_link db r s).1

  pub record Process : Type 0 where
    pub stage : Stage
    pub app : AppState db
    pub worker : Worker

  -- The state that the handlers reach: the channel is that of the worker.
  unfoldable pub shared : Process → AppState db
  unfolding is_open
  shared p = record p.app { tx_open = is_open p.worker.phase; queue = p.worker.queue }

  unfoldable pub handle : Request → Process → Process
  unfolding answer shared
  handle r p =
      let s = answer r (shared p) in
      record p { app = s; worker = record p.worker { queue = s.queue } }

  -- `shutdown.cancel()` and `task_tracker.close()` in the shutdown future, after the signal.
  unfoldable pub shut_down : Process → Process
  shut_down p = record p { stage = waiting; worker = record p.worker { cancelled = true } }

  pub data Step : Process → Process → Type 0 where
    handles : (r : Request) (p : Process) → is_returned p.stage ≡ false → Step p (handle r p)
    works :
        (a : Answer) (now : DateTime) (p : Process)
        → Step p (record p { worker = turn p.worker.phase p.worker.queue a now p.worker })
    signals : (p : Process) → p.stage ≡ serving → Step p (shut_down p)
    waited :
        (p : Process)
        → p.stage ≡ waiting
        → p.worker.phase ≡ exited
        → Step p (record p { stage = closing })
    ends : (p : Process) → p.stage ≡ closing → Step p (record p { stage = returned })

  pub data Steps (p : Process) : Process → Type 0 where
    start : Steps p p
    step : {q r : Process} → Steps p q → Step q r → Steps p r

  -- The process when the server starts to take requests.
  unfoldable pub started : db.Store → Redis → Process
  started store redis = record {
    stage = serving;
    app = record { store = store; tx_open = true; queue = []; drawn = 0 };
    worker = record {
      phase = running;
      cancelled = false;
      senders = true;
      queue = [];
      redis = redis;
    };
  }
