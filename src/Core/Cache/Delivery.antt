-- ===== src/Core/Cache/Delivery.antt =====
-- The queue of core/src/cache.rs loses nothing: what it accepted is tried, in order, before the
-- worker ends.
use mathlib.Core.List.{append_assoc, append-nil}
use k_url.Prelude.{◌&&◌, List, [], ◌∷◌, ◌++◌, ◌≡◌, refl, sym, ap, ◌∙◌, arith, if◌then◌else◌, map}
use k_url.Prelude.Time.{DateTime}
use k_url.Core.Cache.{
  CacheOp, Answer, Phase, Worker, Event, running, draining, exited, sends, drops_senders, cancels,
  polls, is_open, turn, step, spawn_cache_worker, Redis, process_op, send,
}

-- The operation that an event puts into the queue.
unfoldable pub accepts : Worker → Event → List CacheOp
unfolding is_open
accepts w (sends op) = if w.senders && is_open w.phase then op ∷ [] else []
accepts w _ = []

takes : Phase → List CacheOp → List CacheOp
takes exited queue = []
takes _ [] = []
takes _ (op ∷ rest) = op ∷ []

-- The operation that an event hands to `process_op`.
unfoldable pub applies : Worker → Event → List CacheOp
unfolding takes
applies w (polls answer now) = takes w.phase w.queue
applies w _ = []

-- The operations of a history, in order.
pub accepted : Worker → List Event → List CacheOp
accepted w [] = []
accepted w (e ∷ es) = accepts w e ++ accepted (step w e) es

pub applied : Worker → List Event → List CacheOp
applied w [] = []
applied w (e ∷ es) = applies w e ++ applied (step w e) es

turn-queue :
    (p : Phase) (q : List CacheOp) (a : Answer) (t : DateTime) (w : Worker)
    → w.queue ≡ q
    → q ≡ takes p q ++ (turn p q a t w).queue
unfolding takes turn
turn-queue exited q a t w h = sym h
turn-queue running [] a t w h = ground arith
turn-queue running (op ∷ rest) a t w h = refl
turn-queue draining [] a t w h = sym h
turn-queue draining (op ∷ rest) a t w h = refl

step-queue : (w : Worker) (e : Event) → w.queue ++ accepts w e ≡ applies w e ++ (step w e).queue
unfolding accepts applies step
step-queue w (sends op) = ground (arith, append-nil w.queue)
step-queue w drops_senders = append-nil w.queue
step-queue w cancels = append-nil w.queue
step-queue w (polls a t) = append-nil w.queue ∙ turn-queue w.phase w.queue a t w refl

-- Whatever happens, the operations that were queued or accepted are those that were applied,
-- followed by those still queued: in order, none lost and none twice.
pub fifo :
    (w : Worker) (es : List Event)
    → w.queue ++ accepted w es ≡ applied w es ++ (spawn_cache_worker w es).queue
unfolding accepted applied spawn_cache_worker
fifo w [] = append-nil w.queue
fifo w (e ∷ es) =
    sym (append_assoc w.queue (accepts w e) (accepted (step w e) es))
    ∙ ap (λ q. q ++ accepted (step w e) es) (step-queue w e)
    ∙ append_assoc (applies w e) (step w e).queue (accepted (step w e) es)
    ∙ ap (λ q. applies w e ++ q) (fifo (step w e) es)
    ∙ sym (
        append_assoc (applies w e) (applied (step w e) es) (spawn_cache_worker (step w e) es).queue)

-- An ended worker has nothing queued.
abbrev pub IsSettled : Worker → Type 0
IsSettled w = w.phase ≡ exited → w.queue ≡ []

pub turn-IsSettled :
    (p : Phase) (q : List CacheOp) (a : Answer) (t : DateTime) (w : Worker)
    → w.phase ≡ p
    → w.queue ≡ q
    → IsSettled w
    → IsSettled (turn p q a t w)
unfolding turn
turn-IsSettled exited q a t w hp hq h = h
turn-IsSettled running [] a t w hp hq h = ground arith
turn-IsSettled running (op ∷ rest) a t w hp hq h = λ x. cc
turn-IsSettled draining [] a t w hp hq h = λ x. hq
turn-IsSettled draining (op ∷ rest) a t w hp hq h = λ x. cc

step-IsSettled : (w : Worker) (e : Event) → IsSettled w → IsSettled (step w e)
unfolding step
step-IsSettled w (sends op) h = λ x. ground (arith, h)
step-IsSettled w drops_senders h = h
step-IsSettled w cancels h = h
step-IsSettled w (polls a t) h = turn-IsSettled w.phase w.queue a t w refl refl h

spawn-IsSettled : (w : Worker) (es : List Event) → IsSettled w → IsSettled (spawn_cache_worker w es)
unfolding spawn_cache_worker
spawn-IsSettled w [] h = h
spawn-IsSettled w (e ∷ es) h = spawn-IsSettled (step w e) es (step-IsSettled w e h)

pub turn-cancelled :
    (p : Phase) (q : List CacheOp) (a : Answer) (t : DateTime) (w : Worker)
    → (turn p q a t w).cancelled ≡ w.cancelled
unfolding turn
turn-cancelled exited q a t w = refl
turn-cancelled running [] a t w = ground arith
turn-cancelled running (op ∷ rest) a t w = refl
turn-cancelled draining [] a t w = refl
turn-cancelled draining (op ∷ rest) a t w = refl

-- An operation that the worker has tried, with the answer of Redis and the instant.
abbrev pub Tried : Type 0
Tried = Answer × DateTime × CacheOp

tries : Phase → List CacheOp → Answer → DateTime → List Tried
tries exited queue a t = []
tries _ [] a t = []
tries _ (op ∷ rest) a t = (a, t, op) ∷ []

pub tried : Worker → List Event → List Tried
tried w [] = []
tried w (polls a t ∷ es) = tries w.phase w.queue a t ++ tried (step w (polls a t)) es
tried w (e ∷ es) = tried (step w e) es

-- What `process_op` makes of Redis, one operation after the other.
pub process_all : List Tried → Redis → Redis
process_all [] redis = redis
process_all ((a, t, op) ∷ ops) redis = process_all ops (process_op a t op redis)

abbrev pub ops_of : List Tried → List CacheOp
ops_of ops = map (λ x. x.2) ops

tries-takes :
    (p : Phase) (q : List CacheOp) (a : Answer) (t : DateTime) (more : List Tried)
    → ops_of (tries p q a t ++ more) ≡ takes p q ++ ops_of more
unfolding tries takes
tries-takes exited q a t more = refl
tries-takes running [] a t more = refl
tries-takes running (op ∷ rest) a t more = refl
tries-takes draining [] a t more = refl
tries-takes draining (op ∷ rest) a t more = refl

turn-redis :
    (p : Phase) (q : List CacheOp) (a : Answer) (t : DateTime) (w : Worker) (more : List Tried)
    → process_all (tries p q a t ++ more) w.redis ≡ process_all more (turn p q a t w).redis
unfolding tries process_all turn
turn-redis exited q a t w more = refl
turn-redis running [] a t w more = ground arith
turn-redis running (op ∷ rest) a t w more = refl
turn-redis draining [] a t w more = refl
turn-redis draining (op ∷ rest) a t w more = refl

tried-applied : (w : Worker) (es : List Event) → ops_of (tried w es) ≡ applied w es
unfolding tried applied applies
tried-applied w [] = refl
tried-applied w (sends op ∷ es) = tried-applied (step w (sends op)) es
tried-applied w (drops_senders ∷ es) = tried-applied (step w drops_senders) es
tried-applied w (cancels ∷ es) = tried-applied (step w cancels) es
tried-applied w (polls a t ∷ es) =
    tries-takes w.phase w.queue a t (tried (step w (polls a t)) es)
    ∙ ap (λ ops. takes w.phase w.queue ++ ops) (tried-applied (step w (polls a t)) es)

spawn-redis :
    (w : Worker) (es : List Event)
    → (spawn_cache_worker w es).redis ≡ process_all (tried w es) w.redis
unfolding tried process_all spawn_cache_worker step send
spawn-redis w [] = refl
spawn-redis w (sends op ∷ es) =
    spawn-redis (step w (sends op)) es
    ∙ ap (λ r. process_all (tried (step w (sends op)) es) r) (ground arith)
spawn-redis w (drops_senders ∷ es) = spawn-redis (step w drops_senders) es
spawn-redis w (cancels ∷ es) = spawn-redis (step w cancels) es
spawn-redis w (polls a t ∷ es) =
    spawn-redis (step w (polls a t)) es
    ∙ sym (turn-redis w.phase w.queue a t w (tried (step w (polls a t)) es))

-- When the worker has ended, it has tried all that its queue held or accepted, in order and each
-- once, and Redis is what process_op makes of it with these operations and the answers that they met.
pub exited-applied :
    (w : Worker) (es : List Event)
    → IsSettled w
    → (spawn_cache_worker w es).phase ≡ exited
    → (w.queue ++ accepted w es ≡ ops_of (tried w es))
      × ((spawn_cache_worker w es).redis ≡ process_all (tried w es) w.redis)
exited-applied w es h x = (
  fifo w es
      ∙ ap (λ q. applied w es ++ q) (spawn-IsSettled w es h x)
      ∙ append-nil (applied w es)
      ∙ sym (tried-applied w es),
  spawn-redis w es,
)
