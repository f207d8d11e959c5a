-- ===== src/Core/Cache/Ends.antt =====
-- A cancelled worker of core/src/cache.rs ends.
use k_url.Prelude.{ℕ, ◌+◌, ◌-◌, ◌≤◌, true, List, [], ◌∷◌, ◌≡◌, refl, arith, length}
use k_url.Prelude.Time.{DateTime}
use k_url.Core.Cache.{
  CacheOp, Answer, Phase, Worker, Event, running, draining, exited, polls, turn, step,
  spawn_cache_worker,
}
use k_url.Core.Cache.Delivery.{IsSettled}

-- The turns that a cancelled worker has left.
abbrev pub left : Phase → ℕ
left running = 2
left draining = 1
left exited = 0

turn-left :
    (p : Phase) (q : List CacheOp) (a : Answer) (t : DateTime) (w : Worker)
    → w.phase ≡ p
    → w.queue ≡ q
    → w.cancelled ≡ true
    → (p ≡ exited → q ≡ [])
    → (length (turn p q a t w).queue + left (turn p q a t w).phase ≤ length q + left p - 1)
      × ((turn p q a t w).cancelled ≡ true)
      × ((turn p q a t w).phase ≡ exited → (turn p q a t w).queue ≡ [])
unfolding turn
turn-left exited q a t w hp hq c s = ground (arith, s refl)
turn-left running [] a t w hp hq c s = ground arith
turn-left running (op ∷ rest) a t w hp hq c s = rw hp (omega arith, c, λ x. cc)
turn-left draining [] a t w hp hq c s = rw hq (omega arith, c, λ x. refl)
turn-left draining (op ∷ rest) a t w hp hq c s = rw hp (omega arith, c, λ x. cc)

abbrev pub polled : List (Answer × DateTime) → List Event
polled [] = []
polled ((a, t) ∷ rs) = polls a t ∷ polled rs

left-exited : (p : Phase) → left p ≤ 0 → p ≡ exited
left-exited running h = absurd (omega arith)
left-exited draining h = absurd (omega arith)
left-exited exited h = refl

-- A cancelled worker ends after a turn for each queued operation and two more, however Redis
-- answers.
pub cancelled-exits :
    (w : Worker) (rs : List (Answer × DateTime))
    → IsSettled w
    → w.cancelled ≡ true
    → length w.queue + left w.phase ≤ length rs
    → (spawn_cache_worker w (polled rs)).phase ≡ exited
unfolding spawn_cache_worker step
cancelled-exits w [] s c h = left-exited w.phase (omega arith)
cancelled-exits w ((a, t) ∷ rs) s c h =
    let m = turn-left w.phase w.queue a t w refl refl c s in
    cancelled-exits (turn w.phase w.queue a t w) rs m.2 m.1 (omega (arith, m.0))
