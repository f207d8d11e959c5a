-- ===== src/Analytics/EventConsumer/Steps.antt =====
-- What the handling of one entry leaves in Redis, whatever its commands meet.
use k_url.Analytics.EventConsumer.{
  ClickCodec, Worker, count_outcome, parse_click_event, process_entry, with_redis,
}
use k_url.Analytics.EventConsumer.Queue.{one_if_click}
use k_url.Analytics.Redis.{
  RedisError, RedisPool, Store, StreamId, acknowledge, has, hincrby, hset, script, without, xack,
  xack_del, xdel,
}
use k_url.Analytics.Redis.Commands.{command-cases, command-store}
use k_url.Analytics.Redis.Counters.{all_clicks, hincrby-all_clicks}
use k_url.Analytics.RedisStats.{
  EventOutcome, already_handled, applied, drop_click_event, keep_latest, record_click,
  record_click_event,
}
use k_url.Analytics.RedisStats.Once.{keys_differ, not_pending, was_pending}
use k_url.Common.Events.{ClickEvent}
use k_url.Common.RedisKeys.{global_stats_key, link_last_clicked_at_key, link_stats_key}
use k_url.Prelude.{
  Bool, Bool-cases, List, Option-cases, Result, String, ap, arith, err, false, inl, inr, none, ok,
  refl, some, true, ◌++◌, ◌+◌, ◌≡◌, ◌⊎◌,
}
use k_url.Prelude.Int.{ℤ}
use k_url.Prelude.Maps.{same_refl, string_key}

-- The entries that wait to be counted: those delivered, and those to deliver.
abbrev pub queued : Store → List StreamId
queued r = r.pending ++ r.incoming

-- Redis after the handling of `e`: `e` has been taken out of the pending entries, and counted if it
-- holds a click, or nothing has happened.
abbrev pub Handled : ClickCodec → StreamId → Store → Store → Type 0
Handled codec e before now =
    (now.incoming ≡ before.incoming)
    × (((has e.id before.pending ≡ true)
          × (now.pending ≡ without e.id before.pending)
          × (all_clicks global_stats_key now
              ≡ all_clicks global_stats_key before + one_if_click (parse_click_event codec e)))
        ⊎ ((now.pending ≡ before.pending)
            × (all_clicks global_stats_key now ≡ all_clicks global_stats_key before)))

record_click-queue :
    (last id day code : String) (ts : ℤ) (r : Store)
    → let now = (record_click global_stats_key (link_stats_key code) last id day ts r).1 in
      (now.incoming ≡ r.incoming)
      × (((has id r.pending ≡ true)
            × (now.pending ≡ without id r.pending)
            × (all_clicks global_stats_key now ≡ all_clicks global_stats_key r + 1))
          ⊎ ((now.pending ≡ r.pending)
              × (all_clicks global_stats_key now ≡ all_clicks global_stats_key r)))
unfolding all_clicks xdel keep_latest hincrby hset
record_click-queue last id day code ts r = elim (Bool-cases (has id r.pending)) [
  | inl p ↦
      let acked : Store = record r { pending = without id r.pending } in
      rw (was_pending global_stats_key (link_stats_key code) last id day ts r p) (
        ground arith,
        inl (
          p,
          ground arith,
          ground (
            arith,
            hincrby-all_clicks global_stats_key day global_stats_key acked,
            hincrby-all_clicks (link_stats_key code) day global_stats_key
                (hincrby global_stats_key day acked),
            same_refl global_stats_key,
            keys_differ code,
            string_key.same_iff (link_stats_key code) global_stats_key,
            string_key.same_iff global_stats_key (link_stats_key code),
          ),
        ),
      )
  | inr p ↦
      rw (not_pending global_stats_key (link_stats_key code) last id day ts r p)
        (refl, inr (refl, refl))
]

xack_del-queue :
    (id : String) (r : Store)
    → let now = xack_del id r in
      (now.incoming ≡ r.incoming)
      × (all_clicks global_stats_key now ≡ all_clicks global_stats_key r)
      × (((has id r.pending ≡ true) × (now.pending ≡ without id r.pending))
          ⊎ (now.pending ≡ r.pending))
unfolding xack_del xack xdel all_clicks
xack_del-queue id r = by_pending (has id r.pending) refl
  where
    by_pending :
        (b : Bool)
        → has id r.pending ≡ b
        → let now = xack_del id r in
          (now.incoming ≡ r.incoming)
          × (all_clicks global_stats_key now ≡ all_clicks global_stats_key r)
          × (((has id r.pending ≡ true) × (now.pending ≡ without id r.pending))
              ⊎ (now.pending ≡ r.pending))
    by_pending true p = (ground arith, ground arith, inl (p, ground arith))
    by_pending false p = (ground arith, ground arith, inr (ground arith))

module _ (codec : ClickCodec) where
  same-Handled : (e : StreamId) (r now : Store) → now ≡ r → Handled codec e r now
  same-Handled e r now p = (
    ap (λ x. x.incoming) p,
    inr (ap (λ x. x.pending) p, ap (λ x. all_clicks global_stats_key x) p),
  )

  pub record-Handled :
      (e : StreamId) (event : ClickEvent) (pool : RedisPool)
      → parse_click_event codec e ≡ some event
      → Handled codec e pool.store
          (record_click_event codec.format_day codec.timestamp_millis e.id event pool).1.store
  unfolding record_click_event
  record-Handled e event pool h =
      let run =
        record_click global_stats_key (link_stats_key event.short_code)
          (link_last_clicked_at_key event.short_code) e.id (codec.format_day event.at)
          (codec.timestamp_millis event.at) in
      let queue =
        record_click-queue (link_last_clicked_at_key event.short_code) e.id
          (codec.format_day event.at) event.short_code (codec.timestamp_millis event.at)
          pool.store in
      elim (command-cases script run pool) [
        | inl p ↦ rw (p, h) queue
        | inr (inl p) ↦ rw (p, h) (refl, inr (refl, refl))
        | inr (inr p) ↦ rw (p, h) queue
      ]

  pub drop-Handled :
      (e : StreamId) (pool : RedisPool)
      → parse_click_event codec e ≡ none
      → Handled codec e pool.store (drop_click_event e.id pool).1.store
  unfolding drop_click_event
  drop-Handled e pool h =
      let run : Store → Unit {0} × Store = λ r. (tt, xack_del e.id r) in
      let queue = xack_del-queue e.id pool.store in
      elim (command-store acknowledge run pool) [
        | inl p ↦ rw (p, h) ground (arith, queue)
        | inr p ↦ same-Handled e pool.store _ p
      ]

  count_outcome-redis :
      (r : Result RedisError EventOutcome) (w : Worker) → (count_outcome codec r w).redis ≡ w.redis
  unfolding count_outcome
  count_outcome-redis (ok applied) w = refl
  count_outcome-redis (ok already_handled) w = refl
  count_outcome-redis (err error) w = refl

  pub process_entry-none :
      (e : StreamId) (w : Worker)
      → parse_click_event codec e ≡ none
      → (process_entry codec e w).redis ≡ (drop_click_event e.id w.redis).1
  unfolding process_entry with_redis
  process_entry-none e w h = rw (h, process_entry) refl

  pub process_entry-some :
      (e : StreamId) (event : ClickEvent) (w : Worker)
      → parse_click_event codec e ≡ some event
      → (process_entry codec e w).redis
        ≡ (record_click_event codec.format_day codec.timestamp_millis e.id event w.redis).1
  unfolding process_entry with_redis
  process_entry-some e event w h =
      let run = record_click_event codec.format_day codec.timestamp_millis e.id event w.redis in
      rw (h, process_entry) (count_outcome-redis run.0 (record w { redis = run.1 }))

  -- One entry is handled, whatever its commands meet.
  pub process_entry-Handled :
      (e : StreamId) (w : Worker)
      → Handled codec e w.redis.store (process_entry codec e w).redis.store
  process_entry-Handled e w = elim (Option-cases (parse_click_event codec e)) [
    | inl h ↦ rw (process_entry-none e w h) (drop-Handled e w.redis h)
    | inr (event, h) ↦ rw (process_entry-some e event w h) (record-Handled e event w.redis h)
  ]
