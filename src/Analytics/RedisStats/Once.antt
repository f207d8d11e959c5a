-- ===== src/Analytics/RedisStats/Once.antt =====
-- RECORD_CLICK of analytics/src/redis_stats.rs counts an entry once, and what
-- RedisStats::record_click_event makes of its replies.
use k_url.Analytics.Redis.{
  RedisPool, Store, has, hget, hincrby, hset, invalid_data, script, served, without, xack, xdel,
}
use k_url.Analytics.Redis.Commands.{command-served}
use k_url.Analytics.Redis.Counters.{clicks, has-without, hincrby-clicks}
use k_url.Analytics.RedisStats.{
  already_handled, applied, keep_latest, outcome_of_reply, record_click, record_click_event,
}
use k_url.Common.Events.{ClickEvent}
use k_url.Common.RedisKeys.{global_stats_key, link_last_clicked_at_key, link_stats_key}
use k_url.Common.RedisKeys.Distinct.{link_stats-ne-global}
use k_url.Prelude.{
  Bool-cases, String, ap, arith, false, inl, inr, ok, ok_or, refl, sym, true, ℕ, ◌+◌, ◌∙◌, ◌≡◌,
}
use k_url.Prelude.Int.{ℤ}
use k_url.Prelude.Maps.{nat_key, same_refl, string_key, ◌==◌}
use k_url.Prelude.Time.{DateTime}

-- The clicks of a link that the script counts in the store.
abbrev pub counts : String → String → String → Store → ℕ × ℕ
counts global link day r = (clicks global day r, clicks link day r)

-- What follows the counting leaves the counters alone.
rest-clicks :
    (last id k f : String) (ts : ℤ) (r : Store)
    → clicks k f (xdel id (keep_latest last ts r)) ≡ clicks k f r
unfolding clicks hget xdel keep_latest
rest-clicks last id k f ts r = ground arith

pub not_pending :
    (global link last id day : String) (ts : ℤ) (r : Store)
    → has id r.pending ≡ false
    → record_click global link last id day ts r ≡ (0, r)
unfolding record_click xack
not_pending global link last id day ts r p = rw p refl

pub was_pending :
    (global link last id day : String) (ts : ℤ) (r : Store)
    → has id r.pending ≡ true
    → record_click global link last id day ts r ≡ (
      1,
      xdel id (
          keep_latest last ts
            (hincrby link day (hincrby global day (record r { pending = without id r.pending })))),
    )
unfolding record_click xack
was_pending global link last id day ts r p = rw p refl

no_longer_pending :
    (global link last id day : String) (ts : ℤ) (r : Store)
    → has id (record_click global link last id day ts r).1.pending ≡ false
unfolding xdel keep_latest hincrby hset
no_longer_pending global link last id day ts r = elim (Bool-cases (has id r.pending)) [
  | inl p ↦
      rw (was_pending global link last id day ts r p) (ground (arith, has-without id r.pending))
  | inr p ↦ rw (not_pending global link last id day ts r p) p
]

-- A pending entry is counted once, for all links and for its own, and is no longer pending; an entry
-- that is not pending changes nothing. So a second run on an entry changes nothing. It is assumed
-- that the counters of all links and those of the link have different keys.
pub record_click-once :
    (global link last id day : String) (ts : ℤ) (r : Store)
    → (global == link) ≡ false
    → (has id r.pending ≡ true
        → ((record_click global link last id day ts r).0 ≡ 1)
          × (counts global link day (record_click global link last id day ts r).1
              ≡ (clicks global day r + 1, clicks link day r + 1)))
      × (has id r.pending ≡ false → record_click global link last id day ts r ≡ (0, r))
      × (record_click global link last id day ts (record_click global link last id day ts r).1
          ≡ (0, (record_click global link last id day ts r).1))
unfolding clicks
record_click-once global link last id day ts r h = (
  λ p.
      let run = was_pending global link last id day ts r p in
      let acked : Store = record r { pending = without id r.pending } in
      let one = hincrby global day acked in
      let two = hincrby link day one in
      (
        ap (λ x. x.0) run,
        ap (λ x. counts global link day x.1) run
            ∙ ground (
              arith,
              rest-clicks last id global day ts two,
              rest-clicks last id link day ts two,
              hincrby-clicks link day global day one,
              hincrby-clicks link day link day one,
              hincrby-clicks global day global day acked,
              hincrby-clicks global day link day acked,
              same_refl day,
              same_refl link,
              same_refl global,
              string_key.same_iff global link,
              string_key.same_iff link global,
            ),
      ),
  not_pending global link last id day ts r,
  not_pending global link last id day ts (record_click global link last id day ts r).1
      (no_longer_pending global link last id day ts r),
)

pub keys_differ : (c : String) → (global_stats_key == link_stats_key c) ≡ false
keys_differ c = elim (Bool-cases (global_stats_key == link_stats_key c)) [
  | inl same ↦ absurd (
      link_stats-ne-global c
        (sym ((string_key.same_iff global_stats_key (link_stats_key c)).0 same)))
  | inr apart ↦ apart
]

-- Where Redis answers, a pending click is counted once for all links and once for its own, and the
-- outcome is `already_handled`; a click that is not pending changes nothing, and the outcome is
-- `applied`.
pub record_click_event_lem :
    (format_day : DateTime → String) (timestamp_millis : DateTime → ℤ) (id : String)
    (event : ClickEvent) (pool : RedisPool)
    → pool.answer script pool.at ≡ served
    → (has id pool.store.pending ≡ true
        → ((record_click_event format_day timestamp_millis id event pool).0 ≡ ok already_handled)
          × (counts global_stats_key
                (link_stats_key event.short_code)
                (format_day event.at)
                (record_click_event format_day timestamp_millis id event pool).1.store
              ≡ (
                clicks global_stats_key (format_day event.at) pool.store + 1,
                clicks (link_stats_key event.short_code) (format_day event.at) pool.store + 1,
              )))
      × (has id pool.store.pending ≡ false
          → ((record_click_event format_day timestamp_millis id event pool).0 ≡ ok applied)
            × ((record_click_event format_day timestamp_millis id event pool).1.store ≡ pool.store))
unfolding record_click_event outcome_of_reply clicks
record_click_event_lem format_day timestamp_millis id event pool up =
    let run =
      record_click global_stats_key (link_stats_key event.short_code)
        (link_last_clicked_at_key event.short_code) id (format_day event.at)
        (timestamp_millis event.at) in
    let once =
      record_click-once global_stats_key (link_stats_key event.short_code)
        (link_last_clicked_at_key event.short_code) id (format_day event.at)
        (timestamp_millis event.at) pool.store (keys_differ event.short_code) in
    let done = command-served script run pool up in
    (
      λ p. rw done (ap (λ n. ok_or invalid_data (outcome_of_reply n)) (once.0 p).0, (once.0 p).1),
      λ p. rw done (
        ap (λ x. ok_or invalid_data (outcome_of_reply x.0)) (once.1 p),
        ap (λ x. x.1) (once.1 p),
      ),
    )
