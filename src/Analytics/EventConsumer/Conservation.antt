-- ===== src/Analytics/EventConsumer/Conservation.antt =====
-- The balance of the clicks sent, waiting and counted over the steps of the reading of the stream.
use mathlib.Core.List.{append_assoc}
use mathlib.Core.Path.{subst}
use k_url.Analytics.EventConsumer.{ClickCodec, parse_click_event, process_entry, with_redis}
use k_url.Analytics.EventConsumer.Queue.{
  Agrees, In, In-app, In-take, Unique, Unique-Agrees, app-Agrees, app-Unique, one_if_click,
  take-drop, waiting, waiting-app, without-Agrees, without-Unique, without-waiting,
}
use k_url.Analytics.EventConsumer.Reading.{
  Reading, Step, Steps, arrive, arrives, delivers, fetch, forgets, handles, known, next, reclaims,
  start,
}
use k_url.Analytics.EventConsumer.Steps.{Handled, process_entry-Handled, queued}
use k_url.Analytics.Redis.{
  Command, Store, StreamId, claim, drop, has, read_group, take, xadd, xautoclaim, xreadgroup,
}
use k_url.Analytics.Redis.Commands.{command-cases}
use k_url.Analytics.Redis.Counters.{all_clicks}
use k_url.Common.RedisKeys.{global_stats_key}
use k_url.Prelude.{
  All, List, [], ap, arith, false, inl, inr, refl, sym, ℕ, ◌++◌, ◌+◌, ◌∙◌, ◌∷◌, ◌≡◌,
}
use k_url.Prelude.Maps.{string_key}

module _ (codec : ClickCodec) where
  abbrev pub Sound : ℕ → Reading codec → Type 0
  Sound base s =
      Unique (queued s.worker.redis.store)
      × All (λ e. Agrees e (queued s.worker.redis.store)) s.hand
      × (known codec s.worker.redis.store ≡ base + s.sent)

  -- The handling of an entry in hand.
  Handled-known :
      (e : StreamId) (r now : Store)
      → Agrees e (queued r)
      → Handled codec e r now
      → known codec now ≡ known codec r
  unfolding known all_clicks
  Handled-known e r now a (i, inl (p, q, c)) =
      rw (i, q, c) (ground (arith, without-waiting codec e r.pending r.incoming a p))
  Handled-known e r now a (i, inr (q, c)) = rw (i, q, c) refl

  Handled-Unique :
      (e : StreamId) (r now : Store)
      → Handled codec e r now
      → Unique (queued r)
      → Unique (queued now)
  Handled-Unique e r now (i, inl (p, q, c)) u =
      rw (i, q) (without-Unique e.id r.pending r.incoming u)
  Handled-Unique e r now (i, inr (q, c)) u = rw (i, q) u

  Handled-Agrees :
      (e f : StreamId) (r now : Store)
      → Handled codec e r now
      → Agrees f (queued r)
      → Agrees f (queued now)
  Handled-Agrees e f r now (i, inl (p, q, c)) a =
      rw (i, q) (without-Agrees f e.id r.pending r.incoming a)
  Handled-Agrees e f r now (i, inr (q, c)) a = rw (i, q) a

  -- What is to be known of a command for the worker to go on with what it yields.
  abbrev pub Keeps : (Store → List StreamId × Store) → Type 0
  Keeps run =
      (r : Store)
      → (queued (run r).1 ≡ queued r)
        × (all_clicks global_stats_key (run r).1 ≡ all_clicks global_stats_key r)
        × ((e : StreamId) → In e (run r).0 → In e (queued r))

  pub xreadgroup-Keeps : (n : ℕ) → Keeps (xreadgroup n)
  unfolding xreadgroup all_clicks
  xreadgroup-Keeps n r = (
    append_assoc r.pending (take n r.incoming) (drop n r.incoming)
        ∙ ap (λ ys. r.pending ++ ys) (take-drop n r.incoming),
    refl,
    λ e m. In-app e r.pending r.incoming (inr (In-take e n r.incoming m)),
  )

  pub xautoclaim-Keeps : (n : ℕ) → Keeps (xautoclaim n)
  unfolding xautoclaim all_clicks
  xautoclaim-Keeps n r =
      (refl, refl, λ e m. In-app e r.pending r.incoming (inl (In-take e n r.pending m)))

  pub In-All :
      (P : StreamId → Type 0) (xs : List StreamId) → ((e : StreamId) → In e xs → P e) → All P xs
  In-All P [] h = tt
  In-All P (x ∷ xs) h = (h x (inl refl), In-All P xs (λ e m. h e (inr m)))

  map-All :
      (P Q : StreamId → Type 0) (xs : List StreamId)
      → ((e : StreamId) → P e → Q e)
      → All P xs
      → All Q xs
  map-All P Q [] h a = tt
  map-All P Q (x ∷ xs) h a = (h x a.0, map-All P Q xs h a.1)

  pub same-known :
      (r now : Store)
      → queued now ≡ queued r
      → all_clicks global_stats_key now ≡ all_clicks global_stats_key r
      → known codec now ≡ known codec r
  unfolding known
  same-known r now q c = rw (q, c) refl

  fetch-Sound :
      (base : ℕ) (c : Command) (run : Store → List StreamId × Store) (s : Reading codec)
      → Keeps run
      → Sound base s
      → Sound base (fetch codec c run s)
  unfolding with_redis
  fetch-Sound base c run s keeps (u, a, k) = elim (command-cases c run s.worker.redis) [
    | inl p ↦ rw p (
      rw (keeps s.worker.redis.store).0 u,
      rw (keeps s.worker.redis.store).0 (
          In-All (λ e. Agrees e (queued s.worker.redis.store)) (run s.worker.redis.store).0
            (λ e m.
              Unique-Agrees (queued s.worker.redis.store) u e
                ((keeps s.worker.redis.store).2 e m))),
      same-known s.worker.redis.store (run s.worker.redis.store).1 (keeps s.worker.redis.store).0
            (keeps s.worker.redis.store).1
          ∙ k,
    )
    | inr (inl p) ↦ rw p (u, tt, k)
    | inr (inr p) ↦ rw p (
      rw (keeps s.worker.redis.store).0 u,
      tt,
      same-known s.worker.redis.store (run s.worker.redis.store).1 (keeps s.worker.redis.store).0
            (keeps s.worker.redis.store).1
          ∙ k,
    )
  ]

  xadd-known :
      (e : StreamId) (r : Store)
      → known codec (xadd e r) ≡ known codec r + one_if_click (parse_click_event codec e)
  unfolding known xadd all_clicks waiting
  xadd-known e r =
      rw⁻¹ (append_assoc r.pending r.incoming (e ∷ []))
        (ground (arith, waiting-app codec (queued r) (e ∷ [])))

  -- An entry with another id than those in hand.
  apart-Agrees :
      (e : StreamId) (queue hand : List StreamId)
      → has e.id hand ≡ false
      → All (λ f. Agrees f queue) hand
      → All (λ f. Agrees f (queue ++ e ∷ [])) hand
  apart-Agrees e queue [] h a = tt
  apart-Agrees e queue (f ∷ hand) h a = (
    app-Agrees f e queue
        (ground (arith, string_key.same_iff e.id f.id, string_key.same_iff f.id e.id)) a.0,
    apart-Agrees e queue hand (ground arith) a.1,
  )

  arrive-Sound :
      (base : ℕ) (s : Reading codec) (e : StreamId)
      → has e.id (queued s.worker.redis.store) ≡ false
      → has e.id s.hand ≡ false
      → Sound base s
      → Sound base (arrive codec e s)
  unfolding xadd
  arrive-Sound base s e fresh apart (u, a, k) =
      let r = s.worker.redis.store in
      let assoc = append_assoc r.pending r.incoming (e ∷ []) in
      (
        rw⁻¹ assoc (app-Unique e (queued r) fresh u),
        rw⁻¹ assoc (apart-Agrees e (queued r) s.hand apart a),
        ground (arith, k, xadd-known e r),
      )

  pub Step-Sound : (base : ℕ) {s t : Reading codec} → Step codec s t → Sound base s → Sound base t
  Step-Sound base (arrives s e fresh apart) sound = arrive-Sound base s e fresh apart sound
  Step-Sound base (delivers s n) sound =
      fetch-Sound base read_group (xreadgroup n) s (xreadgroup-Keeps n) sound
  Step-Sound base (reclaims s n) sound =
      fetch-Sound base claim (xautoclaim n) s (xautoclaim-Keeps n) sound
  Step-Sound base (handles s e rest h) (u, a, k) =
      let r = s.worker.redis.store in
      let now = (process_entry codec e s.worker).redis.store in
      let done = process_entry-Handled codec e s.worker in
      let agree = subst (λ es. All (λ f. Agrees f (queued r)) es) h a in
      (
        Handled-Unique e r now done u,
        map-All (λ f. Agrees f (queued r)) (λ f. Agrees f (queued now)) rest
            (λ f. Handled-Agrees e f r now done) agree.1,
        Handled-known e r now agree.0 done ∙ k,
      )
  Step-Sound base (forgets s) (u, a, k) = (u, tt, k)

  Steps-Sound : (base : ℕ) {s t : Reading codec} → Steps codec s t → Sound base s → Sound base t
  Steps-Sound base (start s) sound = sound
  Steps-Sound base (next steps step) sound = Step-Sound base step (Steps-Sound base steps sound)

  -- From a stream whose entries have distinct ids, with none of them in hand and no click sent yet, any
  -- sequence of arrivals, deliveries, claims, handlings and restarts, whatever the commands meet, keeps
  -- the ids distinct and the balance: the clicks in the counters of all links and those that wait in
  -- the stream have grown together by exactly the number of clicks sent.
  pub Steps-balance :
      {s t : Reading codec}
      → Steps codec s t
      → Unique (queued s.worker.redis.store)
      → s.hand ≡ []
      → s.sent ≡ 0
      → Unique (queued t.worker.redis.store)
        × (known codec t.worker.redis.store ≡ known codec s.worker.redis.store + t.sent)
  Steps-balance {s} {t} steps u empty fresh =
      let r = s.worker.redis.store in
      let sound =
        Steps-Sound (known codec r) steps
          (u, subst (λ es. All (λ f. Agrees f (queued r)) es) (sym empty) tt, ground arith) in
      (sound.0, sound.2)
