-- ===== src/Gateway/Journey.antt =====
-- The handlers of the gateway over those of the core service: gateway/src/api/create.rs and
-- gateway/src/api/redirect.rs, the client of gateway/src/grpc/core_client.rs that visits share, and
-- core/src/grpc.rs at the far end of the channel, in time.
use k_url.Prelude.Maps.{lookup, string_key, same_refl}
use k_url.Gateway.InFlight.Replies.{IsReply, fresh-IsReply}
use k_url.Gateway.InFlight.{Client, Reachable, Steps, join, receive}
use k_url.Core.Service.Create.{create_link_ok}
use k_url.Core.Service as Core
use k_url.Common.Rpc.{CreateLinkRequest, Timestamp, GetLinkResponse, Status, status, unavailable}
use k_url.Core.Cache.{Answer}
use k_url.Core.Repository.{LinkRepository, Link}
use k_url.Core.Service.{Env}
use k_url.Core.Service.RoundTrips.{row_found}
use k_url.Gateway.CoreClient.{LinkServiceClient, core_get_link, create_link}
use k_url.Gateway.Create.{
  CreateLinkReq, CreateLinkResp, Expiration, Libraries, absolute, create, try_from,
}
use k_url.Gateway.Create.Replies.{Sent, create_ok, try_from_ok}
use k_url.Gateway.Redirect.{redirect, redirect_status}
use k_url.Gateway.State.{AppState, redis_query}
use k_url.Prelude.{
  Option, Option-cases, Result-cases, arith, err, false, inl, inr, none, ok, some, ◌≡◌, ◌⊎◌, ℕ,
  String, Result, refl, ◌∙◌,
}
use k_url.Prelude.Time.{DateTime}

module _ (db : LinkRepository) (env : Env db) where
  -- The core service in the state `s`, as the gateway reaches it.
  abbrev pub core : DateTime → DateTime → Core.AppState db → LinkServiceClient
  core now later s = record {
    get_link = λ q. some (Core.get_link db env now later q s).0;
    create_link = λ q. some (Core.create_link db env now later q s).0;
    delete_link = λ q. some (Core.delete_link db q s).0;
  }

module _ (db : LinkRepository) (env : Env db) (lib : Libraries) where
  -- The expiration that the core service reads is the one that was asked for.
  read_back :
      (now later : DateTime) (given : Option Expiration) (x : Option Timestamp)
      (at : Option DateTime)
      → ((t : DateTime) (ts : Timestamp)
          → lib.try_into t ≡ some ts
          → env.to_system_time ts ≡ some t)
      → Sent lib now later given x
      → absolute lib now given ≡ ok at
      → Core.timestamp_to_datetime db env x ≡ ok at
  unfolding absolute Core.timestamp_to_datetime
  read_back now later none x at inverse h i = ground arith
  read_back now later (some g) x at inverse (t, read, ahead, sent, conv) i =
      elim (Option-cases (lib.try_into t)) [
        | inl stuck ↦ absurd (ground arith)
        | inr (ts, whole) ↦ ground (arith, inverse t ts whole)
      ]

  -- The core service at each moment of a history.
  abbrev pub services : (ℕ → DateTime × DateTime × Core.AppState db) → ℕ → LinkServiceClient
  services history n = core db env (history n).0 (history n).1 (history n).2

  -- What a visit makes of the outcome for a link that is stored.
  stored-redirect :
      (now later n₅ : DateTime) (answer : Answer) (code : String) (l : Link) (g : AppState)
      (s : Core.AppState db) (r : Result Status GetLinkResponse)
      → db.row s.store code ≡ some l
      → Core.has_expired l.expiration now ≡ false
      → redis_query answer n₅ code g ≡ none
      → r ≡ core_get_link (core db env now later s) code
      → ((redirect answer n₅ (λ k. r) code g).0 ≡ ok l.target)
        ⊎ ((redirect answer n₅ (λ k. r) code g).0 ≡ err 500)
  unfolding redirect core_get_link redirect_status
  stored-redirect now later n₅ answer code l g s r there valid miss e =
      let found = row_found db env now later code l s there valid in
      elim (Result-cases (Core.get_link db env now later (record { short_code = code }) s).0) [
        | inl (reply, good) ↦ inl (ground arith)
        | inr (x, bad) ↦ inr (ground arith)
      ]

  stopped-redirect :
      (n₅ : DateTime) (answer : Answer) (code : String) (g : AppState)
      (r : Result Status GetLinkResponse)
      → redis_query answer n₅ code g ≡ none
      → r ≡ err (status unavailable "in-flight gRPC task stopped")
      → (redirect answer n₅ (λ k. r) code g).0 ≡ err 500
  unfolding redirect redirect_status
  stopped-redirect n₅ answer code g r miss e = ground arith

  -- The creation of a link is answered with a code. A visit of that code follows that has nothing
  -- cached and finds no call for the code in flight, and it waits while tasks and other visits take any
  -- steps; throughout, the link stays stored under the code and has not expired. Then the outcome that
  -- the visit gets redirects it to the parsed target of the request, or answers it with 500. It is
  -- assumed that a point in time survives its conversion to a timestamp and back.
  pub redirect-create :
      (n₁ n₂ n₃ n₄ n₅ : DateTime) (answer : Answer) (req : CreateLinkReq) (at : Option DateTime)
      (q : CreateLinkRequest) (g : AppState) (s : Core.AppState db) (resp : CreateLinkResp)
      (earlier : ℕ → LinkServiceClient) (max_in_flight : ℕ) (c d : Client)
      (history : ℕ → DateTime × DateTime × Core.AppState db) (r : Result Status GetLinkResponse)
      → ((t : DateTime) (ts : Timestamp)
          → lib.try_into t ≡ some ts
          → env.to_system_time ts ≡ some t)
      → (create lib n₁ n₂ (create_link (core db env n₃ n₄ s)) req g).0 ≡ ok resp
      → try_from lib n₁ n₂ req ≡ ok q
      → absolute lib n₁ req.expiration ≡ ok at
      → ((n : ℕ)
          → db.row (history n).2.store resp.short_code
            ≡ db.row (Core.create_link db env n₃ n₄ q s).1.store resp.short_code)
      → ((n : ℕ) → Core.has_expired (db.kept_at at) (history n).0 ≡ false)
      → redis_query answer n₅ resp.short_code g ≡ none
      → Reachable earlier max_in_flight c
      → lookup resp.short_code c.in_flight ≡ none
      → Steps (services history) (join resp.short_code c).1 d
      → (receive resp.short_code (join resp.short_code c).0 d).0 ≡ some r
      → (((redirect answer n₅ (λ k. r) resp.short_code g).0 ≡ ok q.target)
          × (lib.parse_url req.target ≡ some q.target))
        ⊎ ((redirect answer n₅ (λ k. r) resp.short_code g).0 ≡ err 500)
  unfolding IsReply create_link
  redirect-create n₁ n₂ n₃ n₄ n₅ answer req at q g s resp earlier max_in_flight c d history r
        inverse made sent read stays valid miss reached alone steps got =
      let (code, p, x) = try_from_ok lib n₁ n₂ req q sent in
      let ((q', sent', reply), w) =
        create_ok lib n₁ n₂ (create_link (core db env n₃ n₄ s)) req g resp made in
      let (y, converted, stored) =
        create_link_ok db env n₃ n₄ q s (record { short_code = resp.short_code }) (ground arith) in
      let same : y ≡ at =
        ground (arith, converted, read_back n₁ n₂ req.expiration q.expiration at inverse x read) in
      elim (fresh-IsReply earlier (services history) max_in_flight resp.short_code c d r reached
        alone steps got) [
          | inr gone ↦ inr (stopped-redirect n₅ answer resp.short_code g r miss gone)
          | inl (n, e) ↦
              let l : Link = record { target = q.target; expiration = db.kept_at at } in
              let there : db.row (history n).2.store resp.short_code ≡ some l =
                stays n ∙ rw (stored.rows resp.short_code, same_refl resp.short_code, same) refl in
              elim (stored-redirect (history n).0 (history n).1 n₅ answer resp.short_code l g
                (history n).2 r there (valid n) miss e) [
                  | inl good ↦ inl (good, p)
                  | inr bad ↦ inr bad
                ]
        ]
