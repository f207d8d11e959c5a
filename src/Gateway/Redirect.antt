-- ===== src/Gateway/Redirect.antt =====
-- gateway/src/api/redirect.rs: the answer to a visited short link.

-- The status of an error of the core service.
use k_url.Common.Rpc.{Code, GetLinkResponse, Status, failed_precondition, not_found}
use k_url.Core.Cache.{Answer}
use k_url.Gateway.State.{AppState, redis_query, send_click_event}
use k_url.Prelude.{
  Option-cases, Result, Result-cases, String, [], arith, err, inl, inr, none, ok, some, ℕ, ◌++◌,
  ◌+◌, ◌↔◌, ◌∷◌, ◌≡◌, ◌≢◌, ◌⊎◌,
}
use k_url.Prelude.Effects.{Exec, modify, pure, ◌>>◌}
use k_url.Prelude.Time.{DateTime}

unfoldable pub redirect_status : Code → ℕ
redirect_status not_found = 404
redirect_status failed_precondition = 410
redirect_status _ = 500

-- Answers the URL of a permanent redirection, or the status of the response. `get_link` is the
-- outcome of the client's get_link.
unfoldable pub redirect :
    Answer → DateTime → (String → Result Status GetLinkResponse) → String → Exec AppState ℕ String
unfolding send_click_event redirect_status
redirect answer now get_link short_code s = elim (redis_query answer now short_code s) [
  | some url ↦
      (do
        modify (λ s. record s { redirects = s.redirects + 1; cache_hits = s.cache_hits + 1 })
        send_click_event short_code
        pure url)
        s
  | none ↦ elim (get_link short_code) [
    | ok target ↦
        (do
          modify (λ s. record s { redirects = s.redirects + 1 })
          send_click_event short_code
          pure target.target)
          s
    | err error ↦ (err (redirect_status error.code), s)
  ]
]

-- A redirection goes to the cached URL, or, where the cache has none, to the target that the core
-- service gives; it sends one click event, for the visited code, and counts one redirection.
pub redirect_ok :
    (answer : Answer) (now : DateTime) (get_link : String → Result Status GetLinkResponse)
    (code url : String) (s : AppState)
    → (redirect answer now get_link code s).0 ≡ ok url
    → ((redis_query answer now code s ≡ some url)
        ⊎ ((redis_query answer now code s ≡ none) × (get_link code ≡ ok (record { target = url }))))
      × ((redirect answer now get_link code s).1.spawned ≡ s.spawned ++ code ∷ [])
      × ((redirect answer now get_link code s).1.redirects ≡ s.redirects + 1)
      × ((redirect answer now get_link code s).1.redis ≡ s.redis)
unfolding redirect
redirect_ok answer now get_link code url s h = ground arith

-- What a status tells of the error of the core service.
abbrev pub Tells : ℕ → Code → Type 0
Tells n c =
    ((n ≡ 404) ↔ (c ≡ not_found))
    × ((n ≡ 410) ↔ (c ≡ failed_precondition))
    × ((n ≢ 404) → (n ≢ 410) → n ≡ 500)

redirect_status-Tells : (c : Code) → Tells (redirect_status c) c
unfolding redirect_status
redirect_status-Tells c = ground arith

-- A visit that is not redirected missed the cache and changes nothing, and its status tells the
-- error of the core service: 404 for a link that is not found, 410 for one that has expired, and
-- 500 for all else.
pub redirect_err :
    (answer : Answer) (now : DateTime) (get_link : String → Result Status GetLinkResponse)
    (code : String) (n : ℕ) (s : AppState)
    → (redirect answer now get_link code s).0 ≡ err n
    → ((redirect answer now get_link code s).1 ≡ s)
      × (redis_query answer now code s ≡ none)
      × ((e : Status) × (get_link code ≡ err e) × Tells n e.code)
unfolding redirect
redirect_err answer now get_link code n s h = elim (Option-cases (redis_query answer now code s)) [
  | inr (url, hit) ↦ absurd (ground arith)
  | inl miss ↦ elim (Result-cases (get_link code)) [
    | inl (t, found) ↦ absurd (ground arith)
    | inr (e, failed) ↦
        (ground arith, miss, (e, failed, ground (arith, redirect_status-Tells e.code)))
  ]
]
