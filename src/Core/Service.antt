-- ===== src/Core/Service.antt =====
-- core/src/grpc.rs and core/src/utils.rs: the handlers of the link service. A handler takes the
-- instants that its calls of `Utc::now()` read, `now` for the check and `later` for the cache.
pub mod CacheTtl
pub mod Codes
pub mod Links
pub mod Create
pub mod RoundTrips
use Prim.Native.Char.{Char}
use k_url.Prelude.{
  ℕ, zero, suc, ◌+◌, String, Bool, true, false, List, [], ◌∷◌, ◌++◌, Option, none, some, Result, ok,
  err, ltb, min, is_some_and, filter_option, map_option, ok_or, if◌then◌else◌, leb,
}
use k_url.Prelude.Int.{leb_ℤ}
use k_url.Prelude.Time.{Duration, DateTime, as_secs, time_left}
use k_url.Prelude.Effects.{Exec, pure, raise, lift, catch, modify, ◌>>=◌, ◌>>◌}
use k_url.Common.DbErrors.{DbError, conflict}
use k_url.Common.Rpc.{
  Status, status, Timestamp, CreateLinkRequest, CreateLinkResponse, GetLinkRequest, GetLinkResponse,
  DeleteLinkRequest, already_exists, internal, invalid_argument, not_found, failed_precondition,
}
use k_url.Core.Repository.{Link, LinkRepository}
use k_url.Core.Cache.{CacheOp, set, del}

unfoldable pub calculate_cache_ttl : Duration → Option DateTime → DateTime → Option Duration
unfolding time_left
calculate_cache_ttl cache_ttl expiration now =
    filter_option
      (elim expiration [
        | some at ↦ map_option (λ remaining. min remaining cache_ttl) (time_left at now)
        | none ↦ some cache_ttl
      ])
      (λ ttl. ltb 0 (as_secs ttl))

unfoldable pub has_expired : Option DateTime → DateTime → Bool
has_expired expiration now = is_some_and expiration (λ at. leb_ℤ at now)

-- random_string of core/src/utils.rs, from the samples that the generator gives from `i` on.
unfoldable pub random_string : (ℕ → Char) → ℕ → ℕ → String
random_string samples zero i = String.[]
random_string samples (suc len) i = String.◌∷◌ (samples i) (random_string samples len (i + 1))

abbrev pub retries : ℕ
retries = 10

abbrev pub len : ℕ
len = 6

on_create_error : DbError → Status
on_create_error (conflict e) = status already_exists "Short code already exists"
on_create_error _ = status internal "Failed to create link"

on_get_error : DbError → Status
on_get_error DbError.not_found = status not_found "Short code not found"
on_get_error _ = status internal "Failed to get link"

on_delete_error : DbError → Status
on_delete_error DbError.not_found = status not_found "Short code not found"
on_delete_error _ = status internal "Failed to delete link"

module _ (db : LinkRepository) where
  -- The state that the handlers reach: the links, the channel to the cache worker (`tx_open` until
  -- the worker closes it), and how many samples were drawn.
  pub record AppState : Type 0 where
    pub store : db.Store
    pub tx_open : Bool
    pub queue : List CacheOp
    pub drawn : ℕ

  -- A call of the repository.
  unfoldable pub on_db : {E A : Type 0} → Exec db.Store E A → Exec AppState E A
  on_db m s = let (r, store') = m s.store in (r, record s { store = store' })

  -- `redis_tx.send(op)`, whose failure is only logged.
  unfoldable pub send : CacheOp → Exec AppState Status (Unit {0})
  send op s = (ok tt, if s.tx_open then record s { queue = s.queue ++ op ∷ [] } else s)

  unfoldable pub send_set : Option Duration → String → String → Exec AppState Status (Unit {0})
  unfolding send
  send_set none key value = pure tt
  send_set (some ttl) key value = send (set key value ttl)

  -- The tries that are left of generate_short_code.
  unfoldable pub generate : (ℕ → Char) → ℕ → AppState → Option String × AppState
  unfolding on_db
  generate samples zero s = (none, s)
  generate samples (suc tries) s =
      let code = random_string samples len s.drawn in
      let (r, s') = on_db (db.link_exists code) (record s { drawn = s.drawn + len }) in
      elim r [
        | ok taken ↦ elim taken [ false ↦ (some code, s') | true ↦ generate samples tries s' ]
        | err e ↦ generate samples tries s'
      ]

  unfoldable pub generate_short_code : (ℕ → Char) → AppState → Option String × AppState
  generate_short_code samples = generate samples retries

  -- What the handlers take from outside: the configured `redis.cache_ttl`, the conversion of a
  -- timestamp, which is none where it is out of range, and the samples of the random generator.
  pub record Env : Type 0 where
    pub cache_ttl : Duration
    pub to_system_time : Timestamp → Option DateTime
    pub samples : ℕ → Char

  unfoldable pub code_or_generated : Env → Option String → Exec AppState Status String
  unfolding generate_short_code
  code_or_generated env (some code) s = (ok code, s)
  code_or_generated env none s =
      let (code, s') = generate_short_code env.samples s in
      (ok_or (status internal "Failed to generate a unique short code") code, s')

  -- `.map(timestamp_to_datetime).transpose()`
  unfoldable pub timestamp_to_datetime : Env → Option Timestamp → Result Status (Option DateTime)
  timestamp_to_datetime env none = ok none
  timestamp_to_datetime env (some t) = elim (env.to_system_time t) [
    | none ↦ err (status invalid_argument "Invalid expiration timestamp")
    | some at ↦ ok (some at)
  ]

  unfoldable pub require_future : Option DateTime → DateTime → Exec AppState Status (Unit {0})
  unfolding has_expired
  require_future expiration now =
      if has_expired expiration now
      then raise (status invalid_argument "Expiration must be in the future")
      else pure tt

  -- The part of create_link that has the code and the expiration.
  unfoldable pub store_link :
      Env
      → DateTime
      → DateTime
      → String
      → String
      → Option DateTime
      → Exec AppState Status CreateLinkResponse
  unfolding require_future on_db on_create_error send_set
  store_link env now later short_code target expiration = do
    require_future expiration now
    catch on_create_error (on_db (db.create_link short_code target expiration))
    send_set (calculate_cache_ttl env.cache_ttl expiration later) short_code target
    pure (record { short_code = short_code })

  unfoldable pub create_link :
      Env → DateTime → DateTime → CreateLinkRequest → Exec AppState Status CreateLinkResponse
  create_link env now later request = do
    short_code ← code_or_generated env request.short_code
    expiration ← lift (timestamp_to_datetime env request.expiration)
    store_link env now later short_code request.target expiration

  unfoldable pub require_valid : Link → DateTime → Exec AppState Status (Unit {0})
  unfolding has_expired
  require_valid link now =
      if has_expired link.expiration now
      then raise (status failed_precondition "Link has expired")
      else pure tt

  unfoldable pub get_link :
      Env → DateTime → DateTime → GetLinkRequest → Exec AppState Status GetLinkResponse
  unfolding on_db on_get_error require_valid send_set
  get_link env now later request = do
    link ← catch on_get_error (on_db (db.get_link request.short_code))
    require_valid link now
    send_set (calculate_cache_ttl env.cache_ttl link.expiration later) request.short_code
        link.target
    pure (record { target = link.target })

  unfoldable pub delete_link : DeleteLinkRequest → Exec AppState Status (Unit {0})
  unfolding on_db on_delete_error send
  delete_link request = do
    catch on_delete_error (on_db (db.delete_link request.short_code))
    send (del request.short_code)
    pure tt
