-- ===== src/Gateway/Create.antt =====
-- gateway/src/api/create.rs: the request to create a link, and the answer.
pub mod Replies
pub mod Deserialize
-- A point in time, or a span from the present.
use k_url.Common.Rpc.{
  Code, CreateLinkRequest, CreateLinkResponse, Status, Timestamp, invalid_argument,
}
use k_url.Gateway.State.{AppState}
use k_url.Prelude.{Option, Result, String, err, if◌then◌else◌, none, ok, ok_or, some, ℕ, ◌+◌, ◌>>=◌}
use k_url.Prelude.Effects.{Exec}
use k_url.Prelude.Faults.{Fault, panicked, raised}
use k_url.Prelude.Int.{ltb_ℤ}
use k_url.Prelude.Time.{DateTime, Duration}

pub data Expiration : Type 0 where
  date_time : DateTime → Expiration
  duration : Duration → Expiration

pub record CreateLinkReq : Type 0 where
  pub short_code : Option String
  pub target : String
  pub expiration : Option Expiration

pub data RequestError : Type 0 where
  invalid_short_code invalid_target invalid_expiration already_exists internal : RequestError

pub record CreateLinkResp : Type 0 where
  pub short_code : String

-- What the crates chrono, prost_wkt_types and url offer: `chrono::DateTime + chrono::Duration`, which
-- panics where the sum is out of range, the conversion of a DateTime, and `Url::parse` with the URL
-- written out again.
pub record Libraries : Type 0 where
  pub add : DateTime → Duration → Option DateTime
  pub try_into : DateTime → Option Timestamp
  pub parse_url : String → Option String

module _ (lib : Libraries) where
  -- The first reading of the clock makes a span a point in time.
  unfoldable pub absolute :
      DateTime → Option Expiration → Result (Fault RequestError) (Option DateTime)
  absolute now none = ok none
  absolute now (some (date_time dt)) = ok (some dt)
  absolute now (some (duration d)) = elim (lib.add now d) [
    | none ↦ err panicked
    | some t ↦ ok (some t)
  ]

  -- The second refuses a point that has passed.
  unfoldable pub in_future :
      DateTime → Option DateTime → Result (Fault RequestError) (Option Timestamp)
  in_future now none = ok none
  in_future now (some exp) =
      if ltb_ℤ now exp
      then elim (lib.try_into exp) [ none ↦ err (raised invalid_expiration) | some t ↦ ok (some t) ]
      else err (raised invalid_expiration)

  unfoldable pub parse_target : String → Result (Fault RequestError) String
  parse_target target = ok_or (raised invalid_target) (lib.parse_url target)

  unfoldable pub try_from :
      DateTime → DateTime → CreateLinkReq → Result (Fault RequestError) CreateLinkRequest
  unfolding absolute in_future parse_target
  try_from now later req = do
    at ← absolute now req.expiration
    expiration ← in_future later at
    target ← parse_target req.target
    ok (record { short_code = req.short_code; target = target; expiration = expiration })

  -- The answer to an error of the core service.
  unfoldable pub create_error : Code → Fault RequestError
  create_error Code.already_exists = raised already_exists
  create_error invalid_argument = panicked
  create_error _ = raised internal

  -- `create_link` is the outcome of the client's create_link.
  unfoldable pub create :
      DateTime
      → DateTime
      → (CreateLinkRequest → Result Status CreateLinkResponse)
      → CreateLinkReq
      → Exec AppState (Fault RequestError) CreateLinkResp
  unfolding try_from create_error
  create now later create_link create_req s = elim (try_from now later create_req) [
    | err e ↦ (err e, s)
    | ok request ↦ elim (create_link request) [
      | ok response ↦ (
        ok (record { short_code = response.short_code }),
        record s { links_created = s.links_created + 1 },
      )
      | err error ↦ (err (create_error error.code), s)
    ]
  ]

-- The status of the response to an error, and its message.
unfoldable pub into_response : RequestError → ℕ × String
into_response invalid_short_code = (400, "Invalid short code")
into_response invalid_target = (400, "Invalid target URL")
into_response invalid_expiration = (400, "Invalid expiration date")
into_response already_exists = (409, "Link already exists")
into_response internal = (500, "Internal server error")
