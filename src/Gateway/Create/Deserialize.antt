-- ===== src/Gateway/Create/Deserialize.antt =====
-- gateway/src/api/create.rs: how the expiration of a request is read from its text.
use Prim.Native.String.{◌++◌}
use k_url.Analytics.Merge.{begun}
use k_url.Common.Database.{NaiveDate}
use k_url.Gateway.Create.{
  CreateLinkReq, Expiration, Libraries, date_time, duration, invalid_expiration, try_from,
}
use k_url.Prelude.{
  Option, Result, String, arith, err, false, if◌then◌else◌, map_err, map_ok, none, ok, refl, some,
  ◌≡◌, ◌>>=◌,
}
use k_url.Prelude.Faults.{raised}
use k_url.Prelude.Int.{ltb_ℤ}
use k_url.Prelude.Maps.{◌==◌, string_key}
use k_url.Prelude.Time.{DateTime, Duration}

-- What the crates chrono and humantime offer: the parsers of an RFC 3339 timestamp, of a date in the form
-- %Y-%m-%d, whose midnight in UTC is `midnight`, and of a duration, and chrono::Duration::from_std.
pub record Parsers : Type 0 where
  pub parse_from_rfc3339 : String → Option DateTime
  pub parse_date : String → Option NaiveDate
  pub midnight : NaiveDate → DateTime
  pub parse_duration : String → Result String Duration
  pub from_std : Duration → Result String Duration

module _ (ps : Parsers) where
  unfoldable pub deserialize_datetime : String → Result String DateTime
  deserialize_datetime s = elim (ps.parse_from_rfc3339 s) [
    | some dt ↦ ok dt
    | none ↦ elim (ps.parse_date s) [
      | some d ↦ ok (ps.midnight d)
      | none ↦ err ("invalid date/datetime `" ++ (s ++ "`; expected RFC 3339 or YYYY-MM-DD"))
    ]
  ]

  unfoldable pub deserialize_duration : String → Result String Duration
  deserialize_duration s = do
    std_dur ← map_err (λ e. "invalid duration `" ++ (s ++ ("`: " ++ e))) (ps.parse_duration s)
    map_err (λ e. "duration out of range: " ++ e) (ps.from_std std_dur)

  -- The variants of Expiration, by the name that the request gives.
  unfoldable pub deserialize_expiration : String → String → Result String Expiration
  unfolding deserialize_datetime deserialize_duration
  deserialize_expiration variant s =
      if variant == "DateTime"
      then map_ok date_time (deserialize_datetime s)
      else if variant == "Duration"
      then map_ok duration (deserialize_duration s)
      else err ("unknown variant `" ++ (variant ++ "`"))

  -- A date alone stands for its midnight in UTC, so that a link cannot be asked to expire on a day that
  -- has begun, nor on one before: such a request is refused, whatever else it asks for.
  pub try_from-begun_day :
      (lib : Libraries) (now later : DateTime) (request : CreateLinkReq) (s : String)
      (d : NaiveDate) (e : Expiration)
      → ps.parse_from_rfc3339 s ≡ none
      → ps.parse_date s ≡ some d
      → ltb_ℤ later (ps.midnight d) ≡ false
      → deserialize_expiration "DateTime" s ≡ ok e
      → try_from lib now later (record request { expiration = some e })
        ≡ err (raised invalid_expiration)
  unfolding deserialize_expiration try_from
  try_from-begun_day lib now later request s d e plain day begun read =
      let at_midnight : e ≡ date_time (ps.midnight d) = ground (arith, plain, day, read) in
      rw (at_midnight, begun) refl
