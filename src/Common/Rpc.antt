-- ===== src/Common/Rpc.antt =====
-- What the services use of tonic: the codes of a gRPC status, and a status with its message. The
-- messages are those of the files under proto/proto/.
use k_url.Prelude.{ℕ, String, List, Option}
use k_url.Prelude.Int.{ℤ}

-- tonic::Code
pub data Code : Type 0 where
  ok_code cancelled unknown invalid_argument deadline_exceeded not_found already_exists : Code
  permission_denied resource_exhausted failed_precondition aborted out_of_range : Code
  unimplemented internal unavailable data_loss unauthenticated : Code

pub record Status : Type 0 where
  pub code : Code
  pub message : String

abbrev pub status : Code → String → Status
status c m = record { code = c; message = m }

-- google.protobuf.Timestamp
pub record Timestamp : Type 0 where
  pub seconds : ℤ
  pub nanos : ℤ

pub record CreateLinkRequest : Type 0 where
  pub short_code : Option String
  pub target : String
  pub expiration : Option Timestamp

pub record CreateLinkResponse : Type 0 where
  pub short_code : String

pub record GetLinkRequest : Type 0 where
  pub short_code : String

pub record GetLinkResponse : Type 0 where
  pub target : String

pub record DeleteLinkRequest : Type 0 where
  pub short_code : String

pub record GetLinkStatsRequest : Type 0 where
  pub short_code : String
  pub days : Option ℕ

pub record DailyClicks : Type 0 where
  pub date : String
  pub clicks : ℕ

pub record GetLinkStatsResponse : Type 0 where
  pub short_code : String
  pub total_clicks : ℕ
  pub daily_clicks : List DailyClicks
  pub last_clicked_at : Option Timestamp

pub record GetGlobalStatsRequest : Type 0 where
  pub days : Option ℕ

pub record GetGlobalStatsResponse : Type 0 where
  pub total_clicks : ℕ
  pub daily_clicks : List DailyClicks
