-- ===== src/Gateway/CoreClient.antt =====
-- gateway/src/grpc/core_client.rs: the calls of the core service, each with a deadline.

-- A call's outcome: none where GRPC_TIMEOUT passes first.
use k_url.Common.Rpc.{
  CreateLinkRequest, CreateLinkResponse, DeleteLinkRequest, GetLinkRequest, GetLinkResponse, Status,
  deadline_exceeded, status,
}
use k_url.Prelude.{Option, Result, String, err, none, some}

unfoldable pub call_with_timeout : {T : Type 0} → Option (Result Status T) → Result Status T
call_with_timeout none = err (status deadline_exceeded "gRPC request timed out")
call_with_timeout (some r) = r

-- The core service at the far end of the channel.
pub record LinkServiceClient : Type 0 where
  pub get_link : GetLinkRequest → Option (Result Status GetLinkResponse)
  pub create_link : CreateLinkRequest → Option (Result Status CreateLinkResponse)
  pub delete_link : DeleteLinkRequest → Option (Result Status (Unit {0}))

unfoldable pub core_get_link : LinkServiceClient → String → Result Status GetLinkResponse
unfolding call_with_timeout
core_get_link client short_code =
    call_with_timeout (client.get_link (record { short_code = short_code }))

unfoldable pub create_link :
    LinkServiceClient → CreateLinkRequest → Result Status CreateLinkResponse
unfolding call_with_timeout
create_link client request = call_with_timeout (client.create_link request)

unfoldable pub delete_link : LinkServiceClient → DeleteLinkRequest → Result Status (Unit {0})
unfolding call_with_timeout
delete_link client request = call_with_timeout (client.delete_link request)
