-- ===== src/Gateway/Delete.antt =====
-- gateway/src/api/delete.rs: the request to delete a link.
use k_url.Common.Rpc.{Code, DeleteLinkRequest, Status, not_found}
use k_url.Prelude.{Result, String, err, ok, ℕ}

unfoldable pub delete_status : Code → ℕ
delete_status not_found = 404
delete_status _ = 500

-- `delete_link` is the outcome of the client's delete_link.
unfoldable pub delete :
    (DeleteLinkRequest → Result Status (Unit {0})) → String → Result ℕ (Unit {0})
unfolding delete_status
delete delete_link short_code = elim (delete_link (record { short_code = short_code })) [
  | ok u ↦ ok tt
  | err error ↦ err (delete_status error.code)
]
