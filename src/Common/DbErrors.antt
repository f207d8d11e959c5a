-- ===== src/Common/DbErrors.antt =====
-- common/src/db_utils.rs: the errors of the database driver, and the classes that the services
-- tell apart.
use text.Mathlib.Text.{starts_with, ◌==◌}
use k_url.Prelude.{String, Bool, true, false, ◌||◌, Option, none, some, if◌then◌else◌}

-- sqlx::error::ErrorKind, as far as it is read.
pub data ErrorKind : Type 0 where
  unique_violation other_violation : ErrorKind

-- sqlx::Error; `database` has the kind and the SQLSTATE code of the server's error.
pub data SqlxError : Type 0 where
  row_not_found pool_timed_out io : SqlxError
  database : ErrorKind → Option String → SqlxError
  other : SqlxError

pub data DbError : Type 0 where
  transient : SqlxError → DbError
  conflict : SqlxError → DbError
  not_found : DbError
  other : SqlxError → DbError

unfoldable pub is_transient : DbError → Bool
is_transient (DbError.transient e) = true
is_transient _ = false

unfoldable pub is_unique_violation : SqlxError → Bool
is_unique_violation (database unique_violation code) = true
is_unique_violation _ = false

-- 08*: connection exception; 40001: serialization_failure; 40P01: deadlock_detected;
-- 57P03: cannot_connect_now.
is_transient_code : Option String → Bool
is_transient_code none = false
is_transient_code (some code) =
    starts_with code "08" || code == "40001" || code == "40P01" || code == "57P03"

-- impl From<sqlx::Error> for DbError
unfoldable pub from_sqlx : SqlxError → DbError
unfolding is_unique_violation is_transient_code
from_sqlx row_not_found = not_found
from_sqlx pool_timed_out = transient pool_timed_out
from_sqlx io = transient io
from_sqlx (database kind code) =
    if is_unique_violation (database kind code)
    then conflict (database kind code)
    else if is_transient_code code
    then transient (database kind code)
    else DbError.other (database kind code)
from_sqlx SqlxError.other = DbError.other SqlxError.other
