-- ===== src/Clients/Errors.antt =====
-- tms/clients/errors.py: what an HTTP status means.
use trino_management_service.Prelude.{ℕ, ◌==◌, Bool, true, false, if◌then◌else◌}

pub data ClientError : Type 0 where
  unavailable circuit_open unauthorized forbidden not_found mbean_not_registered protocol_error :
      ClientError

-- The class attribute `transient`.
unfoldable pub transient : ClientError → Bool
transient unavailable = true
transient circuit_open = true
transient _ = false

-- Whether the path is one of an MBean, `"/v1/jmx/mbean/" in path`, is an argument.
unfoldable pub classify_status : ℕ → Bool → ClientError
classify_status status on_mbean =
    if status == 401
    then unauthorized
    else if status == 403
    then forbidden
    else if status == 404
    then not_found
    else if status == 500
    then if on_mbean then mbean_not_registered else unavailable
    else unavailable
