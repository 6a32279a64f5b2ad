-- ===== src/Error.antt =====
-- `ovnc_error_t` of include/ovnc/ovnc_common.h and src/common/ovnc_error.c.
-- OVNC_OK is no error: a function that returns it returns `ok` of `Run.Outcome`.
use libopenvnc.Base.{ℕ, ◌==◌, if◌then◌else◌}
use Prim.Native.String.{String}

pub data Error : Type 0 where
  nomem : Error
  invalid_arg : Error
  io : Error
  timeout : Error
  connection_refused : Error
  connection_closed : Error
  version_mismatch : Error
  auth_failed : Error
  auth_unsupported : Error
  protocol : Error
  encoding_unsupported : Error
  zlib : Error
  not_implemented : Error

-- The value of the C enumerator; OVNC_OK is 0.
unfoldable pub code : Error → ℕ
code nomem = 1
code invalid_arg = 2
code io = 3
code timeout = 4
code connection_refused = 5
code connection_closed = 6
code version_mismatch = 7
code auth_failed = 8
code auth_unsupported = 9
code protocol = 10
code encoding_unsupported = 11
code zlib = 12
code not_implemented = 13

-- ovnc_error_string, on the number that the caller passes.
unfoldable pub error_string : ℕ → String
error_string e =
    if e == 0
    then "Success"
    else if e == 1
    then "Out of memory"
    else if e == 2
    then "Invalid argument"
    else if e == 3
    then "I/O error"
    else if e == 4
    then "Timeout"
    else if e == 5
    then "Connection refused"
    else if e == 6
    then "Connection closed"
    else if e == 7
    then "RFB version mismatch"
    else if e == 8
    then "Authentication failed"
    else if e == 9
    then "Unsupported authentication type"
    else if e == 10
    then "Protocol error"
    else if e == 11
    then "Unsupported encoding"
    else if e == 12
    then "zlib error"
    else if e == 13
    then "Not implemented"
    else "Unknown error"
