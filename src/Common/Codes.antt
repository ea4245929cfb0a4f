-- ===== src/Common/Codes.antt =====
-- The return codes of include/core/eris.errno.h, by name.
use mathlib.Core.Bool.{Bool, true, false}
use mathlib.Core.Path.{◌≡◌, refl}
use native.Mathlib.Omega.{arith}

-- `eris_errno_e`; `ok` is EERIS_OK = 0, which every function returns for success.
pub data Errno : Type 0 where
  ok error invalid alloc bad_data small large not_found no_such service existed : Errno
  unsupport full empty no_access client_4xx server_5xx : Errno

-- The test `0 == rc`.
abbrev pub is_ok : Errno → Bool
is_ok ok = true
is_ok _ = false

pub is_ok-ok : (rc : Errno) → is_ok rc ≡ true → rc ≡ ok
is_ok-ok ok h = refl
is_ok-ok _ h = ground arith
