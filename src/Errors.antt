-- ===== src/Errors.antt =====
-- internal/errors/errors.go: typed errors, and the errors of the standard library and the drivers,
-- which are not of the package's type. Messages are dropped; the type and the cause stay.
use thecloud.Prelude.{Bool, false, Option, none, some}
use mathlib.Core.Bool.{decide}

pub data ErrorType : Type 0 where
  not_found invalid_input internal unauthorized conflict forbidden resource_limit_exceeded
        bucket_not_found object_not_found object_too_large invalid_port_format port_conflict
        too_many_ports instance_not_running lb_not_found lb_target_exists lb_cross_vpc :
      ErrorType

pub ErrorType-discrete : Discrete ErrorType
ErrorType-discrete = hlevel

-- `new` and `wrap` build the package's `Error`. `plain` is any other error with a message of its
-- own (`fmt.Errorf`, a driver's failure).
pub data Error : Type 0 where
  new : ErrorType → Error
  wrap : ErrorType → Error → Error
  plain : Error

-- `Is`: a type assertion, with no walk along the chain of causes.
pub is : Error → ErrorType → Bool
is (new t) u = decide (ErrorType-discrete t u)
is (wrap t cause) u = decide (ErrorType-discrete t u)
is plain u = false

-- `GetCause`.
pub get_cause : Error → Option Error
get_cause (new t) = none
get_cause (wrap t cause) = some cause
get_cause plain = none
