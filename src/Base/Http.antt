-- ===== src/Base/Http.antt =====
-- The exceptions that the handlers throw (src/common/exceptions and NestJS's own). A message made
-- from a number, a list or another text keeps that beside its fixed part.
use Prim.Native.Nat.{ℕ}
use Prim.Native.String.{String}
use mathlib.Core.List.{List}

pub data Exception : Type 0 where
  unauthorized_access : Exception
  insufficient_permissions : String → Exception
  forbidden : String → Exception
  not_found : String → Exception
  bad_request : String → Exception
  bad_request_of : String → ℕ → Exception
  bad_request_with : String → String → Exception
  bad_request_list : String → List ℕ → Exception
  unauthorized : String → Exception
  too_many_requests : String → Exception
  conflict : String → Exception
  -- `throw new Error(…)`
  error : String → Exception
  -- A unique constraint or a required relation of the schema is violated.
  database_error : Exception
