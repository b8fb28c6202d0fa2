-- ===== src/LxdErrors.antt =====
-- internal/lxderrors/errors.go: the gRPC code of an error.
pub mod Laws
use lxd_csi_driver.Base.{ℕ, Bool, true, false, String, Option, none, some, if◌then◌else◌}
use lxd_csi_driver.Csi.{
  Code, ok_code, canceled, invalid_argument, deadline_exceeded, not_found, already_exists,
  permission_denied, failed_precondition, internal, unavailable, unauthenticated,
}
use lxd_csi_driver.Lxd.{Env}

-- The errors that the driver hands on: those of the environment, its own (`errors.New`, and
-- `fmt.Errorf` with no `%w`), and its wrappers (`fmt.Errorf` with `%w`), through which
-- `api.StatusErrorCheck` and `errors.Is` look.
pub data GoError (Err : Type 0) : Type 0 where
  external : Err → GoError Err
  plain : String → GoError Err
  wrapped : String → GoError Err → GoError Err

module _ (E : Env) where
  abbrev pub status_error_check : GoError E.Err → ℕ → Bool
  status_error_check (external e) status = E.status_error_check e status
  status_error_check (plain message) status = false
  status_error_check (wrapped message e) status = status_error_check e status

  abbrev pub is_deadline_exceeded : GoError E.Err → Bool
  is_deadline_exceeded (external e) = E.is_deadline_exceeded e
  is_deadline_exceeded (plain message) = false
  is_deadline_exceeded (wrapped message e) = is_deadline_exceeded e

  abbrev pub is_canceled : GoError E.Err → Bool
  is_canceled (external e) = E.is_canceled e
  is_canceled (plain message) = false
  is_canceled (wrapped message e) = is_canceled e

  -- The switch of `ToGRPCCode`, its cases in order.
  unfoldable pub error_code : GoError E.Err → Code
  error_code e =
      if status_error_check e 400
      then invalid_argument
      else if status_error_check e 401
      then unauthenticated
      else if status_error_check e 403
      then permission_denied
      else if status_error_check e 404
      then not_found
      else if status_error_check e 409
      then already_exists
      else if status_error_check e 412
      then unavailable
      else if status_error_check e 423
      then failed_precondition
      else if is_deadline_exceeded e
      then deadline_exceeded
      else if is_canceled e
      then canceled
      else internal

  -- A nil error is `none`.
  unfoldable pub to_grpc_code : Option (GoError E.Err) → Code
  to_grpc_code none = ok_code
  to_grpc_code (some e) = error_code e
