-- ===== src/Controller.antt =====
-- internal/driver/controller.go: the methods of the controller server, and what they share.
pub mod Create
pub mod Delete
pub mod Snapshot
pub mod Publish
pub mod Expand
pub mod Names
pub mod Steps
pub mod Locks
pub mod Exclusion
pub mod Store
use lxd_csi_driver.Base.{
  ℕ, Bool, true, false, not, ◌&&◌, String, ◌∷◌, ◌++◌, Option, none, some, Result, ok, err,
  if◌then◌else◌,
}
use lxd_csi_driver.Strings.{Text, codes, is_empty, cut, replace_all}
use lxd_csi_driver.Csi.{Code, invalid_argument}
use lxd_csi_driver.Lxd.{Env}
use lxd_csi_driver.LxdErrors.{external, status_error_check}
use lxd_csi_driver.Driver.{Driver}
use lxd_csi_driver.Rpc.{Outcome, done, failed, fail, pure, or_fail, Rpc, or_status}

-- "custom", the type of every volume that the driver manages.
abbrev pub custom : Text
custom = codes "custom"

-- "size", the key of a volume's size in its configuration.
abbrev pub size_key : Text
size_key = codes "size"

-- `prefix + "-" + strings.ReplaceAll(uuid, "-", "")`
unfoldable pub short_name : Text → Text → Text
short_name prefix uuid = prefix ++ b'-' ∷ replace_all uuid b'-' (codes "")

module _ (E : Env) where
  -- `if target != "" && c.driver.isClustered { client = client.UseTarget(target) }`
  unfoldable pub targeted : Driver E.Client → E.Client → Text → E.Client
  targeted d client target =
      if not (is_empty target) && d.is_clustered then E.use_target client target else client

  abbrev pub is_not_found : E.Err → Bool
  is_not_found e = E.status_error_check e 404

  -- An error that is no 404 ends the method.
  unfoldable pub or_fail_unless_not_found : String → Result E.Err (Unit {0}) → Rpc E (Unit {0})
  unfolding or_fail
  or_fail_unless_not_found m (ok a) = pure a
  or_fail_unless_not_found m (err e) = if is_not_found e then pure tt else or_fail E m (err e)
