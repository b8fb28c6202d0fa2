-- ===== src/Controller/Delete.antt =====
-- `DeleteVolume` and `DeleteSnapshot` (internal/driver/controller.go).
pub mod Laws
use lxd_csi_driver.Base.{String, Result, ok, err}
use lxd_csi_driver.Strings.{Text}
use lxd_csi_driver.Csi.{invalid_argument}
use lxd_csi_driver.Lxd.{Env}
use lxd_csi_driver.VolumeId.{VolumeRef, SnapshotRef, split_volume_id, split_snapshot_id}
use lxd_csi_driver.Rpc.{
  Rpc, ◌>>=◌, ◌>>◌, or_status, get_client, get_driver, with_lock, attempt_operation,
}
use lxd_csi_driver.Controller.{custom, targeted, or_fail_unless_not_found}

module _ (E : Env) where
  unfoldable pub delete_volume : Text → Rpc E (Unit {0})
  delete_volume volume_id = do
    client ← get_client E "DeleteVolume: %v"
    r ← or_status invalid_argument "DeleteVolume: %v" (split_volume_id volume_id)
    d ← get_driver E
    let client' = targeted E d client r.cluster_member
    with_lock E volume_id "DeleteVolume: Failed to obtain lock %q" (
        attempt_operation E (E.delete_storage_pool_volume client' r.pool_name custom r.vol_name)
        >>= or_fail_unless_not_found E
            "DeleteVolume: Failed to delete volume %q from storage pool %q: %v")

  unfoldable pub delete_snapshot : Text → Rpc E (Unit {0})
  delete_snapshot snapshot_id = do
    client ← get_client E "DeleteSnapshot: %v"
    r ← or_status invalid_argument "DeleteSnapshot: %v" (split_snapshot_id snapshot_id)
    d ← get_driver E
    let client' = targeted E d client r.cluster_member
    with_lock E snapshot_id "DeleteSnapshot: Failed to obtain lock %q" (
        attempt_operation E (
          E.delete_storage_pool_volume_snapshot client' r.pool_name custom r.vol_name
            r.snapshot_name)
        >>= or_fail_unless_not_found E "DeleteSnapshot: %v")
