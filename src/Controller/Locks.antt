-- ===== src/Controller/Locks.antt =====
-- The locks of the methods of internal/driver/controller.go.
use lxd_csi_driver.Strings.{Text}
use lxd_csi_driver.Csi.{
  CreateVolumeRequest, CreateSnapshotRequest, PublishVolumeRequest, UnpublishVolumeRequest,
  ExpandVolumeRequest,
}
use lxd_csi_driver.Lxd.{Env, IsLocking}
use lxd_csi_driver.Rpc.Frame.{Keeps, holds, with_lock-Keeps, get_client-Keeps}
use lxd_csi_driver.Controller.Create.{create_volume}
use lxd_csi_driver.Controller.Delete.{delete_volume, delete_snapshot}
use lxd_csi_driver.Controller.Snapshot.{create_snapshot}
use lxd_csi_driver.Controller.Publish.{controller_publish_volume, controller_unpublish_volume}
use lxd_csi_driver.Controller.Expand.{controller_expand_volume}
use lxd_csi_driver.Controller.Steps.{steps}

ruleset locked_steps = (steps, with_lock-Keeps, get_client-Keeps)

module _ {E : Env} (L : IsLocking E) (j : Text) where
  -- With a lock table as `locking.TryLock` documents it, whatever the environment answers, and however
  -- the method ends (an answer, a status or a panic), a lock is held after each of the seven methods
  -- exactly if it was held before.
  pub controller-Keeps :
      (create : CreateVolumeRequest) (snapshot : CreateSnapshotRequest)
      (publish : PublishVolumeRequest) (unpublish : UnpublishVolumeRequest)
      (expand : ExpandVolumeRequest) (id : Text)
      → Keeps (holds E j) (create_volume E create)
        × Keeps (holds E j) (delete_volume E id)
        × Keeps (holds E j) (create_snapshot E snapshot)
        × Keeps (holds E j) (delete_snapshot E id)
        × Keeps (holds E j) (controller_publish_volume E publish)
        × Keeps (holds E j) (controller_unpublish_volume E unpublish)
        × Keeps (holds E j) (controller_expand_volume E expand)
  unfolding create_volume delete_volume create_snapshot delete_snapshot controller_publish_volume
      controller_unpublish_volume controller_expand_volume
  controller-Keeps create snapshot publish unpublish expand id = (
    search locked_steps depth 17,
    search locked_steps depth 17,
    search locked_steps depth 17,
    search locked_steps depth 17,
    search locked_steps depth 17,
    search locked_steps depth 17,
    search locked_steps depth 17,
  )
