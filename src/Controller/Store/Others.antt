-- ===== src/Controller/Store/Others.antt =====
-- The methods of internal/driver/controller.go that neither create nor delete a volume: they leave the
-- volumes of LXD.
use lxd_csi_driver.Base.{String, Option, none, some, Result, ok, err, ℤ}
use lxd_csi_driver.Strings.{Text}
use lxd_csi_driver.Dict.{Dict}
use lxd_csi_driver.Csi.{
  CapacityRange, CreateSnapshotRequest, PublishVolumeRequest, UnpublishVolumeRequest,
  ExpandVolumeRequest,
}
use lxd_csi_driver.Lxd.{
  Env, StorageVolume, VolumeSnapshot, SnapshotsPost, VolumePut, Instance, InstancePut,
}
use lxd_csi_driver.VolumeId.{VolumeRef}
use lxd_csi_driver.Rpc.{get_client, attempt_operation}
use lxd_csi_driver.Rpc.Retains.{
  Leaves, Retains, retaining, panic-Retains, get_client-Retains, with_lock-Retains,
}
use lxd_csi_driver.Controller.{or_fail_unless_not_found}
use lxd_csi_driver.Controller.Snapshot.{
  name_or_fail, make_snapshot, ensure_snapshot, create_snapshot,
}
use lxd_csi_driver.Controller.Delete.{delete_snapshot}
use lxd_csi_driver.Controller.Publish.{
  existing_volume, attach, publish_locked, controller_publish_volume, controller_unpublish_volume,
}
use lxd_csi_driver.Controller.Expand.{
  size_or_fail, required_bytes, update_size, resize, controller_expand_volume,
}
use lxd_csi_driver.Controller.Store.Reading.{ReadsLeave}

-- The calls on snapshots, instances and configurations leave the view.
pub record UpdatesLeave {X : Type 0} (E : Env) (g : E.State → X) : Type 0 where
  pub create_snapshot :
      (client : E.Client) (pool kind name : Text) (post : SnapshotsPost)
      → Retains g
          (attempt_operation E (E.create_storage_pool_volume_snapshot client pool kind name post))
  pub delete_snapshot :
      (client : E.Client) (pool kind name snapshot : Text)
      → Retains g (
          attempt_operation E
            (E.delete_storage_pool_volume_snapshot client pool kind name snapshot))
  pub update_volume :
      (client : E.Client) (pool kind name : Text) (put : VolumePut) (etag : Text)
      → Retains g
          (attempt_operation E (E.update_storage_pool_volume client pool kind name put etag))
  pub get_instance : (client : E.Client) (name : Text) → Leaves g (E.get_instance client name)
  pub update_instance :
      (client : E.Client) (name : Text) (put : InstancePut) (etag : Text)
      → Leaves g (E.update_instance client name put etag)

module _ {E : Env} {X : Type 0} (g : E.State → X) where
  pub or_fail_unless_not_found-Retains :
      (m : String) (r : Result E.Err (Unit {0})) → Retains g (or_fail_unless_not_found E m r)
  unfolding or_fail_unless_not_found
  or_fail_unless_not_found-Retains m (ok a) = search retaining
  or_fail_unless_not_found-Retains m (err e) = search retaining

  name_or_fail-Retains : (o : Option Text) → Retains g (name_or_fail E o)
  unfolding name_or_fail
  name_or_fail-Retains none = search retaining
  name_or_fail-Retains (some name) = search retaining

  size_or_fail-Retains : (o : Option ℤ) → Retains g (size_or_fail E o)
  unfolding size_or_fail
  size_or_fail-Retains none = search retaining
  size_or_fail-Retains (some size) = search retaining

  required_bytes-Retains : (o : Option CapacityRange) → Retains g (required_bytes E o)
  unfolding required_bytes
  required_bytes-Retains none = panic-Retains g
  required_bytes-Retains (some range) = search retaining

  existing_volume-Retains :
      (found : Result E.Err (StorageVolume × Text)) → Retains g (existing_volume E found)
  unfolding existing_volume
  existing_volume-Retains (ok v) = search retaining
  existing_volume-Retains (err e) = search retaining

module _ {E : Env} {X : Type 0} {g : E.State → X} (l : ReadsLeave E g) (u : UpdatesLeave E g) where
  ensure_snapshot-Retains :
      (client : E.Client) (r : VolumeRef) (name : Text) (found : Result E.Err VolumeSnapshot)
      → Retains g (ensure_snapshot E client r name found)
  unfolding ensure_snapshot make_snapshot
  ensure_snapshot-Retains client r name (ok s) = search retaining
  ensure_snapshot-Retains client r name (err e) = search (retaining, u.create_snapshot)

  attach-Retains :
      (client : E.Client) (node : Text) (r : VolumeRef) (content_type : Text)
      (inst : Instance × Text) (dev : Option (Dict Text))
      → Retains g (attach E client node r content_type inst dev)
  unfolding attach
  attach-Retains client node r content_type (inst, etag) (some dev) = search retaining
  attach-Retains client node r content_type (inst, etag) none =
      search (retaining, u.update_instance)

  publish_locked-Retains :
      (client : E.Client) (node : Text) (r : VolumeRef) (content_type : Text)
      → Retains g (publish_locked E client node r content_type)
  unfolding publish_locked
  publish_locked-Retains client node r content_type =
      search (retaining, existing_volume-Retains, attach-Retains, l.get_volume, u.get_instance)
        depth 16

  resize-Retains :
      (client : E.Client) (r : VolumeRef) (vol : StorageVolume × Text) (old new : ℤ)
      → Retains g (resize E client r vol old new)
  unfolding resize update_size
  resize-Retains client r (vol, etag) old new = search (retaining, u.update_volume) depth 8

  client-Retains : (m : String) → Retains g (get_client E m)
  client-Retains m = get_client-Retains g l.connects m

  ruleset updating = (
    retaining, client-Retains, with_lock-Retains, or_fail_unless_not_found-Retains,
    name_or_fail-Retains, size_or_fail-Retains, required_bytes-Retains, ensure_snapshot-Retains,
    publish_locked-Retains, resize-Retains,
  )

  pub create_snapshot-Retains : (req : CreateSnapshotRequest) → Retains g (create_snapshot E req)
  unfolding create_snapshot
  create_snapshot-Retains req = search (updating, l.get_snapshot) depth 20

  pub delete_snapshot-Retains : (id : Text) → Retains g (delete_snapshot E id)
  unfolding delete_snapshot
  delete_snapshot-Retains id = search (updating, u.delete_snapshot) depth 20

  pub controller_publish_volume-Retains :
      (req : PublishVolumeRequest) → Retains g (controller_publish_volume E req)
  unfolding controller_publish_volume
  controller_publish_volume-Retains req = search updating depth 20

  pub controller_unpublish_volume-Retains :
      (req : UnpublishVolumeRequest) → Retains g (controller_unpublish_volume E req)
  unfolding controller_unpublish_volume
  controller_unpublish_volume-Retains req =
      search (updating, u.get_instance, u.update_instance) depth 20

  pub controller_expand_volume-Retains :
      (req : ExpandVolumeRequest) → Retains g (controller_expand_volume E req)
  unfolding controller_expand_volume
  controller_expand_volume-Retains req = search (updating, l.get_volume) depth 20
