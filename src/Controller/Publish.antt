-- ===== src/Controller/Publish.antt =====
-- `ControllerPublishVolume` and `ControllerUnpublishVolume` (internal/driver/controller.go).
pub mod Laws
pub mod Unpublished
pub mod Done
use lxd_csi_driver.Base.{
  Bool, true, false, ◌||◌, not, String, List, [], ◌∷◌, Option, none, some, Result, ok, err,
  if◌then◌else◌,
}
use lxd_csi_driver.Strings.{Text, codes, is_empty, text_eq}
use lxd_csi_driver.Dict.{Dict, get, lookup, insert}
use lxd_csi_driver.FilePath.{join_path}
use lxd_csi_driver.Csi.{
  invalid_argument, not_found, already_exists, PublishVolumeRequest, UnpublishVolumeRequest,
}
use lxd_csi_driver.Capabilities.{parse_content_type}
use lxd_csi_driver.Lxd.{Env, StorageVolume, Instance, InstancePut}
use lxd_csi_driver.VolumeId.{VolumeRef, split_volume_id}
use lxd_csi_driver.Driver.{driver_file_system_mount_path}
use lxd_csi_driver.Rpc.{
  Rpc, ◌>>=◌, ◌>>◌, pure, fail, reject_if, or_status, or_fail, call, get_client, get_driver,
  with_lock, attempt,
}
use lxd_csi_driver.Controller.{custom, targeted, is_not_found, or_fail_unless_not_found}

-- The device of a volume. A filesystem volume also has the path where it is mounted.
unfoldable pub device_of : VolumeRef → Text → Dict Text
device_of r content_type =
    let device : Dict Text =
      (codes "source", r.vol_name)
      ∷ (codes "pool", r.pool_name)
      ∷ (codes "type", codes "disk")
      ∷ [] in
    if text_eq content_type (codes "filesystem")
    then insert (codes "path") (join_path driver_file_system_mount_path r.vol_name) device
    else device

-- `dev["type"] != "disk" || dev["source"] != volName || dev["pool"] != poolName`
unfoldable pub mismatches : VolumeRef → Dict Text → Bool
mismatches r dev =
    not (text_eq (get (codes "type") dev) (codes "disk"))
    || not (text_eq (get (codes "source") dev) r.vol_name)
    || not (text_eq (get (codes "pool") dev) r.pool_name)

module _ (E : Env) where
  unfoldable pub existing_volume : Result E.Err (StorageVolume × Text) → Rpc E (Unit {0})
  existing_volume (ok v) = pure tt
  existing_volume (err e) =
      if is_not_found E e
      then fail not_found "ControllerPublishVolume: Volume %q not found in storage pool %q"
      else or_fail E
          "ControllerPublishVolume: Failed to retrieve volume %q from storage pool %q: %v" (err e)

  -- With a device of the volume's name at hand nothing is changed.
  unfoldable pub attach :
      E.Client → Text → VolumeRef → Text → Instance × Text → Option (Dict Text) → Rpc E (Unit {0})
  attach client node_id r content_type (inst, etag) (some dev) =
      reject_if (mismatches r dev) already_exists
        "ControllerPublishVolume: Device %q already exists on node %q but does not match expected parameters"
  attach client node_id r content_type (inst, etag) none =
      call E
        (E.update_instance client node_id
          (record { devices = (r.vol_name, some (device_of r content_type)) ∷ [] }) etag)
        "ControllerPublishVolume: Failed to attach volume %q: %v"

  -- The part of the method that holds the lock of the volume's ID.
  unfoldable pub publish_locked : E.Client → Text → VolumeRef → Text → Rpc E (Unit {0})
  publish_locked client node_id r content_type = do
    found ← attempt E (E.get_storage_pool_volume client r.pool_name custom r.vol_name)
    existing_volume found
    inst ← call E (E.get_instance client node_id) "ControllerPublishVolume: %v"
    attach client node_id r content_type inst (lookup r.vol_name (inst.0).devices)

  unfoldable pub controller_publish_volume : PublishVolumeRequest → Rpc E (Unit {0})
  controller_publish_volume req = do
    client ← get_client E "ControllerPublishVolume: %v"
    r ← or_status invalid_argument "ControllerPublishVolume: %v" (split_volume_id req.volume_id)
    d ← get_driver E
    let client' = targeted E d client r.cluster_member
    let content_type = parse_content_type (req.volume_capability ∷ [])
    reject_if (is_empty content_type) invalid_argument
        "ControllerPublishVolume: Volume capability must specify either block or filesystem access type"
    with_lock E req.volume_id "ControllerPublishVolume: Failed to obtain lock %q"
        (publish_locked client' req.node_id r content_type)

  unfoldable pub controller_unpublish_volume : UnpublishVolumeRequest → Rpc E (Unit {0})
  controller_unpublish_volume req = do
    client ← get_client E "ControllerUnpublishVolume: %v"
    r ← or_status invalid_argument "ControllerUnpublishVolume: %v" (split_volume_id req.volume_id)
    d ← get_driver E
    let client' = targeted E d client r.cluster_member
    with_lock E req.volume_id "ControllerUnpublishVolume: Failed to obtain lock %q" (do
      inst ←
          call E (E.get_instance client' req.node_id)
            "ControllerUnpublishVolume: Failed to retrieve instance %q: %v"
      detached ← attempt E (
          E.update_instance client' req.node_id (record { devices = (r.vol_name, none) ∷ [] })
            inst.1)
      or_fail_unless_not_found E "ControllerUnpublishVolume: Failed to detach volume %q: %v"
          detached)
