-- ===== src/Controller/Snapshot.antt =====
-- `CreateSnapshot` (internal/driver/controller.go).
pub mod Laws
use lxd_csi_driver.Base.{
  Bool, true, false, String, ◌++◌, Option, none, some, Result, ok, err, if◌then◌else◌,
}
use lxd_csi_driver.Strings.{Text, codes, is_empty, cut}
use lxd_csi_driver.Csi.{invalid_argument, CreateSnapshotRequest, CreateSnapshotResponse}
use lxd_csi_driver.Lxd.{Env, VolumeSnapshot, SnapshotsPost}
use lxd_csi_driver.VolumeId.{VolumeRef, split_volume_id, get_snapshot_id}
use lxd_csi_driver.Rpc.{
  Rpc, ◌>>=◌, ◌>>◌, pure, fail, reject_if, or_status, or_fail, get_client, get_driver, with_lock,
  attempt, attempt_operation,
}
use lxd_csi_driver.Controller.{custom, short_name, targeted, is_not_found}

-- The snapshot's name from the requested one: the dashes after the first are taken out.
unfoldable pub snapshot_name_of : Option (Text × Text) → Option Text
snapshot_name_of none = none
snapshot_name_of (some (prefix, uuid)) = some (short_name prefix uuid)

module _ (E : Env) where
  unfoldable pub name_or_fail : Option Text → Rpc E Text
  name_or_fail none = fail invalid_argument "CreateVolume: Unexpected volume name format: %q"
  name_or_fail (some name) = pure name

  unfoldable pub make_snapshot : E.Client → VolumeRef → Text → Rpc E (Unit {0})
  make_snapshot client r snapshot_name =
      attempt_operation E (
        E.create_storage_pool_volume_snapshot client r.pool_name custom r.vol_name (record {
          name = snapshot_name;
          description = codes "Managed by Kubernetes VolumeSnapshot " ++ snapshot_name;
        }))
      >>= or_fail E "CreateSnapshot: %v"

  -- The snapshot is made only if the server answers that there is none.
  unfoldable pub ensure_snapshot :
      E.Client → VolumeRef → Text → Result E.Err VolumeSnapshot → Rpc E (Unit {0})
  ensure_snapshot client r snapshot_name (ok snapshot) = pure tt
  ensure_snapshot client r snapshot_name (err e) =
      if is_not_found E e
      then make_snapshot client r snapshot_name
      else or_fail E "CreateSnapshot: Failed to retrieve snapshot %q of volume %q from pool %q: %v"
          (err e)

  unfoldable pub create_snapshot : CreateSnapshotRequest → Rpc E CreateSnapshotResponse
  create_snapshot req = do
    client ← get_client E "CreateSnapshot: %v"
    reject_if (is_empty req.name) invalid_argument "CreateSnapshot: Snapshot name cannot be empty"
    reject_if (is_empty req.source_volume_id) invalid_argument
        "CreateSnapshot: Source volume ID cannot be empty"
    snapshot_name ← name_or_fail (snapshot_name_of (cut req.name b'-'))
    let snapshot_id = get_snapshot_id req.source_volume_id snapshot_name
    r ← or_status invalid_argument "CreateSnapshot: %v" (split_volume_id req.source_volume_id)
    d ← get_driver E
    let client' = targeted E d client r.cluster_member
    with_lock E snapshot_id "CreateSnapshot: Failed to obtain lock %q" (do
      found ←
          attempt E
            (E.get_storage_pool_volume_snapshot client' r.pool_name custom r.vol_name snapshot_name)
      ensure_snapshot client' r snapshot_name found
      pure (record {
        snapshot_id = snapshot_id;
        source_volume_id = req.source_volume_id;
        ready_to_use = true;
      }))
