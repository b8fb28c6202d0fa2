-- ===== src/Controller/Steps.antt =====
-- What the steps of the methods of internal/driver/controller.go keep: whatever is seen of the driver
-- and of the lock table.
use lxd_csi_driver.Base.{String, List, Option, none, some, Result, ok, err, ℤ}
use lxd_csi_driver.Strings.{Text}
use lxd_csi_driver.Csi.{
  CreateVolumeRequest, VolumeCapability, CapacityRange, ContentSource, snapshot, volume,
  unknown_source,
}
use lxd_csi_driver.Dict.{Dict}
use lxd_csi_driver.Capabilities.{CapabilityError}
use lxd_csi_driver.Lxd.{
  Env, StorageVolume, VolumeSnapshot, VolumesPost, Instance, StorageDriverInfo,
}
use lxd_csi_driver.VolumeId.{VolumeRef, SnapshotRef}
use lxd_csi_driver.Driver.{Driver}
use lxd_csi_driver.Rpc.Frame.{
  Keeps, holds, keeping, with_lock-Keeps, get_client-Keeps, pure-Keeps, fail-Keeps, panic-Keeps,
  or_fail-Keeps, if-Keeps, reject_if-Keeps, call-Keeps,
}
use lxd_csi_driver.Controller.{or_fail_unless_not_found}
use lxd_csi_driver.Controller.Create.{
  create_planned, plan_volume, make_volume, check_absent, post_volume, Plan,
}
use lxd_csi_driver.Controller.Create.Request.{
  volume_name_or_fail, check_capabilities, requested_content_type, requested_size, requested_pool,
  driver_or_fail,
}
use lxd_csi_driver.Controller.Create.Source.{
  source_size_or_fail, check_snapshot, check_volume, snapshot_source, volume_source, source_of,
}
use lxd_csi_driver.Controller.Snapshot.{name_or_fail, make_snapshot, ensure_snapshot}
use lxd_csi_driver.Controller.Publish.{existing_volume, attach, publish_locked}
use lxd_csi_driver.Controller.Expand.{size_or_fail, required_bytes, update_size, resize}

-- The steps that branch, for any view of the driver and the locks.
module _ {E : Env} {X : Type 0} (f : Driver E.Client → E.Locks → X) where
  pub or_fail_unless_not_found-Keeps :
      (m : String) (r : Result E.Err (Unit {0})) → Keeps f (or_fail_unless_not_found E m r)
  unfolding or_fail_unless_not_found
  or_fail_unless_not_found-Keeps m (ok a) = pure-Keeps f a
  or_fail_unless_not_found-Keeps m (err e) = search keeping

  pub name_or_fail-Keeps : (o : Option Text) → Keeps f (name_or_fail E o)
  unfolding name_or_fail
  name_or_fail-Keeps none = search keeping
  name_or_fail-Keeps (some name) = search keeping

  pub make_snapshot-Keeps :
      (client : E.Client) (r : VolumeRef) (name : Text) → Keeps f (make_snapshot E client r name)
  unfolding make_snapshot
  make_snapshot-Keeps client r name = search keeping

  pub ensure_snapshot-Keeps :
      (client : E.Client) (r : VolumeRef) (name : Text) (found : Result E.Err VolumeSnapshot)
      → Keeps f (ensure_snapshot E client r name found)
  unfolding ensure_snapshot
  ensure_snapshot-Keeps client r name (ok s) = search keeping
  ensure_snapshot-Keeps client r name (err e) = search (keeping, make_snapshot-Keeps)

  existing_volume-Keeps :
      (found : Result E.Err (StorageVolume × Text)) → Keeps f (existing_volume E found)
  unfolding existing_volume
  existing_volume-Keeps (ok v) = search keeping
  existing_volume-Keeps (err e) = search keeping

  attach-Keeps :
      (client : E.Client) (node : Text) (r : VolumeRef) (content_type : Text)
      (inst : Instance × Text) (dev : Option (Dict Text))
      → Keeps f (attach E client node r content_type inst dev)
  unfolding attach
  attach-Keeps client node r content_type (inst, etag) (some dev) = search keeping
  attach-Keeps client node r content_type (inst, etag) none = search keeping

  pub publish_locked-Keeps :
      (client : E.Client) (node : Text) (r : VolumeRef) (content_type : Text)
      → Keeps f (publish_locked E client node r content_type)
  unfolding publish_locked
  publish_locked-Keeps client node r content_type =
      search (keeping, existing_volume-Keeps, attach-Keeps) depth 16

  pub size_or_fail-Keeps : (o : Option ℤ) → Keeps f (size_or_fail E o)
  unfolding size_or_fail
  size_or_fail-Keeps none = search keeping
  size_or_fail-Keeps (some size) = search keeping

  pub required_bytes-Keeps : (o : Option CapacityRange) → Keeps f (required_bytes E o)
  unfolding required_bytes
  required_bytes-Keeps none = panic-Keeps f
  required_bytes-Keeps (some range) = search keeping

  update_size-Keeps :
      (client : E.Client) (r : VolumeRef) (vol : StorageVolume) (etag : Text) (new : ℤ)
      → Keeps f (update_size E client r vol etag new)
  unfolding update_size
  update_size-Keeps client r vol etag new = search keeping

  pub resize-Keeps :
      (client : E.Client) (r : VolumeRef) (vol : StorageVolume × Text) (old new : ℤ)
      → Keeps f (resize E client r vol old new)
  unfolding resize
  resize-Keeps client r (vol, etag) old new = search (keeping, update_size-Keeps)

  pub volume_name_or_fail-Keeps : (o : Option Text) → Keeps f (volume_name_or_fail E o)
  unfolding volume_name_or_fail
  volume_name_or_fail-Keeps none = search keeping
  volume_name_or_fail-Keeps (some name) = search keeping

  pub check_capabilities-Keeps : (o : Option CapabilityError) → Keeps f (check_capabilities E o)
  check_capabilities-Keeps none = search keeping
  check_capabilities-Keeps (some e) = search keeping

  pub requested_content_type-Keeps :
      (cs : List (Option VolumeCapability)) → Keeps f (requested_content_type E cs)
  unfolding requested_content_type
  requested_content_type-Keeps cs = search (keeping, check_capabilities-Keeps) depth 8

  pub requested_size-Keeps : (o : Option CapacityRange) → Keeps f (requested_size E o)
  unfolding requested_size
  requested_size-Keeps none = panic-Keeps f
  requested_size-Keeps (some range) = search keeping

  pub requested_pool-Keeps : (parameters : Dict Text) → Keeps f (requested_pool E parameters)
  unfolding requested_pool
  requested_pool-Keeps parameters = search keeping depth 8

  pub driver_or_fail-Keeps : (o : Option StorageDriverInfo) → Keeps f (driver_or_fail E o)
  unfolding driver_or_fail
  driver_or_fail-Keeps none = search keeping
  driver_or_fail-Keeps (some driver) = search keeping

  pub source_size_or_fail-Keeps : (m : String) (o : Option ℤ) → Keeps f (source_size_or_fail E m o)
  unfolding source_size_or_fail
  source_size_or_fail-Keeps m none = search keeping
  source_size_or_fail-Keeps m (some size) = search keeping

  pub check_snapshot-Keeps :
      (content_type : Text) (size : ℤ) (s : VolumeSnapshot)
      → Keeps f (check_snapshot E content_type size s)
  unfolding check_snapshot
  check_snapshot-Keeps content_type size s = search (keeping, source_size_or_fail-Keeps) depth 10

  pub check_volume-Keeps :
      (content_type : Text) (size : ℤ) (v : StorageVolume)
      → Keeps f (check_volume E content_type size v)
  unfolding check_volume
  check_volume-Keeps content_type size v = search (keeping, source_size_or_fail-Keeps) depth 10

  pub snapshot_source-Keeps :
      (d : Driver E.Client) (client : E.Client) (content_type : Text) (size : ℤ) (r : SnapshotRef)
      → Keeps f (snapshot_source E d client content_type size r)
  unfolding snapshot_source
  snapshot_source-Keeps d client content_type size r =
      search (keeping, check_snapshot-Keeps) depth 8

  pub volume_source-Keeps :
      (d : Driver E.Client) (client : E.Client) (content_type : Text) (size : ℤ) (r : VolumeRef)
      → Keeps f (volume_source E d client content_type size r)
  unfolding volume_source
  volume_source-Keeps d client content_type size r = search (keeping, check_volume-Keeps) depth 8

  pub source_of-Keeps :
      (d : Driver E.Client) (client : E.Client) (content_type : Text) (size : ℤ) (c : ContentSource)
      → Keeps f (source_of E d client content_type size c)
  unfolding source_of
  source_of-Keeps d client content_type size (snapshot id) = search (keeping, snapshot_source-Keeps)
  source_of-Keeps d client content_type size (volume id) = search (keeping, volume_source-Keeps)
  source_of-Keeps d client content_type size unknown_source = search keeping

  pub check_absent-Keeps :
      (found : Result E.Err (StorageVolume × Text)) → Keeps f (check_absent E found)
  unfolding check_absent
  check_absent-Keeps (ok v) = search keeping
  check_absent-Keeps (err e) = search keeping

  pub post_volume-Keeps :
      (client : E.Client) (p : Plan) (post : VolumesPost) (m : String)
      → Keeps f (post_volume E client p post m)
  unfolding post_volume
  post_volume-Keeps client p post m = search keeping

  pub make_volume-Keeps :
      (d : Driver E.Client) (client : E.Client) (p : Plan) (parameters : Dict Text)
      (c : Option ContentSource)
      → Keeps f (make_volume E d client p parameters c)
  unfolding make_volume
  make_volume-Keeps d client p parameters none = search (keeping, post_volume-Keeps)
  make_volume-Keeps d client p parameters (some c) =
      search (keeping, post_volume-Keeps, source_of-Keeps)

  pub create_planned-Keeps :
      (d : Driver E.Client) (client : E.Client) (p : Plan) (req : CreateVolumeRequest)
      → Keeps f (create_planned E d client p req)
  unfolding create_planned
  create_planned-Keeps d client p req =
      search (keeping, check_absent-Keeps, make_volume-Keeps) depth 8

  pub plan_volume-Keeps :
      (d : Driver E.Client) (client : E.Client) (req : CreateVolumeRequest)
      → Keeps f (plan_volume E d client req)
  unfolding plan_volume
  plan_volume-Keeps d client req =
      search
        (
          keeping, volume_name_or_fail-Keeps, requested_content_type-Keeps, requested_size-Keeps,
          requested_pool-Keeps, driver_or_fail-Keeps,
        )
        depth 16

pub ruleset steps = (
  keeping, or_fail_unless_not_found-Keeps, name_or_fail-Keeps, ensure_snapshot-Keeps,
  publish_locked-Keeps, size_or_fail-Keeps, required_bytes-Keeps, resize-Keeps, plan_volume-Keeps,
  create_planned-Keeps,
)
