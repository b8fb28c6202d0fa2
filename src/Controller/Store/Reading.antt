-- ===== src/Controller/Store/Reading.antt =====
-- The steps of `CreateVolume` (internal/driver/controller.go) that only read: they leave what LXD keeps.
use lxd_csi_driver.Base.{String, List, Option, none, some, Result, ok, err, ℤ}
use lxd_csi_driver.Strings.{Text}
use lxd_csi_driver.Dict.{Dict}
use lxd_csi_driver.Csi.{
  CreateVolumeRequest, VolumeCapability, CapacityRange, ContentSource, snapshot, volume,
  unknown_source,
}
use lxd_csi_driver.Capabilities.{CapabilityError}
use lxd_csi_driver.Lxd.{Env, StorageVolume, VolumeSnapshot, StorageDriverInfo}
use lxd_csi_driver.VolumeId.{VolumeRef, SnapshotRef}
use lxd_csi_driver.Driver.{Driver}
use lxd_csi_driver.Driver.Connect.Reads.{ConnectKeeps}
use lxd_csi_driver.Rpc.Retains.{Leaves, Retains, retaining, panic-Retains}
use lxd_csi_driver.Controller.Create.{plan_volume, check_absent}
use lxd_csi_driver.Controller.Create.Request.{
  volume_name_or_fail, check_capabilities, requested_content_type, requested_size, requested_pool,
  driver_or_fail,
}
use lxd_csi_driver.Controller.Create.Source.{
  source_size_or_fail, check_snapshot, check_volume, snapshot_source, volume_source, source_of,
}

-- The reading calls that `CreateVolume` makes leave the view.
pub record ReadsLeave {X : Type 0} (E : Env) (g : E.State → X) : Type 0 where
  pub connects : ConnectKeeps E g
  pub get_pool : (client : E.Client) (pool : Text) → Leaves g (E.get_storage_pool client pool)
  pub get_volume :
      (client : E.Client) (pool kind name : Text)
      → Leaves g (E.get_storage_pool_volume client pool kind name)
  pub get_snapshot :
      (client : E.Client) (pool kind name snapshot : Text)
      → Leaves g (E.get_storage_pool_volume_snapshot client pool kind name snapshot)

module _ {E : Env} {X : Type 0} (g : E.State → X) where
  pub volume_name_or_fail-Retains : (o : Option Text) → Retains g (volume_name_or_fail E o)
  unfolding volume_name_or_fail
  volume_name_or_fail-Retains none = search retaining
  volume_name_or_fail-Retains (some name) = search retaining

  check_capabilities-Retains : (o : Option CapabilityError) → Retains g (check_capabilities E o)
  check_capabilities-Retains none = search retaining
  check_capabilities-Retains (some e) = search retaining

  pub requested_content_type-Retains :
      (cs : List (Option VolumeCapability)) → Retains g (requested_content_type E cs)
  unfolding requested_content_type
  requested_content_type-Retains cs = search (retaining, check_capabilities-Retains) depth 8

  pub requested_size-Retains : (o : Option CapacityRange) → Retains g (requested_size E o)
  unfolding requested_size
  requested_size-Retains none = panic-Retains g
  requested_size-Retains (some range) = search retaining

  pub requested_pool-Retains : (parameters : Dict Text) → Retains g (requested_pool E parameters)
  unfolding requested_pool
  requested_pool-Retains parameters = search retaining depth 8

  driver_or_fail-Retains : (o : Option StorageDriverInfo) → Retains g (driver_or_fail E o)
  unfolding driver_or_fail
  driver_or_fail-Retains none = search retaining
  driver_or_fail-Retains (some driver) = search retaining

  source_size_or_fail-Retains : (m : String) (o : Option ℤ) → Retains g (source_size_or_fail E m o)
  unfolding source_size_or_fail
  source_size_or_fail-Retains m none = search retaining
  source_size_or_fail-Retains m (some size) = search retaining

  check_snapshot-Retains :
      (content_type : Text) (size : ℤ) (s : VolumeSnapshot)
      → Retains g (check_snapshot E content_type size s)
  unfolding check_snapshot
  check_snapshot-Retains content_type size s =
      search (retaining, source_size_or_fail-Retains) depth 10

  check_volume-Retains :
      (content_type : Text) (size : ℤ) (v : StorageVolume)
      → Retains g (check_volume E content_type size v)
  unfolding check_volume
  check_volume-Retains content_type size v =
      search (retaining, source_size_or_fail-Retains) depth 10

  pub check_absent-Retains :
      (found : Result E.Err (StorageVolume × Text)) → Retains g (check_absent E found)
  unfolding check_absent
  check_absent-Retains (ok v) = search retaining
  check_absent-Retains (err e) = search retaining

  get_state-Leaves : (l : ReadsLeave E g) (client : E.Client) → Leaves g (E.get_state client)
  get_state-Leaves l client = record { of = (l.connects).get_state client }

  pub plan_volume-Retains :
      (l : ReadsLeave E g) (d : Driver E.Client) (client : E.Client) (req : CreateVolumeRequest)
      → Retains g (plan_volume E d client req)
  unfolding plan_volume
  plan_volume-Retains l d client req =
      search
        (
          retaining,
          volume_name_or_fail-Retains,
          requested_content_type-Retains,
          requested_size-Retains,
          requested_pool-Retains,
          driver_or_fail-Retains,
          l.get_pool,
          get_state-Leaves l,
        )
        depth 16

  snapshot_source-Retains :
      (l : ReadsLeave E g) (d : Driver E.Client) (client : E.Client) (content_type : Text)
      (size : ℤ) (r : SnapshotRef)
      → Retains g (snapshot_source E d client content_type size r)
  unfolding snapshot_source
  snapshot_source-Retains l d client content_type size r =
      search (retaining, check_snapshot-Retains, l.get_snapshot) depth 8

  volume_source-Retains :
      (l : ReadsLeave E g) (d : Driver E.Client) (client : E.Client) (content_type : Text)
      (size : ℤ) (r : VolumeRef)
      → Retains g (volume_source E d client content_type size r)
  unfolding volume_source
  volume_source-Retains l d client content_type size r =
      search (retaining, check_volume-Retains, l.get_volume) depth 8

  pub source_of-Retains :
      (l : ReadsLeave E g) (d : Driver E.Client) (client : E.Client) (content_type : Text)
      (size : ℤ) (c : ContentSource)
      → Retains g (source_of E d client content_type size c)
  unfolding source_of
  source_of-Retains l d client content_type size (snapshot id) =
      search (retaining, snapshot_source-Retains)
  source_of-Retains l d client content_type size (volume id) =
      search (retaining, volume_source-Retains)
  source_of-Retains l d client content_type size unknown_source = search retaining
