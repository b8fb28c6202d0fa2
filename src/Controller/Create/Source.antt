-- ===== src/Controller/Create/Source.antt =====
-- The content source of `CreateVolume` (internal/driver/controller.go): a snapshot or a volume that
-- the new volume is copied from.
use lxd_csi_driver.Base.{not, String, [], ◌∷◌, ◌++◌, Option, none, some, if◌then◌else◌, ℤ, ltb_ℤ}
use lxd_csi_driver.Strings.{Text, codes, is_empty, text_eq}
use lxd_csi_driver.Strconv.{parse_int}
use lxd_csi_driver.Dict.{get}
use lxd_csi_driver.Csi.{
  invalid_argument, failed_precondition, internal, ContentSource, snapshot, volume, unknown_source,
}
use lxd_csi_driver.Lxd.{Env, VolumeSource, VolumeSnapshot, StorageVolume}
use lxd_csi_driver.VolumeId.{VolumeRef, SnapshotRef, split_volume_id, split_snapshot_id}
use lxd_csi_driver.Driver.{Driver}
use lxd_csi_driver.Rpc.{Rpc, ◌>>=◌, ◌>>◌, pure, fail, reject_if, or_status, call}
use lxd_csi_driver.Controller.{custom, size_key}

module _ (E : Env) where
  -- The client for the source: when LXD is clustered the target is set even if it is empty.
  unfoldable pub source_client : Driver E.Client → E.Client → Text → E.Client
  source_client d client source_target =
      if d.is_clustered then E.use_target client source_target else client

  -- The target is cleared where LXD is not clustered.
  unfoldable pub source_location : Driver E.Client → Text → Text
  source_location d source_target = if d.is_clustered then source_target else []

  unfoldable pub source_size_or_fail : String → Option ℤ → Rpc E ℤ
  source_size_or_fail m none = fail internal m
  source_size_or_fail m (some size) = pure size

  -- The source has the content type that is asked for, and a size that is not larger.
  unfoldable pub check_snapshot : Text → ℤ → VolumeSnapshot → Rpc E (Unit {0})
  unfolding source_size_or_fail
  check_snapshot content_type size s = do
    reject_if (not (text_eq s.content_type content_type)) invalid_argument
        "CreateVolume: Content type %q of volume snapshot %q does not match the requested volume content type %q"
    let config_size = get size_key s.config
    reject_if (is_empty config_size) failed_precondition
        "CreateVolume: Cannot determine size of the source volume snapshot %q: Size is not configured"
    source_size ←
        source_size_or_fail
          "CreateVolume: Failed to parse size %q of the source volume snapshot %q: %v"
          (parse_int config_size)
    reject_if (ltb_ℤ size source_size) invalid_argument
        "CreateVolume: Source volume size %d is larger than the volume size %d"

  unfoldable pub check_volume : Text → ℤ → StorageVolume → Rpc E (Unit {0})
  unfolding source_size_or_fail
  check_volume content_type size v = do
    reject_if (not (text_eq v.content_type content_type)) invalid_argument
        "CreateVolume: Content type %q of volume %q does not match the requested volume content type %q"
    let config_size = get size_key v.config
    reject_if (is_empty config_size) failed_precondition
        "CreateVolume: Cannot determine size of the source volume %q: Size is not configured"
    source_size ←
        source_size_or_fail "CreateVolume: Failed to parse size %q of the source volume %q: %v"
          (parse_int config_size)
    reject_if (ltb_ℤ size source_size) invalid_argument
        "CreateVolume: Source volume size %d is larger than the volume size %d"

  abbrev pub copy_of : Text → Text → Text → VolumeSource
  copy_of pool name location = record {
    source_type = codes "copy";
    pool = pool;
    name = name;
    location = location;
  }

  -- LXD reads "<volume>/<snapshot>" as a snapshot.
  unfoldable pub snapshot_source :
      Driver E.Client → E.Client → Text → ℤ → SnapshotRef → Rpc E VolumeSource
  snapshot_source d client content_type size r = do
    s ←
        call E
          (E.get_storage_pool_volume_snapshot (source_client d client r.cluster_member) r.pool_name
            custom r.vol_name r.snapshot_name)
          "CreateVolume: Failed to retrieve source volume snapshot %q: %v"
    check_snapshot content_type size s
    pure (copy_of r.pool_name (r.vol_name ++ b'/' ∷ s.name) (source_location d r.cluster_member))

  unfoldable pub volume_source :
      Driver E.Client → E.Client → Text → ℤ → VolumeRef → Rpc E VolumeSource
  volume_source d client content_type size r = do
    v ←
        call E
          (E.get_storage_pool_volume (source_client d client r.cluster_member) r.pool_name custom
            r.vol_name)
          "CreateVolume: Failed to retrieve source volume: %v"
    check_volume content_type size v.0
    pure (copy_of r.pool_name r.vol_name (source_location d r.cluster_member))

  unfoldable pub source_of :
      Driver E.Client → E.Client → Text → ℤ → ContentSource → Rpc E VolumeSource
  source_of d client content_type size (snapshot id) = do
    r ← or_status invalid_argument "CreateVolume: %v" (split_snapshot_id id)
    snapshot_source d client content_type size r
  source_of d client content_type size (volume id) = do
    r ← or_status invalid_argument "CreateVolume: %v" (split_volume_id id)
    volume_source d client content_type size r
  source_of d client content_type size unknown_source =
      fail invalid_argument "CreateVolume: Unsupported source volume content %q"
