-- ===== src/Tests/Calls.antt =====
-- Calls for a volume that the server has.
use lxd_csi_driver.Base.{
  ℕ, true, false, [], ◌∷◌, ◌++◌, some, ok, ◌≡◌, refl, pos, if◌then◌else◌, arith,
}
use lxd_csi_driver.Strings.{Text, codes, cut, contains, split, replace_all, text_eq}
use lxd_csi_driver.Strconv.{parse_int, format_int}
use lxd_csi_driver.Dict.{get, lookup}
use lxd_csi_driver.Capabilities.{validate_volume_capabilities, check_access_types}
use lxd_csi_driver.Csi.{
  CreateSnapshotRequest, CreateSnapshotResponse, ExpandVolumeRequest, ExpandVolumeResponse,
}
use lxd_csi_driver.Lxd.{VolumeSource, VolumeSnapshot, StorageVolume}
use lxd_csi_driver.VolumeId.{
  VolumeRef, SnapshotRef, split_rest, cut_member, get_snapshot_id, split_volume_id,
  split_snapshot_id,
}
use lxd_csi_driver.VolumeId.RoundTrip.{snapshot_of}
use lxd_csi_driver.Driver.{new_driver}
use lxd_csi_driver.Driver.Connect.{dev_lxd_client}
use lxd_csi_driver.Rpc.{
  done, ◌>>=◌, get_client, get_driver, call, attempt, or_fail, with_lock, attempt_operation,
  wait_on,
}
use lxd_csi_driver.Controller.{short_name, targeted, size_key, custom}
use lxd_csi_driver.Controller.Snapshot.{
  create_snapshot, snapshot_name_of, name_or_fail, ensure_snapshot, make_snapshot,
}
use lxd_csi_driver.Controller.Snapshot.Laws.{create_snapshot-done}
use lxd_csi_driver.Controller.Expand.{
  resized, size_or_fail, required_bytes, update_size, resize, controller_expand_volume,
}
use lxd_csi_driver.Controller.Expand.Laws.{resized_lem, IsExpansion, controller_expand_volume-done}
use lxd_csi_driver.Controller.Create.Source.{
  source_client, source_location, check_snapshot, check_volume, copy_of, snapshot_source,
  volume_source,
}
use lxd_csi_driver.Controller.Create.Copies.{Fits, snapshot_source-Fits, volume_source-Fits}
use lxd_csi_driver.Tests.Fake.{fake, connected, connected_driver, stored_volume}
use lxd_csi_driver.Tests.Methods.{answered, mount_capability}

abbrev pub stored_ref : VolumeRef
stored_ref = record { cluster_member = []; pool_name = codes "default"; vol_name = codes "vol" }

abbrev snapshot_request : CreateSnapshotRequest
snapshot_request = record { name = codes "snapshot-4-2"; source_volume_id = codes "default/vol" }

abbrev snapshot_response : CreateSnapshotResponse
snapshot_response = record {
  snapshot_id = codes "default/vol/snapshot-42";
  source_volume_id = codes "default/vol";
  ready_to_use = true;
}

snapshots : (create_snapshot fake snapshot_request connected).0 ≡ done snapshot_response
unfolding new_driver create_snapshot ◌>>=◌ get_client dev_lxd_client name_or_fail snapshot_name_of
    short_name cut replace_all split_volume_id split_rest cut_member contains split get_driver
    targeted with_lock attempt ensure_snapshot make_snapshot attempt_operation wait_on or_fail
    get_snapshot_id text_eq
snapshots = refl

create_snapshot-done_example :
    (r : VolumeRef) × (name : Text) × (codes "default/vol" ≡ codes "default/vol")
    × (snapshot_name_of (cut (codes "snapshot-4-2") b'-') ≡ some name)
    × (split_volume_id (codes "default/vol") ≡ ok r)
    × (split_snapshot_id (codes "default/vol/snapshot-42") ≡ ok (snapshot_of r name))
create_snapshot-done_example =
    create_snapshot-done fake snapshot_request connected (omega arith) (omega arith)
      (answered snapshots)

abbrev expand_request : ExpandVolumeRequest
expand_request = record {
  volume_id = codes "default/vol";
  capacity_range = some (record { required_bytes = pos 2048; limit_bytes = pos 0 });
  volume_capability = mount_capability;
}

abbrev expand_response : ExpandVolumeResponse
expand_response = record { capacity_bytes = pos 2048; node_expansion_required = false }

expands : (controller_expand_volume fake expand_request connected).0 ≡ done expand_response
unfolding new_driver controller_expand_volume ◌>>=◌ get_client dev_lxd_client split_volume_id
    split_rest cut_member contains cut split get_driver targeted validate_volume_capabilities
    check_access_types with_lock call attempt or_fail lookup size_or_fail parse_int required_bytes
    resize update_size attempt_operation wait_on resized text_eq
expands = refl

controller_expand_volume-done_example :
    IsExpansion fake connected
      (controller_expand_volume fake expand_request connected).1
      expand_request
      expand_response
controller_expand_volume-done_example =
    controller_expand_volume-done fake expand_request connected (answered expands)

resized_lem_example :
    ((resized stored_volume (pos 2048)).description ≡ [])
    × (parse_int (get size_key (resized stored_volume (pos 2048)).config) ≡ some (pos 2048))
    × (lookup (codes "volatile.uuid") (resized stored_volume (pos 2048)).config ≡ (
        if text_eq size_key (codes "volatile.uuid")
        then some (format_int (pos 2048))
        else lookup (codes "volatile.uuid") stored_volume.config))
resized_lem_example = resized_lem stored_volume (pos 2048) (codes "volatile.uuid") (omega arith)

abbrev stored_snapshot_ref : SnapshotRef
stored_snapshot_ref = snapshot_of stored_ref (codes "snap")

abbrev snapshot_copy : VolumeSource
snapshot_copy = record {
  source_type = codes "copy";
  pool = codes "default";
  name = codes "vol/snap";
  location = [];
}

abbrev volume_copy : VolumeSource
volume_copy = record {
  source_type = codes "copy";
  pool = codes "default";
  name = codes "vol";
  location = [];
}

copies_snapshot :
    (snapshot_source fake connected_driver []
      (codes "filesystem")
      (pos 2048)
      stored_snapshot_ref
      connected).0
    ≡ done snapshot_copy
unfolding new_driver snapshot_source ◌>>=◌ source_client source_location targeted call attempt
    or_fail check_snapshot parse_int lookup text_eq
copies_snapshot = refl

snapshot_source-Fits_example :
    (s : VolumeSnapshot) × (after : ℕ) × (fake.get_storage_pool_volume_snapshot
        (source_client fake connected_driver [] [])
        (codes "default")
        custom
        (codes "vol")
        (codes "snap")
        0
      ≡ (ok s, after))
    × Fits (codes "filesystem") (pos 2048) s.content_type s.config
    × (snapshot_copy
        ≡ copy_of fake
            (codes "default")
            (codes "vol" ++ b'/' ∷ s.name)
            (source_location fake connected_driver []))
snapshot_source-Fits_example =
    snapshot_source-Fits fake connected_driver [] (codes "filesystem") (pos 2048)
      stored_snapshot_ref (record { run = answered copies_snapshot })

copies_volume :
    (volume_source fake connected_driver [] (codes "filesystem") (pos 2048) stored_ref connected).0
    ≡ done volume_copy
unfolding new_driver volume_source ◌>>=◌ source_client source_location targeted call attempt or_fail
    check_volume parse_int lookup text_eq
copies_volume = refl

volume_source-Fits_example :
    (v : StorageVolume) × (etag : Text) × (after : ℕ) × (fake.get_storage_pool_volume
        (source_client fake connected_driver [] [])
        (codes "default")
        custom
        (codes "vol")
        0
      ≡ (ok (v, etag), after))
    × Fits (codes "filesystem") (pos 2048) v.content_type v.config
    × (volume_copy
        ≡ copy_of fake (codes "default") (codes "vol") (source_location fake connected_driver []))
volume_source-Fits_example =
    volume_source-Fits fake connected_driver [] (codes "filesystem") (pos 2048) stored_ref
      (record { run = answered copies_volume })
