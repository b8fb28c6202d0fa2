-- ===== src/VolumeId.antt =====
-- The volume and snapshot IDs of internal/driver/driver.go: `getVolumeID`, `splitVolumeID`,
-- `splitSnapshotID`, and the ID that `CreateSnapshot` builds.
pub mod RoundTrip
pub mod Sound
use lxd_csi_driver.Base.{
  Bool, true, false, List, [], ◌∷◌, ◌++◌, Option, none, some, Result, ok, err, if◌then◌else◌,
}
use lxd_csi_driver.Strings.{Text, is_empty, contains, cut, split}

pub record VolumeRef : Type 0 where
  pub cluster_member : Text
  pub pool_name : Text
  pub vol_name : Text

pub record SnapshotRef : Type 0 where
  pub cluster_member : Text
  pub pool_name : Text
  pub vol_name : Text
  pub snapshot_name : Text

-- "Volume ID is empty" and "Invalid volume ID %q", and the same of a snapshot ID.
pub data IdError : Type 0 where
  empty_id : IdError
  invalid_id : Text → IdError

unfoldable pub get_volume_id : Text → Text → Text → Text
get_volume_id cluster_member pool_name vol_name =
    let volume_id = pool_name ++ b'/' ∷ vol_name in
    if is_empty cluster_member then volume_id else cluster_member ++ b':' ∷ volume_id

abbrev pub or_whole : Text → Option (Text × Text) → Text × Text
or_whole id none = (id, [])
or_whole id (some parts) = parts

-- The cluster member in front of the first colon, if there is a colon, and what remains of the ID.
unfoldable pub cut_member : Text → Text × Text
cut_member id = if contains id b':' then or_whole id (cut id b':') else ([], id)

abbrev pub volume_parts : Text → Text → List Text → Result IdError VolumeRef
volume_parts member id (pool ∷ vol ∷ []) =
    ok (record { cluster_member = member; pool_name = pool; vol_name = vol })
volume_parts member id _ = err (invalid_id id)

unfoldable pub split_rest : Text × Text → Result IdError VolumeRef
split_rest (member, id) =
    if is_empty id then err empty_id else volume_parts member id (split id b'/')

unfoldable pub split_volume_id : Text → Result IdError VolumeRef
split_volume_id id = split_rest (cut_member id)

abbrev pub snapshot_parts : Text → Text → List Text → Result IdError SnapshotRef
snapshot_parts member id (pool ∷ vol ∷ snapshot ∷ []) =
    ok (record {
      cluster_member = member;
      pool_name = pool;
      vol_name = vol;
      snapshot_name = snapshot;
    })
snapshot_parts member id _ = err (invalid_id id)

unfoldable pub split_snapshot_rest : Text × Text → Result IdError SnapshotRef
split_snapshot_rest (member, id) =
    if is_empty id then err empty_id else snapshot_parts member id (split id b'/')

unfoldable pub split_snapshot_id : Text → Result IdError SnapshotRef
split_snapshot_id id = split_snapshot_rest (cut_member id)

-- `snapshotID := req.SourceVolumeId + "/" + snapshotName`
unfoldable pub get_snapshot_id : Text → Text → Text
get_snapshot_id volume_id snapshot_name = volume_id ++ b'/' ∷ snapshot_name
