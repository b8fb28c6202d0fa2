-- ===== src/Tests/Ids.antt =====
-- Concrete IDs and numbers.
use lxd_csi_driver.Base.{ok, err, ◌≡◌, refl, arith}
use lxd_csi_driver.Strings.{Text, codes, contains, cut, split}
use lxd_csi_driver.VolumeId.{
  VolumeRef, invalid_id, get_volume_id, cut_member, split_rest, split_volume_id, split_snapshot_id,
}
use lxd_csi_driver.VolumeId.RoundTrip.{IsSeparable, split_volume_id-get_volume_id}
use lxd_csi_driver.VolumeId.Sound.{IsSplit, split_volume_id_sound, split_snapshot_id_of_volume}

abbrev example_ref : VolumeRef
example_ref = record {
  cluster_member = codes "m1";
  pool_name = codes "default";
  vol_name = codes "csi-0a1b";
}

abbrev example_id : Text
example_id = codes "m1:default/csi-0a1b"

separable : IsSeparable (codes "m1") (codes "default") (codes "csi-0a1b")
separable = record {
  member_no_colon = omega arith;
  pool_no_colon = omega arith;
  vol_no_colon = omega arith;
  pool_no_slash = omega arith;
  vol_no_slash = omega arith;
}

split_volume_id-get_volume_id_example :
    split_volume_id (get_volume_id (codes "m1") (codes "default") (codes "csi-0a1b"))
    ≡ ok example_ref
split_volume_id-get_volume_id_example =
    split_volume_id-get_volume_id (codes "m1") (codes "default") (codes "csi-0a1b") separable

split_example : split_volume_id example_id ≡ ok example_ref
unfolding split_volume_id split_rest cut_member contains cut split
split_example = refl

split_volume_id_sound_example : IsSplit example_id example_ref
split_volume_id_sound_example = split_volume_id_sound example_id split_example

split_snapshot_id_of_volume_example :
    split_snapshot_id example_id ≡ err (invalid_id (cut_member example_id).1)
split_snapshot_id_of_volume_example = split_snapshot_id_of_volume example_id split_example
