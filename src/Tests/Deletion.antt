-- ===== src/Tests/Deletion.antt =====
-- Deletions of a volume and of a snapshot.
use lxd_csi_driver.Base.{ℕ, some, ok, ◌≡◌, refl, Result}
use lxd_csi_driver.Strings.{Text, codes, cut, contains, split}
use lxd_csi_driver.VolumeId.{
  VolumeRef, SnapshotRef, split_rest, split_snapshot_rest, cut_member, split_volume_id,
  split_snapshot_id,
}
use lxd_csi_driver.Driver.{World, new_driver}
use lxd_csi_driver.Driver.Connect.{dev_lxd_client}
use lxd_csi_driver.Rpc.{
  done, ◌>>=◌, get_client, get_driver, attempt, with_lock, attempt_operation, wait_on,
}
use lxd_csi_driver.Controller.{custom, targeted, or_fail_unless_not_found}
use lxd_csi_driver.Controller.Delete.{delete_volume, delete_snapshot}
use lxd_csi_driver.Controller.Delete.Laws.{IsGone, delete_volume-done, delete_snapshot-done}
use lxd_csi_driver.Tests.Fake.{fake, connected}
use lxd_csi_driver.Tests.Methods.{answered}

deletes_volume : (delete_volume fake (codes "default/vol") connected).0 ≡ done tt
unfolding new_driver delete_volume ◌>>=◌ get_client dev_lxd_client split_volume_id split_rest
    cut_member contains cut split get_driver with_lock attempt attempt_operation wait_on
    or_fail_unless_not_found
deletes_volume = refl

delete_volume-done_example :
    (client : Text) × (session after : World fake) × (locks : fake.Locks) × (r : VolumeRef)
    × (answer : Result ℕ (Unit {0})) × (dev_lxd_client fake connected ≡ (ok client, session))
    × (fake.try_lock (codes "default/vol") session.locks ≡ some locks)
    × (split_volume_id (codes "default/vol") ≡ ok r)
    × (attempt_operation fake
          (fake.delete_storage_pool_volume
            (targeted fake session.driver client r.cluster_member)
            r.pool_name
            custom
            r.vol_name)
          (record session { locks = locks })
        ≡ (done answer, after))
    × IsGone fake answer
delete_volume-done_example =
    delete_volume-done fake (codes "default/vol") connected (answered deletes_volume)

deletes_snapshot : (delete_snapshot fake (codes "default/vol/snap") connected).0 ≡ done tt
unfolding new_driver delete_snapshot ◌>>=◌ get_client dev_lxd_client split_snapshot_id
    split_snapshot_rest cut_member contains cut split get_driver with_lock attempt attempt_operation
    wait_on or_fail_unless_not_found
deletes_snapshot = refl

delete_snapshot-done_example :
    (client : Text) × (session after : World fake) × (locks : fake.Locks) × (r : SnapshotRef)
    × (answer : Result ℕ (Unit {0})) × (dev_lxd_client fake connected ≡ (ok client, session))
    × (fake.try_lock (codes "default/vol/snap") session.locks ≡ some locks)
    × (split_snapshot_id (codes "default/vol/snap") ≡ ok r)
    × (attempt_operation fake
          (fake.delete_storage_pool_volume_snapshot
            (targeted fake session.driver client r.cluster_member)
            r.pool_name
            custom
            r.vol_name
            r.snapshot_name)
          (record session { locks = locks })
        ≡ (done answer, after))
    × IsGone fake answer
delete_snapshot-done_example =
    delete_snapshot-done fake (codes "default/vol/snap") connected (answered deletes_snapshot)
