-- ===== src/Controller/Create/Copies.antt =====
-- What `CreateVolume` (internal/driver/controller.go) copies from.
use lxd_csi_driver.Base.{false, not, String, ◌∷◌, ◌++◌, Option, none, some, ok, ◌≡◌, arith, ℤ, ◌≤ℤ◌}
use lxd_csi_driver.Strings.{Text, text_eq}
use lxd_csi_driver.Strings.Equality.{text_eq_iff}
use lxd_csi_driver.Strconv.{parse_int}
use lxd_csi_driver.Dict.{Dict, get}
use lxd_csi_driver.Lxd.{Env, VolumeSource, StorageVolume, VolumeSnapshot}
use lxd_csi_driver.VolumeId.{VolumeRef, SnapshotRef}
use lxd_csi_driver.Driver.{Driver, World}
use lxd_csi_driver.Rpc.Invert.{Runs, bind-Runs, pure-Runs, reject_if-Runs, call-Runs}
use lxd_csi_driver.Controller.{custom, size_key}
use lxd_csi_driver.Controller.Create.Source.{
  source_client, source_location, source_size_or_fail, check_snapshot, check_volume, copy_of,
  snapshot_source, volume_source,
}

-- A source has the content type that is asked for, and a size that fits into the new volume.
pub record Fits (content_type : Text) (size : ℤ) (source_type : Text) (config : Dict Text)
    : Type 0 where
  pub same_type : source_type ≡ content_type
  pub source_size : ℤ
  pub size_eq : parse_int (get size_key config) ≡ some source_size
  pub not_larger : source_size ≤ℤ size

module _ (E : Env) where
  source_size_or_fail-Runs :
      (m : String) (o : Option ℤ) {w w' : World E} {size : ℤ}
      → Runs (source_size_or_fail E m o) w size w'
      → o ≡ some size
  unfolding source_size_or_fail
  source_size_or_fail-Runs m none h = cc (h.run)
  source_size_or_fail-Runs m (some size) h = cc (h.run)

  same_of_accepted : (a b : Text) → not (text_eq a b) ≡ false → a ≡ b
  same_of_accepted a b h = ground (arith, text_eq_iff a b)

  check_snapshot-Fits :
      (content_type : Text) (size : ℤ) (s : VolumeSnapshot) {w w' : World E} {u : Unit {0}}
      → Runs (check_snapshot E content_type size s) w u w'
      → Fits content_type size s.content_type s.config
  unfolding check_snapshot
  check_snapshot-Fits content_type size s {w} h =
      let (_, w1, p1, h1) = bind-Runs h in
      let (_, w2, p2, h2) = bind-Runs h1 in
      let (source_size, w3, p3, h3) = bind-Runs h2 in
      let (small, _) = reject_if-Runs _ _ _ w3 h3 in
      record {
        same_type = same_of_accepted s.content_type content_type (reject_if-Runs _ _ _ w p1).0;
        source_size = source_size;
        size_eq = source_size_or_fail-Runs _ _ p3;
        not_larger = ground arith;
      }

  check_volume-Fits :
      (content_type : Text) (size : ℤ) (v : StorageVolume) {w w' : World E} {u : Unit {0}}
      → Runs (check_volume E content_type size v) w u w'
      → Fits content_type size v.content_type v.config
  unfolding check_volume
  check_volume-Fits content_type size v {w} h =
      let (_, w1, p1, h1) = bind-Runs h in
      let (_, w2, p2, h2) = bind-Runs h1 in
      let (source_size, w3, p3, h3) = bind-Runs h2 in
      let (small, _) = reject_if-Runs _ _ _ w3 h3 in
      record {
        same_type = same_of_accepted v.content_type content_type (reject_if-Runs _ _ _ w p1).0;
        source_size = source_size;
        size_eq = source_size_or_fail-Runs _ _ p3;
        not_larger = ground arith;
      }

  -- A volume is copied from a snapshot only if LXD returned that snapshot, it has the content type
  -- that is asked for, and its size is not larger. The copy is of "<volume>/<snapshot>" in the pool
  -- of the snapshot's ID, on the ID's cluster member if LXD is clustered.
  pub snapshot_source-Fits :
      (d : Driver E.Client) (client : E.Client) (content_type : Text) (size : ℤ) (r : SnapshotRef)
      {w w' : World E} {source : VolumeSource}
      → Runs (snapshot_source E d client content_type size r) w source w'
      → (s : VolumeSnapshot) × (after : E.State) × (E.get_storage_pool_volume_snapshot
            (source_client E d client r.cluster_member)
            r.pool_name
            custom
            r.vol_name
            r.snapshot_name
            w.state
          ≡ (ok s, after))
        × Fits content_type size s.content_type s.config
        × (source
            ≡ copy_of E r.pool_name
                (r.vol_name ++ b'/' ∷ s.name)
                (source_location E d r.cluster_member))
  unfolding snapshot_source
  snapshot_source-Fits d client content_type size r {w} h =
      let (s, w1, p1, h1) = bind-Runs h in
      let (_, w2, p2, h2) = bind-Runs h1 in
      (
        s,
        w1.state,
        (call-Runs _ _ w p1).0,
        check_snapshot-Fits content_type size s p2,
        (pure-Runs h2).0,
      )

  -- A volume is copied from another one only if LXD returned that volume, it has the content type that
  -- is asked for, and its size is not larger. The copy is of the volume in the pool of its ID, on the
  -- ID's cluster member if LXD is clustered.
  pub volume_source-Fits :
      (d : Driver E.Client) (client : E.Client) (content_type : Text) (size : ℤ) (r : VolumeRef)
      {w w' : World E} {source : VolumeSource}
      → Runs (volume_source E d client content_type size r) w source w'
      → (v : StorageVolume) × (etag : Text) × (after : E.State) × (E.get_storage_pool_volume
            (source_client E d client r.cluster_member)
            r.pool_name
            custom
            r.vol_name
            w.state
          ≡ (ok (v, etag), after))
        × Fits content_type size v.content_type v.config
        × (source ≡ copy_of E r.pool_name r.vol_name (source_location E d r.cluster_member))
  unfolding volume_source
  volume_source-Fits d client content_type size r {w} h =
      let ((v, etag), w1, p1, h1) = bind-Runs h in
      let (_, w2, p2, h2) = bind-Runs h1 in
      (
        v,
        etag,
        w1.state,
        (call-Runs _ _ w p1).0,
        check_volume-Fits content_type size v p2,
        (pure-Runs h2).0,
      )
