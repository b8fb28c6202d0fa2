-- ===== src/VolumeId/Sound.antt =====
-- Which IDs `splitVolumeID` and `splitSnapshotID` of internal/driver/driver.go accept.
use lxd_csi_driver.Base.{
  List, [], ◌∷◌, ◌++◌, Option, none, some, ok, err, ◌≡◌, ◌⊎◌, inl, inr, refl, All, ◌∙◌, ap,
}
use mathlib.Core.Path.{subst}
use lxd_csi_driver.Strings.{Text, cut, split, join}
use lxd_csi_driver.Strings.Laws.{Lacks, cut-IsCut, IsCut, join-split, split-Lacks}
use lxd_csi_driver.VolumeId.{
  VolumeRef, invalid_id, get_volume_id, cut_member, snapshot_parts, split_volume_id,
  split_snapshot_id, split_rest, split_snapshot_rest, volume_parts,
}
use lxd_csi_driver.VolumeId.RoundTrip.{member_and_rest, cut_member_lem}

-- The parts of a reference spell the rest of the ID, and hold no slash.
record Spells (r : VolumeRef) (member rest : Text) : Type 0 where
  member_eq : r.cluster_member ≡ member
  rest_eq : rest ≡ r.pool_name ++ b'/' ∷ r.vol_name
  pool_no_slash : Lacks b'/' r.pool_name
  vol_no_slash : Lacks b'/' r.vol_name

volume_parts_sound :
    (member id : Text) (parts : List Text) {r : VolumeRef}
    → All (Lacks b'/') parts
    → volume_parts member id parts ≡ ok r
    → Spells r member (join parts b'/')
unfolding join
volume_parts_sound member id [] a h = cc
volume_parts_sound member id (p ∷ []) a h = cc
volume_parts_sound member id (p ∷ v ∷ []) {r} (hp, (hv, _)) h =
    let e : record { cluster_member = member; pool_name = p; vol_name = v } ≡ r = cc in
    subst (λ r. Spells r member (p ++ b'/' ∷ v)) e
      (record { member_eq = refl; rest_eq = refl; pool_no_slash = hp; vol_no_slash = hv })
volume_parts_sound member id (p ∷ v ∷ q ∷ r) a h = cc

split_rest_sound :
    (member rest : Text) {r : VolumeRef} → split_rest (member, rest) ≡ ok r → Spells r member rest
unfolding split_rest
split_rest_sound member [] h = cc
split_rest_sound member (c ∷ rest) h =
    rw (join-split (c ∷ rest) b'/') at
      (volume_parts_sound member (c ∷ rest) (split (c ∷ rest) b'/') (split-Lacks (c ∷ rest) b'/') h)

-- What an accepted ID says of its parts.
pub record IsSplit (id : Text) (r : VolumeRef) : Type 0 where
  pub spelled :
      (id ≡ get_volume_id r.cluster_member r.pool_name r.vol_name)
      ⊎ ((r.cluster_member ≡ []) × (id ≡ b':' ∷ r.pool_name ++ b'/' ∷ r.vol_name))
  pub member_no_colon : Lacks b':' r.cluster_member
  pub pool_no_slash : Lacks b'/' r.pool_name
  pub vol_no_slash : Lacks b'/' r.vol_name

IsSplit-of_Spells :
    (id : Text) (o : Option (Text × Text)) {r : VolumeRef}
    → IsCut id b':' o
    → Spells r (member_and_rest id o).0 (member_and_rest id o).1
    → IsSplit id r
unfolding get_volume_id
IsSplit-of_Spells id none {r} c s = record {
  spelled = inl (rw s.member_eq s.rest_eq);
  member_no_colon = rw s.member_eq tt;
  pool_no_slash = s.pool_no_slash;
  vol_no_slash = s.vol_no_slash;
}
IsSplit-of_Spells id (some ([], rest)) {r} c s = record {
  spelled = inr (s.member_eq, c.0 ∙ ap (λ t. b':' ∷ t) s.rest_eq);
  member_no_colon = rw s.member_eq tt;
  pool_no_slash = s.pool_no_slash;
  vol_no_slash = s.vol_no_slash;
}
IsSplit-of_Spells id (some (d ∷ m, rest)) {r} c s = record {
  spelled = inl (rw s.member_eq (c.0 ∙ ap (λ t. d ∷ m ++ b':' ∷ t) s.rest_eq));
  member_no_colon = rw s.member_eq c.1;
  pool_no_slash = s.pool_no_slash;
  vol_no_slash = s.vol_no_slash;
}

-- An accepted volume ID is the ID that is built from its parts, or that ID behind one more, leading,
-- colon where the cluster member is empty. The cluster member then holds no colon, and the pool and
-- the volume hold no slash.
pub split_volume_id_sound : (id : Text) {r : VolumeRef} → split_volume_id id ≡ ok r → IsSplit id r
unfolding split_volume_id
split_volume_id_sound id h =
    IsSplit-of_Spells id (cut id b':') (cut-IsCut id b':')
      (split_rest_sound _ _ (rw cut_member_lem at h))

-- An ID with the parts of a volume has not those of a snapshot.
parts_disjoint :
    (member id : Text) (parts : List Text) {r : VolumeRef}
    → volume_parts member id parts ≡ ok r
    → snapshot_parts member id parts ≡ err (invalid_id id)
parts_disjoint member id [] h = refl
parts_disjoint member id (p ∷ []) h = refl
parts_disjoint member id (p ∷ v ∷ []) h = refl
parts_disjoint member id (p ∷ v ∷ q ∷ r) h = cc

split_rest_disjoint :
    (member rest : Text) {r : VolumeRef}
    → split_rest (member, rest) ≡ ok r
    → split_snapshot_rest (member, rest) ≡ err (invalid_id rest)
unfolding split_rest split_snapshot_rest
split_rest_disjoint member [] h = cc
split_rest_disjoint member (c ∷ rest) h = parts_disjoint member (c ∷ rest) (split (c ∷ rest) b'/') h

-- No ID is accepted both as a volume's and as a snapshot's: an accepted volume ID is an invalid
-- snapshot ID.
pub split_snapshot_id_of_volume :
    (id : Text) {r : VolumeRef}
    → split_volume_id id ≡ ok r
    → split_snapshot_id id ≡ err (invalid_id (cut_member id).1)
unfolding split_volume_id split_snapshot_id
split_snapshot_id_of_volume id h = split_rest_disjoint (cut_member id).0 (cut_member id).1 h
