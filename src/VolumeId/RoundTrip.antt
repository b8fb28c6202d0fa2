-- ===== src/VolumeId/RoundTrip.antt =====
-- Building and splitting the IDs of internal/driver/driver.go.
use lxd_csi_driver.Base.{
  ℕ, false, List, [], ◌∷◌, ◌++◌, Option, none, some, ok, ◌≡◌, refl, arith, Bool-cases, inl, inr,
  All-append, Option-cases,
}
use lxd_csi_driver.Strings.{Text, is_empty, contains, cut, split}
use lxd_csi_driver.Strings.Laws.{
  Lacks, contains-append_sep, contains_of_Lacks, cut-append_sep, split_of_Lacks, split-append_sep,
  split-append_part, cut-append, cut-contains, contains_of_cut, on_after,
}
use lxd_csi_driver.VolumeId.{
  VolumeRef, SnapshotRef, get_volume_id, get_snapshot_id, cut_member, snapshot_parts,
  split_volume_id, split_snapshot_id, split_rest, split_snapshot_rest, volume_parts,
}

-- The parts of an ID hold none of the separators that would be cut at.
pub record IsSeparable (member pool vol : Text) : Type 0 where
  pub member_no_colon : Lacks b':' member
  pub pool_no_colon : Lacks b':' pool
  pub vol_no_colon : Lacks b':' vol
  pub pool_no_slash : Lacks b'/' pool
  pub vol_no_slash : Lacks b'/' vol

cut_member-get_volume_id :
    (member pool vol : Text)
    → IsSeparable member pool vol
    → cut_member (get_volume_id member pool vol) ≡ (member, pool ++ b'/' ∷ vol)
unfolding cut_member get_volume_id
cut_member-get_volume_id [] pool vol s = rw (
    contains_of_Lacks (pool ++ b'/' ∷ vol) b':'
      (All-append _ pool (b'/' ∷ vol) s.pool_no_colon (omega arith, s.vol_no_colon)))
cut_member-get_volume_id (c ∷ member) pool vol s = rw (
  contains-append_sep (c ∷ member) (pool ++ b'/' ∷ vol) b':',
  cut-append_sep (c ∷ member) (pool ++ b'/' ∷ vol) b':' s.member_no_colon,
)

is_empty-append_cons : (s t : Text) (c : ℕ) → is_empty (s ++ c ∷ t) ≡ false
is_empty-append_cons [] t c = refl
is_empty-append_cons (d ∷ s) t c = refl

split_rest-volume :
    (member pool vol : Text)
    → Lacks b'/' pool
    → Lacks b'/' vol
    → split_rest (member, pool ++ b'/' ∷ vol)
      ≡ ok (record { cluster_member = member; pool_name = pool; vol_name = vol })
unfolding split_rest
split_rest-volume member pool vol hp hv = rw (
  is_empty-append_cons pool vol b'/',
  split-append_sep pool vol b'/' hp,
  split_of_Lacks vol b'/' hv,
)

-- Splitting a built volume ID gives the cluster member, the pool and the volume back, if no part
-- holds a separator.
pub split_volume_id-get_volume_id :
    (member pool vol : Text)
    → IsSeparable member pool vol
    → split_volume_id (get_volume_id member pool vol)
      ≡ ok (record { cluster_member = member; pool_name = pool; vol_name = vol })
unfolding split_volume_id
split_volume_id-get_volume_id member pool vol s =
    rw (cut_member-get_volume_id member pool vol s)
      (split_rest-volume member pool vol s.pool_no_slash s.vol_no_slash)

-- The member and the rest by what `cut` finds: with no colon the whole ID is the rest.
abbrev pub member_and_rest : Text → Option (Text × Text) → Text × Text
member_and_rest id none = ([], id)
member_and_rest id (some parts) = parts

pub cut_member_lem : (id : Text) → cut_member id ≡ member_and_rest id (cut id b':')
unfolding cut_member
cut_member_lem id = elim (Option-cases (cut id b':')) [
  | inl e ↦ rw (e, contains_of_cut id b':' e)
  | inr (parts, e) ↦ rw e (elim (Bool-cases (contains id b':')) [
    | inl h ↦ rw h
    | inr h ↦ cc (e, cut-contains id b':' h)
  ])
]

member_and_rest-append :
    (id rest : Text) (o : Option (Text × Text))
    → member_and_rest (id ++ rest) (on_after (λ after. after ++ rest) o)
      ≡ ((member_and_rest id o).0, (member_and_rest id o).1 ++ rest)
member_and_rest-append id rest none = refl
member_and_rest-append id rest (some (before, after)) = refl

cut_member-append :
    (id rest : Text)
    → Lacks b':' rest
    → cut_member (id ++ rest) ≡ ((cut_member id).0, (cut_member id).1 ++ rest)
cut_member-append id rest h =
    rw (cut_member_lem (id ++ rest), cut_member_lem id, cut-append id rest b':' h)
      (member_and_rest-append id rest (cut id b':'))

-- A snapshot reference of a volume reference.
abbrev pub snapshot_of : VolumeRef → Text → SnapshotRef
snapshot_of r snapshot = record {
  cluster_member = r.cluster_member;
  pool_name = r.pool_name;
  vol_name = r.vol_name;
  snapshot_name = snapshot;
}

snapshot_parts_of_volume :
    (member id id' : Text) (parts : List Text) (snapshot : Text) {r : VolumeRef}
    → volume_parts member id parts ≡ ok r
    → snapshot_parts member id' (parts ++ snapshot ∷ []) ≡ ok (snapshot_of r snapshot)
snapshot_parts_of_volume member id id' [] snapshot h = cc
snapshot_parts_of_volume member id id' (p ∷ []) snapshot h = cc
snapshot_parts_of_volume member id id' (p ∷ v ∷ []) snapshot h = ground arith
snapshot_parts_of_volume member id id' (p ∷ v ∷ q ∷ r) snapshot h = cc

split_snapshot_rest-append :
    (member id snapshot : Text) {r : VolumeRef}
    → Lacks b'/' snapshot
    → split_rest (member, id) ≡ ok r
    → split_snapshot_rest (member, id ++ b'/' ∷ snapshot) ≡ ok (snapshot_of r snapshot)
unfolding split_rest split_snapshot_rest
split_snapshot_rest-append member [] snapshot hs h = cc
split_snapshot_rest-append member (c ∷ id) snapshot hs h =
    rw (split-append_part (c ∷ id) snapshot b'/' hs) (
      snapshot_parts_of_volume member (c ∷ id) ((c ∷ id) ++ b'/' ∷ snapshot) (split (c ∷ id) b'/')
        snapshot h)

-- The snapshot ID that is built from any accepted volume ID, and a snapshot name without separators,
-- is accepted: its parts are those of the volume ID, and the snapshot's name.
pub split_snapshot_id-get_snapshot_id :
    (volume_id snapshot : Text) {r : VolumeRef}
    → Lacks b':' snapshot
    → Lacks b'/' snapshot
    → split_volume_id volume_id ≡ ok r
    → split_snapshot_id (get_snapshot_id volume_id snapshot) ≡ ok (snapshot_of r snapshot)
unfolding split_snapshot_id get_snapshot_id split_volume_id
split_snapshot_id-get_snapshot_id volume_id snapshot hc hs h =
    rw (cut_member-append volume_id (b'/' ∷ snapshot) (omega arith, hc))
      (split_snapshot_rest-append (cut_member volume_id).0 (cut_member volume_id).1 snapshot hs h)
