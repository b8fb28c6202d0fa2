-- ===== src/Controller/Snapshot/Laws.antt =====
-- The snapshot ID that `CreateSnapshot` (internal/driver/controller.go) answers with.
use lxd_csi_driver.Base.{
  ℕ, ◌≢◌, Option-cases, inl, inr, Option, none, some, ok, ◌≡◌, ap, ◌∙◌, arith,
}
use mathlib.Core.Path.{subst}
use mathlib.Core.Option.{some-injective}
use lxd_csi_driver.Strings.{Text, cut}
use lxd_csi_driver.Strings.Laws.{Lacks, cut-Lacks}
use lxd_csi_driver.Csi.{CreateSnapshotRequest, CreateSnapshotResponse}
use lxd_csi_driver.Lxd.{Env}
use lxd_csi_driver.VolumeId.{VolumeRef, split_volume_id, split_snapshot_id}
use lxd_csi_driver.VolumeId.RoundTrip.{snapshot_of, split_snapshot_id-get_snapshot_id}
use lxd_csi_driver.Driver.{World}
use lxd_csi_driver.Rpc.{done}
use lxd_csi_driver.Rpc.Invert.{Runs, bind-Runs, pure-Runs, or_status-Runs, with_lock-Runs}
use lxd_csi_driver.Controller.Names.{short_name-Lacks}
use lxd_csi_driver.Controller.Snapshot.{name_or_fail, snapshot_name_of, create_snapshot}

snapshot_name_lem :
    (name : Text) (b : ℕ) {snapshot_name : Text}
    → b ≢ b'-'
    → Lacks b name
    → snapshot_name_of (cut name b'-') ≡ some snapshot_name
    → Lacks b snapshot_name
unfolding snapshot_name_of
snapshot_name_lem name b ne h e = elim (Option-cases (cut name b'-')) [
  | inl missing ↦ absurd (cc (rw (missing, snapshot_name_of) at e))
  | inr ((before, after), found) ↦
      let parts = cut-Lacks name b'-' b found h in
      subst (Lacks b) (some-injective _ _ (rw (found, snapshot_name_of) at e))
        (short_name-Lacks before after b ne parts.0 parts.1)
]

module _ (E : Env) where
  name_or_fail-Runs :
      (o : Option Text) (w : World E) {w' : World E} {name : Text}
      → Runs (name_or_fail E o) w name w'
      → o ≡ some name
  unfolding name_or_fail
  name_or_fail-Runs none w h = cc (h.run)
  name_or_fail-Runs (some name) w h = cc (h.run)

  -- The ID of an answer is one that the driver itself splits: into the parts of the source volume's ID
  -- and the snapshot's name, if the requested name holds no slash and no colon. The answer names
  -- the source volume, and the snapshot's name is the requested one without the dashes after the first.
  pub create_snapshot-done :
      (req : CreateSnapshotRequest) (w : World E) {w' : World E} {resp : CreateSnapshotResponse}
      → Lacks b':' req.name
      → Lacks b'/' req.name
      → create_snapshot E req w ≡ (done resp, w')
      → (r : VolumeRef) × (name : Text) × (resp.source_volume_id ≡ req.source_volume_id)
        × (snapshot_name_of (cut req.name b'-') ≡ some name)
        × (split_volume_id req.source_volume_id ≡ ok r)
        × (split_snapshot_id resp.snapshot_id ≡ ok (snapshot_of r name))
  unfolding create_snapshot
  create_snapshot-done req w {w'} {resp} no_colon no_slash h =
      let h0 : Runs (create_snapshot E req) w resp w' = record { run = h } in
      let (client, w1, p1, h1) = bind-Runs h0 in
      let (_, w2, p2, h2) = bind-Runs h1 in
      let (_, w3, p3, h3) = bind-Runs h2 in
      let (name, w4, p4, h4) = bind-Runs h3 in
      let (r, w5, p5, h5) = bind-Runs h4 in
      let (d, w6, p6, h6) = bind-Runs h5 in
      let (t, v, _, h7, _) = with_lock-Runs _ _ _ w6 h6 in
      let (found, w8, p8, h8) = bind-Runs h7 in
      let (_, w9, p9, h9) = bind-Runs h8 in
      let (resp_eq, _) = pure-Runs h9 in
      let name_eq = name_or_fail-Runs _ w3 p4 in
      let (r_eq, _) = or_status-Runs _ _ _ w4 p5 in
      (
        r,
        name,
        ap (λ (x : CreateSnapshotResponse). x.source_volume_id) resp_eq,
        name_eq,
        r_eq,
        ap (λ (x : CreateSnapshotResponse). split_snapshot_id x.snapshot_id) resp_eq
            ∙ split_snapshot_id-get_snapshot_id req.source_volume_id name
                (snapshot_name_lem req.name b':' (omega arith) no_colon name_eq)
                (snapshot_name_lem req.name b'/' (omega arith) no_slash name_eq) r_eq,
      )
