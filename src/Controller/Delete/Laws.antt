-- ===== src/Controller/Delete/Laws.antt =====
-- When `DeleteVolume` and `DeleteSnapshot` (internal/driver/controller.go) answer with success.
use lxd_csi_driver.Base.{
  true, String, some, Result, ok, err, ◌≡◌, ◌⊎◌, inl, inr, refl, ap, sym, ◌∙◌, Bool-cases,
}
use mathlib.Core.Path.{ap₂}
use lxd_csi_driver.Strings.{Text}
use lxd_csi_driver.Lxd.{Env}
use lxd_csi_driver.VolumeId.{VolumeRef, SnapshotRef, split_volume_id, split_snapshot_id}
use lxd_csi_driver.Driver.{World}
use lxd_csi_driver.Driver.Connect.{dev_lxd_client}
use lxd_csi_driver.Rpc.{done, attempt_operation}
use lxd_csi_driver.Rpc.Invert.{
  Runs, bind-Runs, or_status-Runs, get_driver-Runs, get_client-Runs, with_lock-Runs,
}
use lxd_csi_driver.Controller.{custom, targeted, is_not_found, or_fail_unless_not_found}
use lxd_csi_driver.Controller.Delete.{delete_volume, delete_snapshot}

module _ (E : Env) where
  -- What was to be deleted is gone: LXD deleted it, or answered that there is none.
  abbrev pub IsGone : Result E.Err (Unit {0}) → Type 0
  IsGone r = (r ≡ ok tt) ⊎ ((e : E.Err) × (r ≡ err e) × (is_not_found E e ≡ true))

  pub or_fail_unless_not_found-Runs :
      (m : String) (r : Result E.Err (Unit {0})) {w w' : World E} {u : Unit {0}}
      → Runs (or_fail_unless_not_found E m r) w u w'
      → IsGone r
  unfolding or_fail_unless_not_found
  or_fail_unless_not_found-Runs m (ok tt) h = inl refl
  or_fail_unless_not_found-Runs m (err e) h = elim (Bool-cases (is_not_found E e)) [
    | inl absent ↦ inr (e, refl, absent)
    | inr other ↦ let x : ⊥ = cc (rw (other, or_fail_unless_not_found) at h.run) in absurd x
  ]

  -- A volume's deletion is answered with success only if the driver took the lock of the ID and
  -- asked LXD, on the cluster member of the ID, to delete the volume of the ID from its pool, and
  -- LXD did so or has no such volume.
  pub delete_volume-done :
      (id : Text) (w : World E) {w' : World E} {u : Unit {0}}
      → delete_volume E id w ≡ (done u, w')
      → (client : E.Client) × (session after : World E) × (locks : E.Locks) × (r : VolumeRef)
        × (answer : Result E.Err (Unit {0})) × (dev_lxd_client E w ≡ (ok client, session))
        × (E.try_lock id session.locks ≡ some locks)
        × (split_volume_id id ≡ ok r)
        × (attempt_operation E
              (E.delete_storage_pool_volume
                (targeted E session.driver client r.cluster_member)
                r.pool_name
                custom
                r.vol_name)
              (record session { locks = locks })
            ≡ (done answer, after))
        × IsGone answer
  unfolding delete_volume
  delete_volume-done id w {w'} {u} h =
      let h0 : Runs (delete_volume E id) w u w' = record { run = h } in
      let (client, w1, p1, h1) = bind-Runs h0 in
      let (r, w2, p2, h2) = bind-Runs h1 in
      let (d, w3, p3, h3) = bind-Runs h2 in
      let (t, v, taken, h4, _) = with_lock-Runs _ _ _ w3 h3 in
      let (answer, w5, p5, h5) = bind-Runs h4 in
      let (r_eq, e2) = or_status-Runs _ _ _ w1 p2 in
      let (d_eq, e3) = get_driver-Runs w2 p3 in
      let d_eq' : d ≡ w1.driver = d_eq ∙ ap (λ (v : World E). v.driver) e2 in
      let same : w3 ≡ w1 = e3 ∙ e2 in
      (
        client,
        w1,
        w5,
        t,
        r,
        answer,
        get_client-Runs _ w p1,
        ap (λ (v : World E). E.try_lock id v.locks) (sym same) ∙ taken,
        r_eq,
        ap₂
              (λ d (v : World E).
                attempt_operation E
                  (E.delete_storage_pool_volume (targeted E d client r.cluster_member) r.pool_name
                    custom r.vol_name)
                  (record v { locks = t }))
              (sym d_eq') (sym same)
            ∙ p5.run,
        or_fail_unless_not_found-Runs _ answer h5,
      )

  -- A snapshot's deletion is answered with success only if the driver took the lock of the ID and asked
  -- LXD, on the cluster member of the ID, to delete the snapshot of the ID from the ID's volume and
  -- pool, and LXD did so or has no such snapshot.
  pub delete_snapshot-done :
      (id : Text) (w : World E) {w' : World E} {u : Unit {0}}
      → delete_snapshot E id w ≡ (done u, w')
      → (client : E.Client) × (session after : World E) × (locks : E.Locks) × (r : SnapshotRef)
        × (answer : Result E.Err (Unit {0})) × (dev_lxd_client E w ≡ (ok client, session))
        × (E.try_lock id session.locks ≡ some locks)
        × (split_snapshot_id id ≡ ok r)
        × (attempt_operation E
              (E.delete_storage_pool_volume_snapshot
                (targeted E session.driver client r.cluster_member)
                r.pool_name
                custom
                r.vol_name
                r.snapshot_name)
              (record session { locks = locks })
            ≡ (done answer, after))
        × IsGone answer
  unfolding delete_snapshot
  delete_snapshot-done id w {w'} {u} h =
      let h0 : Runs (delete_snapshot E id) w u w' = record { run = h } in
      let (client, w1, p1, h1) = bind-Runs h0 in
      let (r, w2, p2, h2) = bind-Runs h1 in
      let (d, w3, p3, h3) = bind-Runs h2 in
      let (t, v, taken, h4, _) = with_lock-Runs _ _ _ w3 h3 in
      let (answer, w5, p5, h5) = bind-Runs h4 in
      let (r_eq, e2) = or_status-Runs _ _ _ w1 p2 in
      let (d_eq, e3) = get_driver-Runs w2 p3 in
      let d_eq' : d ≡ w1.driver = d_eq ∙ ap (λ (v : World E). v.driver) e2 in
      let same : w3 ≡ w1 = e3 ∙ e2 in
      (
        client,
        w1,
        w5,
        t,
        r,
        answer,
        get_client-Runs _ w p1,
        ap (λ (v : World E). E.try_lock id v.locks) (sym same) ∙ taken,
        r_eq,
        ap₂
              (λ d (v : World E).
                attempt_operation E
                  (E.delete_storage_pool_volume_snapshot (targeted E d client r.cluster_member)
                    r.pool_name custom r.vol_name r.snapshot_name)
                  (record v { locks = t }))
              (sym d_eq') (sym same)
            ∙ p5.run,
        or_fail_unless_not_found-Runs _ answer h5,
      )
