-- ===== src/Controller/Publish/Unpublished.antt =====
-- What `ControllerUnpublishVolume` (internal/driver/controller.go) has done when it succeeds.
use lxd_csi_driver.Base.{[], ◌∷◌, none, some, Result, ok, ◌≡◌, ap, sym, ◌∙◌}
use mathlib.Core.Path.{subst}
use lxd_csi_driver.Strings.{Text}
use lxd_csi_driver.Csi.{UnpublishVolumeRequest}
use lxd_csi_driver.Lxd.{Env, Instance}
use lxd_csi_driver.VolumeId.{VolumeRef, split_volume_id}
use lxd_csi_driver.Driver.{World}
use lxd_csi_driver.Driver.Connect.{dev_lxd_client}
use lxd_csi_driver.Rpc.{done}
use lxd_csi_driver.Rpc.Invert.{
  Runs, bind-Runs, or_status-Runs, get_driver-Runs, get_client-Runs, with_lock-Runs, call-Runs,
  attempt-Runs,
}
use lxd_csi_driver.Controller.{targeted}
use lxd_csi_driver.Controller.Delete.Laws.{IsGone, or_fail_unless_not_found-Runs}
use lxd_csi_driver.Controller.Publish.{controller_unpublish_volume}

module _ (E : Env) where
  -- LXD returned the instance, and was asked, for the instance as it was returned, to remove the device
  -- of a name, which it did or has not.
  pub record IsDetached (client : E.Client) (node_id device : Text) (s : E.State) : Type 0 where
    pub inst : Instance
    pub etag : Text
    pub found : E.State
    pub found_eq : E.get_instance client node_id s ≡ (ok (inst, etag), found)
    pub answer : Result E.Err (Unit {0})
    pub after : E.State
    pub detached_eq :
        E.update_instance client node_id (record { devices = (device, none) ∷ [] }) etag found
        ≡ (answer, after)
    pub gone : IsGone E answer

  -- An unpublication is answered with success only if the ID splits, and, under the lock of the ID, LXD
  -- returned the instance of the node, was asked to remove the device of the volume's name from the
  -- instance as it was returned, and nothing else, and did so or has no such device.
  pub controller_unpublish_volume-IsDetached :
      (req : UnpublishVolumeRequest) (w : World E) {w' : World E} {u : Unit {0}}
      → controller_unpublish_volume E req w ≡ (done u, w')
      → (client : E.Client) × (session : World E) × (locks : E.Locks) × (r : VolumeRef)
        × (dev_lxd_client E w ≡ (ok client, session))
        × (split_volume_id req.volume_id ≡ ok r)
        × (E.try_lock req.volume_id session.locks ≡ some locks)
        × IsDetached
            (targeted E session.driver client r.cluster_member)
            req.node_id
            r.vol_name
            session.state
  unfolding controller_unpublish_volume
  controller_unpublish_volume-IsDetached req w {w'} {u} h =
      let h0 : Runs (controller_unpublish_volume E req) w u w' = record { run = h } in
      let (client, w1, p1, h1) = bind-Runs h0 in
      let (r, w2, p2, h2) = bind-Runs h1 in
      let (d, w3, p3, h3) = bind-Runs h2 in
      let (t, v, taken, h4, _) = with_lock-Runs _ _ _ w3 h3 in
      let (inst, w4, p4, h5) = bind-Runs h4 in
      let (answer, w5, p5, h6) = bind-Runs h5 in
      let (r_eq, e2) = or_status-Runs _ _ _ w1 p2 in
      let (d_eq, e3) = get_driver-Runs w2 p3 in
      let d_eq' : d ≡ w1.driver = d_eq ∙ ap (λ (v : World E). v.driver) e2 in
      let same : w3 ≡ w1 = e3 ∙ e2 in
      let detached : IsDetached (targeted E d client r.cluster_member) req.node_id r.vol_name
          w3.state =
        record {
          inst = inst.0;
          etag = inst.1;
          found = w4.state;
          found_eq = (call-Runs _ _ _ p4).0;
          answer = answer;
          after = w5.state;
          detached_eq = attempt-Runs _ w4 p5;
          gone = or_fail_unless_not_found-Runs E _ answer h6;
        } in
      (
        client,
        w1,
        t,
        r,
        get_client-Runs _ w p1,
        r_eq,
        ap (λ (v : World E). E.try_lock req.volume_id v.locks) (sym same) ∙ taken,
        subst
            (λ d. IsDetached (targeted E d client r.cluster_member) req.node_id r.vol_name w1.state)
            d_eq'
            (subst
              (λ (v : World E).
                IsDetached (targeted E d client r.cluster_member) req.node_id r.vol_name v.state)
              same detached),
      )
