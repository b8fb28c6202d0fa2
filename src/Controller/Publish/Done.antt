-- ===== src/Controller/Publish/Done.antt =====
-- What an answer of success of `ControllerPublishVolume` (internal/driver/controller.go) goes back to.
use lxd_csi_driver.Base.{
  false, Option, none, some, Result, ok, err, ◌≡◌, ◌⊎◌, refl, ap, sym, ◌∙◌, Bool-cases, inl, inr,
  [], ◌∷◌,
}
use mathlib.Core.Path.{subst}
use lxd_csi_driver.Strings.{Text, is_empty}
use lxd_csi_driver.Dict.{Dict, lookup}
use lxd_csi_driver.Csi.{PublishVolumeRequest}
use lxd_csi_driver.Capabilities.{parse_content_type}
use lxd_csi_driver.Lxd.{Env, StorageVolume, Instance}
use lxd_csi_driver.VolumeId.{VolumeRef, split_volume_id}
use lxd_csi_driver.Driver.{Driver, World}
use lxd_csi_driver.Driver.Connect.{dev_lxd_client}
use lxd_csi_driver.Rpc.{done}
use lxd_csi_driver.Rpc.Invert.{
  Runs, bind-Runs, pure-Runs, reject_if-Runs, or_status-Runs, or_fail-Runs, attempt-Runs, call-Runs,
  get_driver-Runs, get_client-Runs, with_lock-Runs,
}
use lxd_csi_driver.Controller.{custom, targeted, is_not_found}
use lxd_csi_driver.Controller.Publish.{
  device_of, mismatches, existing_volume, attach, publish_locked, controller_publish_volume,
}

module _ (E : Env) where
  -- The instance already had a matching device of the volume's name, and nothing was changed, or it had
  -- none, and LXD took the device of the volume.
  abbrev pub IsAttached :
      E.Client → Text → VolumeRef → Text → Instance × Text → World E → World E → Type 0
  IsAttached client node_id r content_type inst w w' =
      ((dev : Dict Text) × (lookup r.vol_name (inst.0).devices ≡ some dev)
        × (mismatches r dev ≡ false)
        × (w' ≡ w))
      ⊎ ((lookup r.vol_name (inst.0).devices ≡ none)
          × (E.update_instance client node_id
                (record { devices = (r.vol_name, some (device_of r content_type)) ∷ [] }) inst.1
                w.state
              ≡ (ok tt, w'.state)))

  attach-Runs :
      (client : E.Client) (node_id : Text) (r : VolumeRef) (content_type : Text)
      (inst : Instance × Text) (w : World E) {w' : World E} {u : Unit {0}}
      (dev : Option (Dict Text))
      → lookup r.vol_name (inst.0).devices ≡ dev
      → Runs (attach E client node_id r content_type inst dev) w u w'
      → IsAttached client node_id r content_type inst w w'
  unfolding attach
  attach-Runs client node_id r content_type (inst, etag) w (some dev) e h =
      let (fits, same) = reject_if-Runs _ _ _ w h in inl (dev, e, fits, same)
  attach-Runs client node_id r content_type (inst, etag) w none e h = inr (e, (call-Runs _ _ w h).0)

  existing_volume-Runs :
      (a : Result E.Err (StorageVolume × Text)) {w w' : World E} {u : Unit {0}}
      → Runs (existing_volume E a) w u w'
      → (v : StorageVolume × Text) × (a ≡ ok v) × (w' ≡ w)
  unfolding existing_volume
  existing_volume-Runs (ok v) h = (v, refl, (pure-Runs h).1)
  existing_volume-Runs (err e) {w} h = elim (Bool-cases (is_not_found E e)) [
    | inl absent ↦ let f : ⊥ = cc (rw (absent, existing_volume) at h.run) in absurd f
    | inr other ↦
        let (x, _) =
          or_fail-Runs _ (err e) w (record { run = rw (other, existing_volume) at h.run }) in
        let f : ⊥ = cc x in absurd f
  ]

  -- LXD has the volume and the instance, and the instance has the volume's device.
  pub record IsPublished (client : E.Client) (node_id : Text) (r : VolumeRef) (content_type : Text)
      (w w' : World E) : Type 0 where
    pub vol : StorageVolume × Text
    pub vol_state : E.State
    pub inst : Instance × Text
    pub attaching : World E
    pub vol_eq :
        E.get_storage_pool_volume client r.pool_name custom r.vol_name w.state ≡ (ok vol, vol_state)
    pub inst_eq : E.get_instance client node_id vol_state ≡ (ok inst, attaching.state)
    pub attached : IsAttached client node_id r content_type inst attaching w'

  publish_locked-IsPublished :
      (client : E.Client) (node_id : Text) (r : VolumeRef) (content_type : Text) (w : World E)
      {w' : World E} {u : Unit {0}}
      → Runs (publish_locked E client node_id r content_type) w u w'
      → IsPublished client node_id r content_type w w'
  unfolding publish_locked
  publish_locked-IsPublished client node_id r content_type w h =
      let (found, w1, p1, h1) = bind-Runs h in
      let (_, w2, p2, h2) = bind-Runs h1 in
      let (inst, w3, p3, h3) = bind-Runs h2 in
      let (vol, found_eq, same) = existing_volume-Runs found p2 in
      record {
        vol = vol;
        vol_state = w1.state;
        inst = inst;
        attaching = w3;
        vol_eq = attempt-Runs _ w p1 ∙ ap (λ a. (a, w1.state)) found_eq;
        inst_eq =
            ap (λ (v : World E). E.get_instance client node_id v.state) (sym same)
            ∙ (call-Runs _ _ w2 p3).0;
        attached = attach-Runs client node_id r content_type inst w3 _ refl h3;
      }

  -- The same attachment, told with an equal driver and an equal world.
  IsPublished-at :
      (client : E.Client) (r : VolumeRef) (node_id content_type : Text) (t : E.Locks)
      {d d' : Driver E.Client} {x y : World E} (z : World E)
      → d ≡ d'
      → x ≡ y
      → IsPublished
          (targeted E d client r.cluster_member)
          node_id
          r
          content_type
          (record x { locks = t })
          z
      → IsPublished
          (targeted E d' client r.cluster_member)
          node_id
          r
          content_type
          (record y { locks = t })
          z
  IsPublished-at client r node_id content_type t {d' = d'} {x = x} z d_eq same h =
      subst
        (λ (v : World E).
          IsPublished (targeted E d' client r.cluster_member) node_id r content_type
            (record v { locks = t }) z)
        same
        (subst
          (λ d.
            IsPublished (targeted E d client r.cluster_member) node_id r content_type
              (record x { locks = t }) z)
          d_eq h)

  -- A publication is answered with success only if the ID splits, the capability names an access type,
  -- and, under the lock of the ID, LXD has the volume, and its instance of the node either had a
  -- matching device of the volume's name already, and was not changed, or had none, and LXD took the
  -- volume's device. LXD is asked on the cluster member of the ID. The method then only gives the lock back:
  -- nothing happens behind the attachment.
  pub controller_publish_volume-IsPublished :
      (req : PublishVolumeRequest) (w : World E) {w' : World E} {u : Unit {0}}
      → controller_publish_volume E req w ≡ (done u, w')
      → (client : E.Client) × (session after : World E) × (locks : E.Locks) × (r : VolumeRef)
        × (dev_lxd_client E w ≡ (ok client, session))
        × (split_volume_id req.volume_id ≡ ok r)
        × (is_empty (parse_content_type (req.volume_capability ∷ [])) ≡ false)
        × (E.try_lock req.volume_id session.locks ≡ some locks)
        × IsPublished
            (targeted E session.driver client r.cluster_member)
            req.node_id
            r
            (parse_content_type (req.volume_capability ∷ []))
            (record session { locks = locks })
            after
        × (w' ≡ record after { locks = E.unlock req.volume_id after.locks })
  unfolding controller_publish_volume
  controller_publish_volume-IsPublished req w {w'} {u} h =
      let h0 : Runs (controller_publish_volume E req) w u w' = record { run = h } in
      let (client, w1, p1, h1) = bind-Runs h0 in
      let (r, w2, p2, h2) = bind-Runs h1 in
      let (d, w3, p3, h3) = bind-Runs h2 in
      let (_, w4, p4, h4) = bind-Runs h3 in
      let (t, v, taken, h5, last) = with_lock-Runs _ _ _ _ h4 in
      let (r_eq, e2) = or_status-Runs _ _ _ w1 p2 in
      let (d_eq, e3) = get_driver-Runs w2 p3 in
      let (named, e4) = reject_if-Runs _ _ _ w3 p4 in
      let d_eq' : d ≡ w1.driver = d_eq ∙ ap (λ (v : World E). v.driver) e2 in
      let same : w4 ≡ w1 = e4 ∙ e3 ∙ e2 in
      (
        client,
        w1,
        v,
        t,
        r,
        get_client-Runs _ w p1,
        r_eq,
        named,
        ap (λ (x : World E). E.try_lock req.volume_id x.locks) (sym same) ∙ taken,
        IsPublished-at client r req.node_id (parse_content_type (req.volume_capability ∷ [])) t v
            d_eq' same (publish_locked-IsPublished _ req.node_id r _ _ h5),
        last,
      )
