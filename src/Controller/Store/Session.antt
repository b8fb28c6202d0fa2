-- ===== src/Controller/Store/Session.antt =====
-- The volume that an ID names for the driver of a process, and what the steps of a method leave.
use lxd_csi_driver.Base.{some, ok, ◌≡◌, refl, sym, ap, ◌∙◌}
use lxd_csi_driver.Strings.{Text}
use lxd_csi_driver.Lxd.{Env}
use lxd_csi_driver.VolumeId.{VolumeRef}
use lxd_csi_driver.Driver.{Driver, World}
use lxd_csi_driver.Driver.Connect.{cached, dev_lxd_client}
use lxd_csi_driver.Driver.Connect.Session.{dev_lxd_client_kept}
use lxd_csi_driver.Driver.Connect.Reads.{dev_lxd_client-keeps}
use lxd_csi_driver.Rpc.Frame.{Keeps}
use lxd_csi_driver.Rpc.Invert.{Runs}
use lxd_csi_driver.Controller.{targeted}
use lxd_csi_driver.Controller.Store.{IsStore}

-- The whole driver, as a view of the driver and the locks.
abbrev pub driver_view : {D Locks : Type 0} → D → Locks → D
driver_view d t = d

module _ {E : Env} where
  pub Keeps-Runs :
      {A X : Type 0} (f : Driver E.Client → E.Locks → X) {m : World E → _ × World E}
      {w w' : World E} {a : A}
      → Keeps f m
      → Runs m w a w'
      → f w'.driver w'.locks ≡ f w.driver w.locks
  Keeps-Runs f {w = w} h r = ap (λ x. f x.1.driver x.1.locks) (sym r.run) ∙ h.at w

  -- The driver has a client whose token has not changed.
  pub cached_of_session :
      (w : World E) {client : E.Client} {session : World E}
      → dev_lxd_client E w ≡ (ok client, session)
      → cached E session.driver ≡ some client
  cached_of_session w h = let (kept, fresh, _) = dev_lxd_client_kept E w h in rw fresh kept

  pub dev_lxd_client_of_cached :
      (w : World E) {client : E.Client}
      → cached E w.driver ≡ some client
      → dev_lxd_client E w ≡ (ok client, w)
  unfolding dev_lxd_client
  dev_lxd_client_of_cached w h = rw (h, dev_lxd_client) refl

module _ {E : Env} (I : IsStore E) where
  -- The driver has a client, and `key` is the volume that it reaches on the cluster member, in the pool
  -- and by the name of the reference.
  pub record Reaches (d : Driver E.Client) (r : VolumeRef) (key : Text) : Type 0 where
    pub client : E.Client
    pub at_hand : cached E d ≡ some client
    pub key_eq : key ≡ I.key (targeted E d client r.cluster_member) r.pool_name r.vol_name

  pub Reaches-unique :
      {d : Driver E.Client} {r : VolumeRef} {k l : Text} → Reaches d r k → Reaches d r l → k ≡ l
  Reaches-unique {d} {r} {k} {l} p q =
      let same : p.client ≡ q.client = cc (p.at_hand, q.at_hand) in
      p.key_eq
      ∙ ap (λ c. I.key (targeted E d c r.cluster_member) r.pool_name r.vol_name) same
      ∙ sym q.key_eq

  -- Connecting leaves the volumes.
  pub volumes-session :
      (w : World E) {client : E.Client} {session : World E}
      → dev_lxd_client E w ≡ (ok client, session)
      → I.volumes session.state ≡ I.volumes w.state
  volumes-session w h =
      ap (λ x. I.volumes x.1.state) (sym h) ∙ dev_lxd_client-keeps ((I.reads).connects) w
