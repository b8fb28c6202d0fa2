-- ===== src/Controller/Store/Removing.antt =====
-- What `DeleteVolume` (internal/driver/controller.go) removes from the volumes of LXD.
use lxd_csi_driver.Base.{false, Bool-cases, Result, ok, ◌≡◌, inl, inr, refl, sym, ap, ◌∙◌}
use lxd_csi_driver.Strings.{Text, text_eq}
use lxd_csi_driver.Strings.Equality.{text_eq_iff}
use lxd_csi_driver.Lxd.{Env}
use lxd_csi_driver.VolumeId.{VolumeRef, split_volume_id}
use lxd_csi_driver.Driver.{World}
use lxd_csi_driver.Driver.Connect.{cached, dev_lxd_client}
use lxd_csi_driver.Rpc.{done, attempt_operation}
use lxd_csi_driver.Rpc.Retains.{Retains-Runs}
use lxd_csi_driver.Rpc.Frame.{attempt_operation-Keeps}
use lxd_csi_driver.Rpc.Invert.{
  Runs, bind-Runs, or_status-Runs, get_driver-Runs, get_client-Runs, with_lock-Runs,
}
use lxd_csi_driver.Controller.{custom, targeted}
use lxd_csi_driver.Controller.Steps.{or_fail_unless_not_found-Keeps}
use lxd_csi_driver.Controller.Delete.{delete_volume}
use lxd_csi_driver.Controller.Delete.Laws.{IsGone, or_fail_unless_not_found-Runs}
use lxd_csi_driver.Controller.Store.{IsStore, VolumeSet, remove}
use lxd_csi_driver.Controller.Store.Others.{or_fail_unless_not_found-Retains}
use lxd_csi_driver.Controller.Store.Session.{
  Reaches, driver_view, Keeps-Runs, cached_of_session, volumes-session,
}

-- To remove what is not there changes nothing.
pub remove_absent :
    (vols : VolumeSet) (key k : Text) → vols key ≡ false → remove key vols k ≡ vols k
remove_absent vols key k h = elim (Bool-cases (text_eq key k)) [
  | inl same ↦ rw same (sym (ap vols (sym ((text_eq_iff key k).0 same)) ∙ h))
  | inr other ↦ rw other refl
]

module _ {E : Env} (I : IsStore E) where
  -- LXD deleted the volume, or has no such volume: in both cases it is gone, and no other is.
  answered-removes :
      (client : E.Client) (pool name : Text) (answer : Result E.Err (Unit {0})) (w : World E)
      {w' : World E}
      → attempt_operation E (E.delete_storage_pool_volume client pool custom name) w
        ≡ (done answer, w')
      → IsGone E answer
      → (k : Text) → I.volumes w'.state k ≡ remove (I.key client pool name) (I.volumes w.state) k
  answered-removes client pool name answer w {w'} h (inl deleted) k =
      I.deleted client pool name w (h ∙ ap (λ r. (done r, w')) deleted) k
  answered-removes client pool name answer w {w'} h (inr (e, missing, not_found)) k =
      let (absent, same) =
        I.not_deleted client pool name w (h ∙ ap (λ r. (done r, w')) missing) not_found in
      same k ∙ sym (remove_absent (I.volumes w.state) (I.key client pool name) k absent)

  -- The volume of an ID is not there, and all others are as they were. The driver is the one of the
  -- session of the call.
  pub record IsRemoved (w w' : World E) (id : Text) : Type 0 where
    pub ref : VolumeRef
    pub split : split_volume_id id ≡ ok ref
    pub key : Text
    pub reaches : Reaches I w'.driver ref key
    pub now : (k : Text) → I.volumes w'.state k ≡ remove key (I.volumes w.state) k
    pub client : E.Client
    pub session : World E
    pub session_eq : dev_lxd_client E w ≡ (ok client, session)
    pub same_driver : w'.driver ≡ session.driver

  -- A successful DeleteVolume removes from the volumes of LXD the one that the driver reaches by the ID,
  -- and no other.
  pub delete_volume-IsRemoved :
      (id : Text) (w : World E) {w' : World E} {u : Unit {0}}
      → delete_volume E id w ≡ (done u, w')
      → IsRemoved w w' id
  unfolding delete_volume
  delete_volume-IsRemoved id w {w'} {u} h =
      let h0 : Runs (delete_volume E id) w u w' = record { run = h } in
      let (client, w1, p1, h1) = bind-Runs h0 in
      let (r, w2, p2, h2) = bind-Runs h1 in
      let (d, w3, p3, h3) = bind-Runs h2 in
      let (t, v, _, h4, last) = with_lock-Runs _ _ _ w3 h3 in
      let (answer, w5, p5, h5) = bind-Runs h4 in
      let (r_eq, same2) = or_status-Runs _ _ _ w1 p2 in
      let (d_eq, same3) = get_driver-Runs w2 p3 in
      let session = get_client-Runs _ w p1 in
      let same : w3 ≡ w1 = same3 ∙ same2 in
      let client' = targeted E d client r.cluster_member in
      let driver_eq : w'.driver ≡ d =
        ap (λ (x : World E). x.driver) last
        ∙ Keeps-Runs driver_view (or_fail_unless_not_found-Keeps driver_view _ answer) h5
        ∙ Keeps-Runs driver_view (attempt_operation-Keeps driver_view _) p5
        ∙ ap (λ (x : World E). x.driver) same3
        ∙ sym d_eq in
      let session_driver : d ≡ w1.driver = d_eq ∙ ap (λ (x : World E). x.driver) same2 in
      record {
        ref = r;
        split = r_eq;
        key = I.key client' r.pool_name r.vol_name;
        reaches = record {
          client = client;
          at_hand = ap (cached E) (driver_eq ∙ session_driver) ∙ cached_of_session w session;
          key_eq =
              ap (λ x. I.key (targeted E x client r.cluster_member) r.pool_name r.vol_name)
                (sym driver_eq);
        };
        now = λ k.
            ap (λ (x : World E). I.volumes x.state k) last
            ∙ ap (λ vols. vols k)
                (Retains-Runs I.volumes (or_fail_unless_not_found-Retains I.volumes _ answer) h5)
            ∙ answered-removes client' r.pool_name r.vol_name answer _ (p5.run)
                (or_fail_unless_not_found-Runs E _ answer h5) k
            ∙ ap (λ vols. remove (I.key client' r.pool_name r.vol_name) vols k)
                (ap (λ (x : World E). I.volumes x.state) same ∙ volumes-session I w session);
        client = client;
        session = w1;
        session_eq = session;
        same_driver = driver_eq ∙ session_driver;
      }
