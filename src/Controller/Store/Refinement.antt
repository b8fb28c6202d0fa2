-- ===== src/Controller/Store/Refinement.antt =====
-- The calls of the driver as changes of a set of volumes (internal/driver/controller.go).
use lxd_csi_driver.Base.{false, List, [], ◌∷◌, ok, ◌≡◌, refl, sym, ap, ◌∙◌, inl, inr, Bool-cases}
use mathlib.Core.Path.{subst}
use lxd_csi_driver.Strings.{Text, text_eq}
use lxd_csi_driver.Strings.Equality.{text_eq_iff}
use lxd_csi_driver.Csi.{
  CreateVolumeRequest, CreateVolumeResponse, CreateSnapshotRequest, PublishVolumeRequest,
  UnpublishVolumeRequest, ExpandVolumeRequest,
}
use lxd_csi_driver.Lxd.{Env}
use lxd_csi_driver.VolumeId.{VolumeRef, split_volume_id}
use lxd_csi_driver.Driver.{Driver, World}
use lxd_csi_driver.Driver.Connect.{handle_token_file_change}
use lxd_csi_driver.Rpc.{done}
use lxd_csi_driver.Controller.Create.{create_volume}
use lxd_csi_driver.Controller.Create.Ids.{HasPlainNames}
use lxd_csi_driver.Controller.Delete.{delete_volume, delete_snapshot}
use lxd_csi_driver.Controller.Snapshot.{create_snapshot}
use lxd_csi_driver.Controller.Publish.{controller_publish_volume, controller_unpublish_volume}
use lxd_csi_driver.Controller.Expand.{controller_expand_volume}
use lxd_csi_driver.Controller.Store.Others.{
  create_snapshot-Retains, delete_snapshot-Retains, controller_publish_volume-Retains,
  controller_unpublish_volume-Retains, controller_expand_volume-Retains,
}
use lxd_csi_driver.Controller.Store.{IsStore, VolumeSet, add, remove}
use lxd_csi_driver.Controller.Store.Session.{Reaches, Reaches-unique, dev_lxd_client_of_cached}
use lxd_csi_driver.Controller.Store.Adding.{create_volume-IsAdded}
use lxd_csi_driver.Controller.Store.Removing.{delete_volume-IsRemoved}

-- What a call is to do to the set of volumes: to add or to remove the one that the driver reaches by an
-- ID, or to leave the set.
pub data Label (Client : Type 0) : Type 0 where
  adds removes : Driver Client → Text → Label Client
  leaves : Label Client

module _ {E : Env} where
  -- Successful calls of `CreateVolume`, whose names hold no separator, and of `DeleteVolume`, calls of the
  -- five other methods with whatever outcome, and notices of token changes, one after the other.
  pub data Calls (w : World E) : World E → Type 0 where
    begin : Calls w w
    create :
        {v w' : World E} (req : CreateVolumeRequest) (resp : CreateVolumeResponse)
        → Calls w v
        → HasPlainNames v.driver.volume_name_prefix req
        → create_volume E req v ≡ (done resp, w')
        → Calls w w'
    delete :
        {v w' : World E} (id : Text) → Calls w v → delete_volume E id v ≡ (done tt, w') → Calls w w'
    snapshot :
        {v : World E} (req : CreateSnapshotRequest)
        → Calls w v
        → Calls w (create_snapshot E req v).1
    drop_snapshot : {v : World E} (id : Text) → Calls w v → Calls w (delete_snapshot E id v).1
    publish :
        {v : World E} (req : PublishVolumeRequest)
        → Calls w v
        → Calls w (controller_publish_volume E req v).1
    unpublish :
        {v : World E} (req : UnpublishVolumeRequest)
        → Calls w v
        → Calls w (controller_unpublish_volume E req v).1
    expand :
        {v : World E} (req : ExpandVolumeRequest)
        → Calls w v
        → Calls w (controller_expand_volume E req v).1
    token_change : {v : World E} → Calls w v → Calls w (handle_token_file_change E v)

-- Each call has one label, which names the ID of its request or answer. The last call is the first label.
abbrev pub labels : {E : Env} {w w' : World E} → Calls w w' → List (Label E.Client)
labels begin = []
labels (create {w' = w'} req resp calls plain h) = adds w'.driver resp.volume_id ∷ labels calls
labels (delete {w' = w'} id calls h) = removes w'.driver id ∷ labels calls
labels (snapshot req calls) = leaves ∷ labels calls
labels (drop_snapshot id calls) = leaves ∷ labels calls
labels (publish req calls) = leaves ∷ labels calls
labels (unpublish req calls) = leaves ∷ labels calls
labels (expand req calls) = leaves ∷ labels calls
labels (token_change calls) = leaves ∷ labels calls

-- Sets with the same members are the same set.
ext : {S T : VolumeSet} → ((k : Text) → S k ≡ T k) → S ≡ T
ext h i k = h k i

remove-add :
    (vols : VolumeSet) (key k : Text) → vols key ≡ false → remove key (add key vols) k ≡ vols k
remove-add vols key k h = elim (Bool-cases (text_eq key k)) [
  | inl same ↦ rw same (sym (ap vols (sym ((text_eq_iff key k).0 same)) ∙ h))
  | inr other ↦ rw other refl
]

module _ {E : Env} (I : IsStore E) where
  -- The ID splits, and the driver reaches the volume of the key by it: there is one such key at most.
  abbrev pub Names : Driver E.Client → Text → Text → Type 0
  Names d id key = (ref : VolumeRef) × (split_volume_id id ≡ ok ref) × Reaches I d ref key

  -- The set of volumes as a machine: the volume that is added is not there before.
  abbrev pub Change : Label E.Client → VolumeSet → VolumeSet → Type 0
  Change (adds d id) before after =
      (key : Text) × Names d id key × (before key ≡ false) × (after ≡ add key before)
  Change (removes d id) before after = (key : Text) × Names d id key × (after ≡ remove key before)
  Change leaves before after = after ≡ before

  abbrev pub Changes : List (Label E.Client) → VolumeSet → VolumeSet → Type 0
  Changes [] before after = after ≡ before
  Changes (l ∷ ls) before after = (mid : VolumeSet) × Changes ls before mid × Change l mid after

  -- The driver implements a set of volumes: where LXD keeps a set of volumes as `IsStore` documents it,
  -- in each sequence of successful calls of CreateVolume, for names without separators, and DeleteVolume,
  -- of calls of the five other methods, whatever their outcome, and of notices of token changes, each
  -- call does to that set what its label says. CreateVolume adds the volume that the driver reaches by the
  -- ID of the answer, which is not there before; DeleteVolume removes the one of the ID of its request; the
  -- others leave the set.
  pub Calls-Changes :
      {w w' : World E} (calls : Calls w w')
      → Changes (labels calls) (I.volumes w.state) (I.volumes w'.state)
  unfolding handle_token_file_change
  Calls-Changes begin = refl
  Calls-Changes (create {v} req resp calls plain h) =
      let a = create_volume-IsAdded I req v plain h in
      (_, Calls-Changes calls, (a.key, (a.ref, a.split, a.reaches), a.absent, ext a.now))
  Calls-Changes (delete {v} id calls h) =
      let r = delete_volume-IsRemoved I id v h in
      (_, Calls-Changes calls, (r.key, (r.ref, r.split, r.reaches), ext r.now))
  Calls-Changes (snapshot {v} req calls) =
      (_, Calls-Changes calls, (create_snapshot-Retains I.reads I.updates req).at v)
  Calls-Changes (drop_snapshot {v} id calls) =
      (_, Calls-Changes calls, (delete_snapshot-Retains I.reads I.updates id).at v)
  Calls-Changes (publish {v} req calls) =
      (_, Calls-Changes calls, (controller_publish_volume-Retains I.reads I.updates req).at v)
  Calls-Changes (unpublish {v} req calls) =
      (_, Calls-Changes calls, (controller_unpublish_volume-Retains I.reads I.updates req).at v)
  Calls-Changes (expand {v} req calls) =
      (_, Calls-Changes calls, (controller_expand_volume-Retains I.reads I.updates req).at v)
  Calls-Changes (token_change calls) = (_, Calls-Changes calls, refl)

  -- DeleteVolume with the ID that CreateVolume answered undoes it: where LXD keeps a set of volumes as
  -- `IsStore` documents it, and the names of the request hold no separator, LXD has the volumes that it had
  -- before the two calls, if both succeed.
  pub delete_volume-create_volume :
      (req : CreateVolumeRequest) (w : World E) {w' w'' : World E} {resp : CreateVolumeResponse}
      {u : Unit {0}}
      → HasPlainNames w.driver.volume_name_prefix req
      → create_volume E req w ≡ (done resp, w')
      → delete_volume E resp.volume_id w' ≡ (done u, w'')
      → I.volumes w''.state ≡ I.volumes w.state
  delete_volume-create_volume req w {w'} {w''} {resp} plain h h' =
      let a = create_volume-IsAdded I req w plain h in
      let r = delete_volume-IsRemoved I resp.volume_id w' h' in
      let ref_eq : r.ref ≡ a.ref = cc (r.split, a.split) in
      let kept : w''.driver ≡ w'.driver =
        r.same_driver
        ∙ ap (λ x. x.1.driver)
            (sym (r.session_eq) ∙ dev_lxd_client_of_cached w' (a.reaches).at_hand) in
      let key_eq : r.key ≡ a.key =
        Reaches-unique I
          (subst (λ d. Reaches I d a.ref r.key) kept
            (subst (λ ref. Reaches I w''.driver ref r.key) ref_eq r.reaches))
          a.reaches in
      ext (λ k.
        r.now k
        ∙ ap (λ vols. remove r.key vols k) (ext a.now)
        ∙ ap (λ key. remove key (add a.key (I.volumes w.state)) k) key_eq
        ∙ remove-add (I.volumes w.state) a.key k a.absent)
