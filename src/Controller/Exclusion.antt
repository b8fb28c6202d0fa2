-- ===== src/Controller/Exclusion.antt =====
-- That the methods of internal/driver/controller.go exclude each other by the ID that they are about.
use lxd_csi_driver.Base.{true, false, String, some, ◌≡◌, refl, sym, ap, ◌∙◌, Bool-cases, inl, inr}
use lxd_csi_driver.Strings.{Text}
use lxd_csi_driver.Csi.{
  CreateVolumeRequest, CreateVolumeResponse, CreateSnapshotRequest, CreateSnapshotResponse,
  PublishVolumeRequest, UnpublishVolumeRequest, ExpandVolumeRequest,
}
use lxd_csi_driver.Lxd.{Env, IsLocking}
use lxd_csi_driver.Driver.{Driver, World}
use lxd_csi_driver.Rpc.{done, Rpc, ◌>>=◌, ◌>>◌, pure, get_client, with_lock}
use lxd_csi_driver.Rpc.Frame.{Keeps, get_client-locks}
use lxd_csi_driver.Rpc.Invert.{Runs, bind-Runs, pure-Runs, with_lock-Runs}
use lxd_csi_driver.Controller.Create.{
  Plan, create_volume, create_planned, response_of, volume_id_of,
}
use lxd_csi_driver.Controller.Create.Ids.{create_planned-Runs}
use lxd_csi_driver.Controller.Delete.{delete_volume, delete_snapshot}
use lxd_csi_driver.Controller.Snapshot.{create_snapshot}
use lxd_csi_driver.Controller.Publish.{controller_publish_volume, controller_unpublish_volume}
use lxd_csi_driver.Controller.Expand.{controller_expand_volume}
use lxd_csi_driver.Controller.Steps.{steps}

-- The lock table, as a view of the driver and the locks.
abbrev locks_view : {D Locks : Type 0} → D → Locks → Locks
locks_view d t = t

module _ {E : Env} where
  -- A method that answers with success found the lock of an ID, which its answer may name, free.
  pub record Takes {A : Type 0} (id : A → Text) (m : Rpc E A) : Type 0 where
    pub free :
        (w : World E) {w' : World E} {a : A} → m w ≡ (done a, w') → E.held w.locks (id a) ≡ false

  get_client-Keeps_locks : (m : String) → Keeps locks_view (get_client E m)
  get_client-Keeps_locks m = record { at = λ w. get_client-locks E m w }

  bind-Takes :
      {A B : Type 0} {id : B → Text} {m : Rpc E A} {k : A → Rpc E B}
      → Keeps locks_view m
      → ((a : A) → Takes id (k a))
      → Takes id (m >>= k)
  bind-Takes {id} {m} {k} kept taken = record {
    free = λ w {w'} {a = b} h.
        let h0 : Runs (m >>= k) w b w' = record { run = h } in
        let (a, v, p, q) = bind-Runs h0 in
        ap (λ t. E.held t (id b)) (sym (kept.at w) ∙ ap (λ x. x.1.locks) p.run)
        ∙ (taken a).free v q.run;
  }

module _ {E : Env} (L : IsLocking E) where
  free_of_taken : (t t' : E.Locks) (k : Text) → E.try_lock k t ≡ some t' → E.held t k ≡ false
  free_of_taken t t' k taken = elim (Bool-cases (E.held t k)) [
    | inl busy ↦ let f : ⊥ = cc (taken, (L.try_lock-none k t).1 busy) in absurd f
    | inr free ↦ free
  ]

  -- The lock is the one of an ID that the answer of the part under it names.
  with_lock-Takes_named :
      {A : Type 0} (id : A → Text) (k : Text) (m : String) {body : Rpc E A}
      → ((v : World E) (a : A) (v' : World E) → Runs body v a v' → id a ≡ k)
      → Takes id (with_lock E k m body)
  with_lock-Takes_named id k m {body} named = record {
    free = λ w {w'} {a} h.
        let (t, v, taken, run, _) = with_lock-Runs k m body w (record { run = h }) in
        ap (E.held w.locks) (named (record w { locks = t }) a v run)
        ∙ free_of_taken w.locks t k taken;
  }

  with_lock-Takes :
      {A : Type 0} (k : Text) (m : String) (body : Rpc E A) → Takes (λ a. k) (with_lock E k m body)
  with_lock-Takes k m body = with_lock-Takes_named (λ a. k) k m (λ v a v' run. refl)

  ruleset taking = (steps, get_client-Keeps_locks, bind-Takes, with_lock-Takes)

  create_planned-Takes :
      (d : Driver E.Client) (client : E.Client) (p : Plan) (req : CreateVolumeRequest) (m : String)
      → Takes (λ x. x.volume_id) (with_lock E (volume_id_of p) m (create_planned E d client p req))
  unfolding response_of
  create_planned-Takes d client p req m =
      with_lock-Takes_named (λ x. x.volume_id) (volume_id_of p) m
        (λ v a v' run.
          ap (λ (x : CreateVolumeResponse). x.volume_id) (create_planned-Runs E d client p req run))

  snapshot_locked-Takes :
      {B : Type 0} (id source : Text) (k : String) (op : Rpc E B) (next : B → Rpc E (Unit {0}))
      → Takes
          (λ (x : CreateSnapshotResponse). x.snapshot_id)
          (with_lock E id k (do
            found ← op
            next found
            pure (record { snapshot_id = id; source_volume_id = source; ready_to_use = true })))
  snapshot_locked-Takes id source k op next =
      with_lock-Takes_named (λ x. x.snapshot_id) id k
        (λ v a v' run.
          let (found, v1, _, rest) = bind-Runs run in
          let (u, v2, _, last) = bind-Runs rest in
          ap (λ (x : CreateSnapshotResponse). x.snapshot_id) (pure-Runs last).0)

  -- With a lock table as `locking.TryLock` documents it, each of the seven controller methods answers with
  -- success only if the lock of its ID was free when it began: the ID of the created volume or snapshot,
  -- which the answer names, or the one of the request.
  pub controller-Takes :
      (create : CreateVolumeRequest) (snapshot : CreateSnapshotRequest)
      (publish : PublishVolumeRequest) (unpublish : UnpublishVolumeRequest)
      (expand : ExpandVolumeRequest) (id : Text)
      → Takes (λ x. x.volume_id) (create_volume E create)
        × Takes (λ u. id) (delete_volume E id)
        × Takes (λ x. x.snapshot_id) (create_snapshot E snapshot)
        × Takes (λ u. id) (delete_snapshot E id)
        × Takes (λ u. publish.volume_id) (controller_publish_volume E publish)
        × Takes (λ u. unpublish.volume_id) (controller_unpublish_volume E unpublish)
        × Takes (λ x. expand.volume_id) (controller_expand_volume E expand)
  unfolding create_volume delete_volume create_snapshot delete_snapshot controller_publish_volume
      controller_unpublish_volume controller_expand_volume
  controller-Takes create snapshot publish unpublish expand id = (
    search (steps, get_client-Keeps_locks, bind-Takes, create_planned-Takes) depth 17,
    search taking depth 17,
    search (steps, get_client-Keeps_locks, bind-Takes, snapshot_locked-Takes) depth 17,
    search taking depth 17,
    search taking depth 17,
    search taking depth 17,
    search taking depth 17,
  )
