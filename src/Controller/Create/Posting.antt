-- ===== src/Controller/Create/Posting.antt =====
-- What the part of `CreateVolume` under the lock (internal/driver/controller.go) asks of LXD.
use lxd_csi_driver.Base.{
  true, String, Option, Result, ok, err, ◌≡◌, refl, ap, sym, ◌∙◌, Bool-cases, inl, inr,
}
use lxd_csi_driver.Strings.{Text}
use lxd_csi_driver.Dict.{Dict}
use lxd_csi_driver.Csi.{CreateVolumeRequest}
use lxd_csi_driver.Lxd.{Env, StorageVolume, VolumeSource, VolumesPost}
use lxd_csi_driver.Driver.{Driver, World}
use lxd_csi_driver.Rpc.{done, attempt_operation}
use lxd_csi_driver.Rpc.Invert.{Runs, bind-Runs, or_fail-Runs}
use lxd_csi_driver.Controller.{custom, is_not_found}
use lxd_csi_driver.Controller.Expand.{is_some}
use lxd_csi_driver.Controller.Create.{Plan, post_of, check_absent, post_volume}

module _ (E : Env) where
  -- LXD answered that there is no volume of the plan's name in the plan's pool, and then made one
  -- from the request that the plan gives; a source stands in it if the request has a content source.
  pub record IsCreated (client : E.Client) (p : Plan) (req : CreateVolumeRequest) (w w' : World E)
      : Type 0 where
    pub absent : E.Err
    pub absent_state : E.State
    pub absent_eq :
        E.get_storage_pool_volume client p.pool_name custom p.vol_name w.state
        ≡ (err absent, absent_state)
    pub not_found : is_not_found E absent ≡ true
    pub source : Option VolumeSource
    pub source_eq : is_some source ≡ is_some req.volume_content_source
    pub before : World E
    pub created_eq :
        attempt_operation E
          (E.create_storage_pool_volume client p.pool_name (post_of p req.parameters source))
          before
        ≡ (done (ok tt), w')

  pub check_absent-Runs :
      (r : Result E.Err (StorageVolume × Text)) {w w' : World E} {u : Unit {0}}
      → Runs (check_absent E r) w u w'
      → (e : E.Err) × (r ≡ err e) × (is_not_found E e ≡ true)
  unfolding check_absent
  check_absent-Runs (ok v) h = cc (h.run)
  check_absent-Runs (err e) {w} h = elim (Bool-cases (is_not_found E e)) [
    | inl absent ↦ (e, refl, absent)
    | inr other ↦
        let (x, _) =
          or_fail-Runs _ (err e) w (record { run = rw (other, check_absent) at h.run }) in
        let f : ⊥ = cc x in absurd f
  ]

  pub post_volume-Runs :
      (client : E.Client) (p : Plan) (post : VolumesPost) (m : String) {w w' : World E}
      {u : Unit {0}}
      → Runs (post_volume E client p post m) w u w'
      → attempt_operation E (E.create_storage_pool_volume client p.pool_name post) w
        ≡ (done (ok tt), w')
  unfolding post_volume
  post_volume-Runs client p post m {w} {w'} h =
      let (created, w1, p1, h1) = bind-Runs h in
      let (created_ok, same) = or_fail-Runs m created w1 h1 in
      p1.run
      ∙ ap (λ (v : World E). (done created, v)) (sym same)
      ∙ ap (λ r. (done r, w')) created_ok
