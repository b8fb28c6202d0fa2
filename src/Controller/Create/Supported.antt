-- ===== src/Controller/Create/Supported.antt =====
-- The storage driver that `CreateVolume` (internal/driver/controller.go) chooses for the pool.
use lxd_csi_driver.Base.{
  false, List, [], ◌∷◌, ◌++◌, Option, none, some, ok, ◌≡◌, sym, ap, ◌∙◌, All, Bool-cases, inl, inr,
}
use mathlib.Core.Path.{subst}
use lxd_csi_driver.Strings.{Text, codes, text_eq}
use lxd_csi_driver.Strings.Equality.{text_eq_iff}
use lxd_csi_driver.Csi.{CreateVolumeRequest}
use lxd_csi_driver.Lxd.{Env, StoragePool, ServerInfo, StorageDriverInfo}
use lxd_csi_driver.Driver.{Driver, World}
use lxd_csi_driver.Rpc.Invert.{Runs, bind-Runs, pure-Runs, call-Runs}
use lxd_csi_driver.Rpc.Retains.{Retains-Runs}
use lxd_csi_driver.Controller.Create.{Plan, plan_volume}
use lxd_csi_driver.Controller.Create.Request.{find_driver, driver_or_fail}
use lxd_csi_driver.Controller.Store.Reading.{
  volume_name_or_fail-Retains, requested_content_type-Retains, requested_size-Retains,
  requested_pool-Retains,
}

-- The first driver of a name in a list, which is not the one of object storage.
pub record IsChosen (name : Text) (drivers : List StorageDriverInfo) (driver : StorageDriverInfo)
    : Type 0 where
  pub before : List StorageDriverInfo
  pub after : List StorageDriverInfo
  pub split_eq : drivers ≡ before ++ driver ∷ after
  pub none_before : All (λ d. text_eq d.name name ≡ false) before
  pub named : driver.name ≡ name
  pub holds_volumes : text_eq driver.name (codes "cephobject") ≡ false

find_driver-IsChosen :
    (name : Text) (drivers : List StorageDriverInfo) {driver : StorageDriverInfo}
    → find_driver name drivers ≡ some driver
    → IsChosen name drivers driver
unfolding find_driver
find_driver-IsChosen name [] h = cc
find_driver-IsChosen name (d ∷ ds) {driver} h = elim (Bool-cases (text_eq d.name name)) [
  | inl found ↦ elim (Bool-cases (text_eq d.name (codes "cephobject"))) [
    | inl object ↦ let f : ⊥ = cc (rw (found, object, find_driver) at h) in absurd f
    | inr other ↦
        let e : d ≡ driver = cc (rw (found, other, find_driver) at h) in
        record {
          before = [];
          after = ds;
          split_eq = ap (λ x. x ∷ ds) e;
          none_before = tt;
          named = rw e at ((text_eq_iff d.name name).0 found);
          holds_volumes = rw e at other;
        }
  ]
  | inr other ↦
      let rest = find_driver-IsChosen name ds (rw (other, find_driver) at h) in
      record {
        before = d ∷ rest.before;
        after = rest.after;
        split_eq = ap (λ xs. d ∷ xs) rest.split_eq;
        none_before = (other, rest.none_before);
        named = rest.named;
        holds_volumes = rest.holds_volumes;
      }
]

module _ (E : Env) where
  -- LXD, asked in a state, has the pool, and then names the drivers it supports; the driver is the one
  -- that it chooses for the pool.
  pub record IsSupported (client : E.Client) (pool_name : Text) (s : E.State)
      (driver : StorageDriverInfo) : Type 0 where
    pub pool : StoragePool
    pub asked : E.State
    pub pool_eq : E.get_storage_pool client pool_name s ≡ (ok pool, asked)
    pub info : ServerInfo
    pub told : E.State
    pub info_eq : E.get_state client asked ≡ (ok info, told)
    pub chosen : IsChosen pool.driver info.supported_storage_drivers driver

  driver_or_fail-Runs :
      (o : Option StorageDriverInfo) {w w' : World E} {driver : StorageDriverInfo}
      → Runs (driver_or_fail E o) w driver w'
      → o ≡ some driver
  unfolding driver_or_fail
  driver_or_fail-Runs none h = cc (h.run)
  driver_or_fail-Runs (some driver) h = cc (h.run)

  -- A plan's driver is the one that LXD supports for the plan's pool.
  pub plan_volume-IsSupported :
      (d : Driver E.Client) (client : E.Client) (req : CreateVolumeRequest) {w w' : World E}
      {p : Plan}
      → Runs (plan_volume E d client req) w p w'
      → IsSupported client p.pool_name w.state p.driver
  unfolding plan_volume
  plan_volume-IsSupported d client req {w} h =
      let (name, w1, p1, h1) = bind-Runs h in
      let (content_type, w2, p2, h2) = bind-Runs h1 in
      let (size, w3, p3, h3) = bind-Runs h2 in
      let (pool_name, w4, p4, h4) = bind-Runs h3 in
      let (pool, w5, p5, h5) = bind-Runs h4 in
      let (info, w6, p6, h6) = bind-Runs h5 in
      let (driver, w7, p7, h7) = bind-Runs h6 in
      let (plan_eq, _) = pure-Runs h7 in
      let same : w4.state ≡ w.state =
        Retains-Runs (λ s. s) (requested_pool-Retains (λ s. s) req.parameters) p4
        ∙ Retains-Runs (λ s. s) (requested_size-Retains (λ s. s) req.capacity_range) p3
        ∙ Retains-Runs (λ s. s) (requested_content_type-Retains (λ s. s) req.volume_capabilities) p2
        ∙ Retains-Runs (λ s. s) (volume_name_or_fail-Retains (λ s. s) _) p1 in
      let supported : IsSupported client pool_name w.state driver = record {
        pool = pool;
        asked = w5.state;
        pool_eq =
            ap (λ s. E.get_storage_pool client pool_name s) (sym same) ∙ (call-Runs _ _ w4 p5).0;
        info = info;
        told = w6.state;
        info_eq = (call-Runs _ _ w5 p6).0;
        chosen = find_driver-IsChosen pool.driver _ (driver_or_fail-Runs _ p7);
      } in
      subst (λ (q : Plan). IsSupported client q.pool_name w.state q.driver) (sym plan_eq) supported
