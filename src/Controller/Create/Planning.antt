-- ===== src/Controller/Create/Planning.antt =====
-- What `CreateVolume` (internal/driver/controller.go) has settled when it takes its lock.
use lxd_csi_driver.Base.{
  false, List, Option, none, some, ◌≡◌, refl, sym, ap, ◌∙◌, arith, ℤ, pos, ◌≤ℤ◌,
}
use mathlib.Core.Path.{subst}
use lxd_csi_driver.Strings.{Text, is_empty, cut}
use lxd_csi_driver.Dict.{Dict, get}
use lxd_csi_driver.Csi.{CapacityRange, CreateVolumeRequest, VolumeCapability}
use lxd_csi_driver.Capabilities.{validate_volume_capabilities, parse_content_type}
use lxd_csi_driver.Lxd.{Env}
use lxd_csi_driver.Driver.{Driver, World, parameter_storage_pool}
use lxd_csi_driver.Rpc.Invert.{Runs, bind-Runs, pure-Runs, reject_if-Runs}
use lxd_csi_driver.Controller.Create.{Plan, plan_volume}
use lxd_csi_driver.Controller.Create.Request.{
  volume_name_of, volume_name_or_fail, check_capabilities, requested_content_type, requested_size,
  requested_pool, has_invalid_parameter, target_of,
}

-- The checks of the request that a plan has passed.
pub record IsPlan {Client : Type 0} (d : Driver Client) (req : CreateVolumeRequest) (p : Plan)
    : Type 0 where
  pub name_eq : volume_name_of d.volume_name_prefix (cut req.name b'-') ≡ some p.vol_name
  pub capabilities_ok : validate_volume_capabilities req.volume_capabilities ≡ none
  pub content_eq : p.content_type ≡ parse_content_type req.volume_capabilities
  pub range : CapacityRange
  pub range_eq : req.capacity_range ≡ some range
  pub size_eq : p.size ≡ range.required_bytes
  pub size_positive : pos 1 ≤ℤ p.size
  pub parameters_ok : has_invalid_parameter req.parameters ≡ false
  pub pool_eq : p.pool_name ≡ get parameter_storage_pool req.parameters
  pub pool_named : is_empty p.pool_name ≡ false
  pub target_eq : p.target ≡ target_of p.driver req.accessibility_requirements

module _ (E : Env) where
  volume_name_or_fail-Runs :
      (o : Option Text) {w w' : World E} {name : Text}
      → Runs (volume_name_or_fail E o) w name w'
      → o ≡ some name
  unfolding volume_name_or_fail
  volume_name_or_fail-Runs none h = cc (h.run)
  volume_name_or_fail-Runs (some name) h = cc (h.run)

  requested_content_type-Runs :
      (cs : List (Option VolumeCapability)) {w w' : World E} {content_type : Text}
      → Runs (requested_content_type E cs) w content_type w'
      → (validate_volume_capabilities cs ≡ none) × (content_type ≡ parse_content_type cs)
  unfolding requested_content_type
  requested_content_type-Runs cs {w} h =
      let (_, w1, p1, h1) = bind-Runs h in
      let (_, w2, p2, h2) = bind-Runs h1 in
      (checked (validate_volume_capabilities cs) p1, (pure-Runs h2).0)
    where
      checked :
          (o : _) {w w' : World E} {u : Unit {0}} → Runs (check_capabilities E o) w u w' → o ≡ none
      checked none h = refl
      checked (some e) h = cc (h.run)

  requested_size-Runs :
      (o : Option CapacityRange) {w w' : World E} {size : ℤ}
      → Runs (requested_size E o) w size w'
      → (range : CapacityRange) × (o ≡ some range) × (size ≡ range.required_bytes) × (pos 1 ≤ℤ size)
  unfolding requested_size
  requested_size-Runs none h = cc (h.run)
  requested_size-Runs (some range) {w} h =
      let (_, w1, p1, h1) = bind-Runs h in
      let (large, _) = reject_if-Runs _ _ _ w p1 in
      let (same, _) = pure-Runs h1 in (range, refl, same, rw same (ground arith))

  requested_pool-Runs :
      (parameters : Dict Text) {w w' : World E} {pool : Text}
      → Runs (requested_pool E parameters) w pool w'
      → (has_invalid_parameter parameters ≡ false)
        × (pool ≡ get parameter_storage_pool parameters)
        × (is_empty pool ≡ false)
  unfolding requested_pool
  requested_pool-Runs parameters {w} h =
      let (_, w1, p1, h1) = bind-Runs h in
      let (_, w2, p2, h2) = bind-Runs h1 in
      let (same, _) = pure-Runs h2 in
      ((reject_if-Runs _ _ _ w p1).0, same, ap is_empty same ∙ (reject_if-Runs _ _ _ w1 p2).0)

  -- A plan is made only of a request that passes every check.
  pub plan_volume-IsPlan :
      (d : Driver E.Client) (client : E.Client) (req : CreateVolumeRequest) {w w' : World E}
      {p : Plan}
      → Runs (plan_volume E d client req) w p w'
      → IsPlan d req p
  unfolding plan_volume
  plan_volume-IsPlan d client req h =
      let (name, w1, p1, h1) = bind-Runs h in
      let (content_type, w2, p2, h2) = bind-Runs h1 in
      let (size, w3, p3, h3) = bind-Runs h2 in
      let (pool, w4, p4, h4) = bind-Runs h3 in
      let (_, w5, p5, h5) = bind-Runs h4 in
      let (_, w6, p6, h6) = bind-Runs h5 in
      let (driver, w7, p7, h7) = bind-Runs h6 in
      let (plan_eq, _) = pure-Runs h7 in
      let (ok_caps, content_eq) = requested_content_type-Runs req.volume_capabilities p2 in
      let (range, range_eq, size_eq, positive) = requested_size-Runs req.capacity_range p3 in
      let (ok_parameters, pool_eq, pool_named) = requested_pool-Runs req.parameters p4 in
      subst (IsPlan d req) (sym plan_eq) (record {
        name_eq = volume_name_or_fail-Runs _ p1;
        capabilities_ok = ok_caps;
        content_eq = content_eq;
        range = range;
        range_eq = range_eq;
        size_eq = size_eq;
        size_positive = positive;
        parameters_ok = ok_parameters;
        pool_eq = pool_eq;
        pool_named = pool_named;
        target_eq = refl;
      })
