-- ===== src/Tests/Methods.antt =====
-- Methods of the controller on concrete requests.
use lxd_csi_driver.Base.{[], ◌∷◌, Option, none, some, ok, ◌≡◌, refl, pos, arith, ap}
use lxd_csi_driver.Strings.{Text, codes, cut, replace_all, has_prefix, text_eq}
use lxd_csi_driver.Dict.{lookup, insert}
use lxd_csi_driver.Capabilities.{
  validate_volume_capabilities, check_access_types, parse_content_type,
}
use lxd_csi_driver.Csi.{
  CreateVolumeRequest, CreateVolumeResponse, VolumeCapability, CapacityRange, mount,
}
use lxd_csi_driver.VolumeId.{get_volume_id}
use lxd_csi_driver.Driver.{World, new_driver}
use lxd_csi_driver.Driver.Connect.{dev_lxd_client}
use lxd_csi_driver.Rpc.{
  Outcome, done, ◌>>=◌, get_client, get_driver, call, attempt, or_fail, with_lock,
  attempt_operation, wait_on,
}
use lxd_csi_driver.Controller.{short_name, targeted}
use lxd_csi_driver.Controller.Create.{
  Plan, create_volume, plan_volume, create_planned, check_absent, make_volume, post_volume, post_of,
  response_of,
}
use lxd_csi_driver.Controller.Create.Request.{
  volume_name_of, volume_name_or_fail, requested_content_type, requested_size, requested_pool,
  has_invalid_parameter, find_driver, driver_or_fail, target_of, first_member, topology_of,
}
use lxd_csi_driver.Controller.Create.Ids.{HasPlainNames, create_volume-done}
use lxd_csi_driver.Controller.Create.Planning.{IsPlan}
use lxd_csi_driver.Controller.Create.Supported.{IsSupported}
use lxd_csi_driver.Tests.Fake.{fake, connected}

abbrev pub mount_capability : Option VolumeCapability
mount_capability = some (record { access_type = mount (record { fs_type = []; mount_flags = [] }) })

abbrev pub gibibyte : Option CapacityRange
gibibyte = some (record { required_bytes = pos 1073741824; limit_bytes = pos 0 })

abbrev pub create_request : CreateVolumeRequest
create_request = record {
  name = codes "pvc-01-23";
  capacity_range = gibibyte;
  volume_capabilities = mount_capability ∷ [];
  parameters = (codes "storagePool", codes "default") ∷ [];
  volume_content_source = none;
  accessibility_requirements = none;
}

abbrev pub create_response : CreateVolumeResponse
create_response = record {
  volume_id = codes "default/csi-0123";
  capacity_bytes = pos 1073741824;
  volume_context =
      (codes "storagePool", codes "default") ∷ (codes "internal.storageDriver", codes "zfs") ∷ [];
  content_source = none;
  accessible_topology = [];
}

creates : (create_volume fake create_request connected).0 ≡ done create_response
unfolding new_driver create_volume ◌>>=◌ get_client dev_lxd_client get_driver plan_volume
    volume_name_of short_name cut replace_all volume_name_or_fail requested_content_type
    validate_volume_capabilities check_access_types parse_content_type requested_size requested_pool
    lookup has_invalid_parameter has_prefix call attempt or_fail find_driver driver_or_fail
    target_of first_member with_lock targeted create_planned check_absent make_volume post_volume
    attempt_operation wait_on post_of response_of insert topology_of get_volume_id text_eq
creates = refl

pub answered : {A W : Type 0} {p : Outcome A × W} {a : A} → p.0 ≡ done a → p ≡ (done a, p.1)
answered {p = p} h = ap (λ o. (o, p.1)) h

pub plain_names : HasPlainNames (codes "csi") create_request
unfolding first_member lookup text_eq
plain_names = record {
  prefix_no_colon = omega arith;
  prefix_no_slash = omega arith;
  name_no_colon = omega arith;
  name_no_slash = omega arith;
  pool_no_colon = omega arith;
  pool_no_slash = omega arith;
  member_no_colon = tt;
}

create_volume-done_example :
    (client : Text) × (session : World fake) × (p : Plan) × (dev_lxd_client fake connected
      ≡ (ok client, session))
    × IsPlan session.driver create_request p
    × IsSupported fake client p.pool_name session.state p.driver
    × (create_response ≡ response_of p create_request)
create_volume-done_example = create_volume-done fake create_request connected (answered creates)
