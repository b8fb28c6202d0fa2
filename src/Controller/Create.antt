-- ===== src/Controller/Create.antt =====
-- `CreateVolume` (internal/driver/controller.go).
pub mod Request
pub mod Source
pub mod Planning
pub mod Supported
pub mod Copies
pub mod Posting
pub mod Ids
use lxd_csi_driver.Base.{
  Bool, true, false, String, [], ◌∷◌, Option, none, some, Result, ok, err, if◌then◌else◌, ℤ,
}
use lxd_csi_driver.Strings.{Text, cut}
use lxd_csi_driver.Strconv.{format_int}
use lxd_csi_driver.Dict.{Dict, insert}
use lxd_csi_driver.Csi.{already_exists, CreateVolumeRequest, CreateVolumeResponse, ContentSource}
use lxd_csi_driver.Lxd.{Env, VolumesPost, VolumeSource, StorageVolume, StorageDriverInfo}
use lxd_csi_driver.VolumeId.{get_volume_id}
use lxd_csi_driver.Driver.{Driver, parameter_storage_driver}
use lxd_csi_driver.Rpc.{
  Rpc, ◌>>=◌, ◌>>◌, pure, fail, or_fail, call, get_client, get_driver, with_lock, attempt,
  attempt_operation,
}
use lxd_csi_driver.Controller.{custom, size_key, targeted, is_not_found}
use Request.{
  volume_name_of, volume_name_or_fail, requested_content_type, requested_size, requested_pool,
  find_driver, driver_or_fail, target_of, topology_of, description_of,
}
use Source.{source_of}

-- What the checks of the request settled.
pub record Plan : Type 0 where
  pub vol_name : Text
  pub content_type : Text
  pub size : ℤ
  pub pool_name : Text
  pub driver : StorageDriverInfo
  pub target : Text

abbrev pub volume_id_of : Plan → Text
volume_id_of p = get_volume_id p.target p.pool_name p.vol_name

unfoldable pub post_of : Plan → Dict Text → Option VolumeSource → VolumesPost
post_of p parameters source = record {
  name = p.vol_name;
  volume_type = custom;
  content_type = p.content_type;
  source = source;
  description = description_of parameters;
  config = (size_key, format_int p.size) ∷ [];
}

unfoldable pub response_of : Plan → CreateVolumeRequest → CreateVolumeResponse
response_of p req = record {
  volume_id = volume_id_of p;
  capacity_bytes = p.size;
  volume_context = insert parameter_storage_driver (p.driver).name req.parameters;
  content_source = req.volume_content_source;
  accessible_topology = topology_of p.target;
}

module _ (E : Env) where
  -- Only the answer that there is no such volume lets the method go on.
  unfoldable pub check_absent : Result E.Err (StorageVolume × Text) → Rpc E (Unit {0})
  check_absent (ok v) =
      fail already_exists "CreateVolume: Volume with the same name %q already exists"
  check_absent (err e) =
      if is_not_found E e
      then pure tt
      else or_fail E "CreateVolume: Failed to retrieve storage volume %q from pool %q: %v" (err e)

  unfoldable pub post_volume : E.Client → Plan → VolumesPost → String → Rpc E (Unit {0})
  post_volume client p post m = do
    created ← attempt_operation E (E.create_storage_pool_volume client p.pool_name post)
    or_fail E m created

  unfoldable pub make_volume :
      Driver E.Client → E.Client → Plan → Dict Text → Option ContentSource → Rpc E (Unit {0})
  make_volume d client p parameters none =
      post_volume client p (post_of p parameters none)
        "CreateVolume: Failed to create volume %q in storage pool %q: %v"
  make_volume d client p parameters (some content_source) = do
    source ← source_of E d client p.content_type p.size content_source
    post_volume client p (post_of p parameters (some source))
        "CreateVolume: Failed to create volume %q in storage pool %q from volume %q in storage pool %q: %v"

  -- The part of the method that holds the lock of the volume's ID.
  unfoldable pub create_planned :
      Driver E.Client → E.Client → Plan → CreateVolumeRequest → Rpc E CreateVolumeResponse
  create_planned d client p req = do
    found ← attempt E (E.get_storage_pool_volume client p.pool_name custom p.vol_name)
    check_absent found
    make_volume d client p req.parameters req.volume_content_source
    pure (response_of p req)

  -- The part before the lock.
  unfoldable pub plan_volume : Driver E.Client → E.Client → CreateVolumeRequest → Rpc E Plan
  plan_volume d client req = do
    vol_name ← volume_name_or_fail E (volume_name_of d.volume_name_prefix (cut req.name b'-'))
    content_type ← requested_content_type E req.volume_capabilities
    size ← requested_size E req.capacity_range
    pool_name ← requested_pool E req.parameters
    pool ←
        call E (E.get_storage_pool client pool_name)
          "CreateVolume: Failed to retrieve storage pool %q: %v"
    info ← call E (E.get_state client) "CreateVolume: %v"
    driver ← driver_or_fail E (find_driver pool.driver info.supported_storage_drivers)
    pure (record {
      vol_name = vol_name;
      content_type = content_type;
      size = size;
      pool_name = pool_name;
      driver = driver;
      target = target_of driver req.accessibility_requirements;
    })

  unfoldable pub create_volume : CreateVolumeRequest → Rpc E CreateVolumeResponse
  create_volume req = do
    client ← get_client E "CreateVolume: %v"
    d ← get_driver E
    p ← plan_volume d client req
    with_lock E (volume_id_of p) "CreateVolume: Failed to obtain lock %q"
        (create_planned d (targeted E d client p.target) p req)
