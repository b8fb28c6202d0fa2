-- ===== src/Controller/Create/Request.antt =====
-- `CreateVolume` up to its lock (internal/driver/controller.go): the volume's name, the checks of the
-- request, the choice of the cluster member, and the description.
use lxd_csi_driver.Base.{
  Bool, false, ◌&&◌, ◌||◌, not, List, [], ◌∷◌, ◌++◌, Option, none, some, if◌then◌else◌, ℤ, pos,
  ltb_ℤ,
}
use lxd_csi_driver.Strings.{Text, codes, is_empty, text_eq, has_prefix}
use lxd_csi_driver.Dict.{Dict, get, lookup}
use lxd_csi_driver.Csi.{
  invalid_argument, VolumeCapability, CapacityRange, Topology, TopologyRequirement,
}
use lxd_csi_driver.Capabilities.{CapabilityError, validate_volume_capabilities, parse_content_type}
use lxd_csi_driver.Lxd.{Env, StorageDriverInfo}
use lxd_csi_driver.Driver.{
  annotation_lxd_cluster_member, parameter_storage_pool, parameter_pvc_name,
  parameter_pvc_namespace,
}
use lxd_csi_driver.Rpc.{Rpc, ◌>>◌, pure, fail, panic, reject_if}
use lxd_csi_driver.Controller.{short_name}

-- The configured prefix, if there is one, replaces the prefix of the requested name.
unfoldable pub volume_name_of : Text → Option (Text × Text) → Option Text
volume_name_of configured none = none
volume_name_of configured (some (prefix, uuid)) =
    some (short_name (if is_empty configured then prefix else configured) uuid)

-- The loop over the parameters of the storage class: apart from those of CSI itself only the
-- storage pool may be given. The order of the entries does not matter.
unfoldable pub has_invalid_parameter : Dict Text → Bool
has_invalid_parameter [] = false
has_invalid_parameter ((k, v) ∷ parameters) =
    (not (has_prefix k (codes "csi.storage.k8s.io/")) && not (text_eq k parameter_storage_pool))
    || has_invalid_parameter parameters

-- The driver of the pool among those that the server supports; "cephobject" holds no volumes.
unfoldable pub find_driver : Text → List StorageDriverInfo → Option StorageDriverInfo
find_driver name [] = none
find_driver name (d ∷ ds) =
    if text_eq d.name name
    then if text_eq d.name (codes "cephobject") then none else some d
    else find_driver name ds

first_member_or : Option Text → Text → Text
first_member_or none rest = rest
first_member_or (some member) rest = member

-- The cluster member of the first preferred topology that names one.
unfoldable pub first_member : List Topology → Text
unfolding first_member_or
first_member [] = []
first_member (t ∷ ts) =
    first_member_or (lookup annotation_lxd_cluster_member t.segments) (first_member ts)

abbrev pub preferred_of : Option TopologyRequirement → List Topology
preferred_of none = []
preferred_of (some r) = r.preferred

-- A volume of a remote driver has no cluster member.
unfoldable pub target_of : StorageDriverInfo → Option TopologyRequirement → Text
unfolding first_member
target_of driver requirement = if driver.remote then [] else first_member (preferred_of requirement)

unfoldable pub topology_of : Text → List Topology
topology_of target =
    if is_empty target
    then []
    else record { segments = (annotation_lxd_cluster_member, target) ∷ [] } ∷ []

-- The name of the PVC, behind its namespace if that is given, or nothing.
unfoldable pub description_of : Dict Text → Text
description_of parameters =
    let pvc_name = get parameter_pvc_name parameters in
    let pvc_namespace = get parameter_pvc_namespace parameters in
    if is_empty pvc_name
    then codes "Managed by Kubernetes PVC"
    else codes "Managed by Kubernetes PVC"
      ++ codes " "
      ++ (if is_empty pvc_namespace then pvc_name else pvc_namespace ++ codes "/" ++ pvc_name)

module _ (E : Env) where
  unfoldable pub volume_name_or_fail : Option Text → Rpc E Text
  volume_name_or_fail none = fail invalid_argument "CreateVolume: Unexpected volume name format: %q"
  volume_name_or_fail (some name) = pure name

  abbrev pub check_capabilities : Option CapabilityError → Rpc E (Unit {0})
  check_capabilities none = pure tt
  check_capabilities (some e) = fail invalid_argument "CreateVolume: %v"

  -- The content type of accepted capabilities.
  unfoldable pub requested_content_type : List (Option VolumeCapability) → Rpc E Text
  requested_content_type capabilities = do
    check_capabilities (validate_volume_capabilities capabilities)
    let content_type = parse_content_type capabilities
    reject_if (is_empty content_type) invalid_argument
        "CreateVolume: Volume capability must specify either block or filesystem access type"
    pure content_type

  -- `req.CapacityRange.RequiredBytes`: a request without a capacity range panics here.
  unfoldable pub requested_size : Option CapacityRange → Rpc E ℤ
  requested_size none = panic
  requested_size (some range) = do
    reject_if (ltb_ℤ range.required_bytes (pos 1)) invalid_argument
        "CreateVolume: Volume size cannot be zero or negative"
    pure range.required_bytes

  unfoldable pub requested_pool : Dict Text → Rpc E Text
  requested_pool parameters = do
    reject_if (has_invalid_parameter parameters) invalid_argument
        "CreateVolume: Invalid parameter %q in storage class"
    let pool_name = get parameter_storage_pool parameters
    reject_if (is_empty pool_name) invalid_argument
        "CreateVolume: Storage class parameter %q is required and cannot be empty"
    pure pool_name

  unfoldable pub driver_or_fail : Option StorageDriverInfo → Rpc E StorageDriverInfo
  driver_or_fail none = fail invalid_argument "CreateVolume: CSI does not support storage driver %q"
  driver_or_fail (some driver) = pure driver
