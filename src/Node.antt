-- ===== src/Node.antt =====
-- internal/driver/node.go: the node server.
pub mod Laws
pub mod Agreement
pub mod Mounting
use lxd_csi_driver.Base.{
  ℕ, Bool, true, false, List, [], ◌∷◌, ◌++◌, String, Option, none, some, Result, ok, err,
  if◌then◌else◌,
}
use lxd_csi_driver.Strings.{Text, codes, is_empty, replace_all, cut_after, has_prefix}
use lxd_csi_driver.FilePath.{join_path}
use lxd_csi_driver.Csi.{
  Code, invalid_argument, internal, not_found, VolumeCapability, AccessType, MountVolume, unset,
  block, mount, Topology,
}
use lxd_csi_driver.Capabilities.{
  CapabilityError, validate_volume_capabilities, parse_content_type, access_of,
}
use lxd_csi_driver.VolumeId.{VolumeRef, split_volume_id}
use lxd_csi_driver.Driver.{
  Driver, NodeServiceCapability, driver_file_system_mount_path, annotation_lxd_cluster_member,
}
use lxd_csi_driver.Host.{Host}
use lxd_csi_driver.Rpc.{Outcome, done, failed, ◌>>=◌, ◌>>◌, pure, fail, reject_if, or_status}
use lxd_csi_driver.Fs
use lxd_csi_driver.Fs.{FsError, message, Step, path_exists, is_mount_point}

pub record NodePublishVolumeRequest : Type 0 where
  pub volume_id : Text
  pub target_path : Text
  pub volume_capability : Option VolumeCapability
  pub readonly : Bool

pub record NodeGetInfoResponse : Type 0 where
  pub node_id : Text
  pub accessible_topology : Topology

unfoldable pub node_get_capabilities :
    {Client : Type 0} → Driver Client → List NodeServiceCapability
node_get_capabilities d = d.node_capabilities

unfoldable pub node_get_info : {Client : Type 0} → Driver Client → NodeGetInfoResponse
node_get_info d = record {
  node_id = d.node_id;
  accessible_topology = record { segments = (annotation_lxd_cluster_member, d.location) ∷ [] };
}

abbrev pub base_path : Text
base_path = codes "/dev/disk/by-id"

-- The suffix of a device's name behind "_lxd_" is a prefix of the volume's name, in which dashes are
-- doubled.
suffix_matches : Text → Option Text → Bool
suffix_matches vol_dev_name none = false
suffix_matches vol_dev_name (some suffix) = has_prefix vol_dev_name suffix

unfoldable pub device_matches : Text → Text → Bool
unfolding suffix_matches has_prefix cut_after
device_matches vol_dev_name device = suffix_matches vol_dev_name (cut_after device (codes "_lxd_"))

-- The first device that matches.
unfoldable pub find_device : Text → List Text → Option Text
find_device vol_dev_name [] = none
find_device vol_dev_name (device ∷ devices) =
    let rest = find_device vol_dev_name devices in
    if device_matches vol_dev_name device then some device else rest

unfoldable pub vol_dev_name_of : Text → Text
vol_dev_name_of vol_name = replace_all vol_name b'-' (codes "--")

-- `mountOptions` before the flags of the request.
unfoldable pub bind_options : Bool → List Text
bind_options readonly = if readonly then codes "bind" ∷ codes "ro" ∷ [] else codes "bind" ∷ []

module _ (H : Host) where
  found_device : Option Text → Step H Text
  found_device none s = (err (message "Disk device not found for volume %q"), s)
  found_device (some device) s = Fs.on_host H (H.eval_symlinks (join_path base_path device)) s

  listed_device : Text → Result H.Err (List Text) × H.State → Result (FsError H.Err) Text × H.State
  listed_device vol_dev_name (err e, s) = (err (message "Failed to list disk devices: %v"), s)
  listed_device vol_dev_name (ok devices, s) = found_device (find_device vol_dev_name devices) s

  unfoldable pub get_disk_device_path : Text → Step H Text
  unfolding listed_device found_device
  get_disk_device_path vol_name s =
      listed_device (vol_dev_name_of vol_name) (H.read_dir base_path s)

  abbrev pub NodeRpc : Type 0 → Type 0
  NodeRpc A = H.State → Outcome A × H.State

  abbrev as_outcome :
      {A : Type 0} → Code → String → Result (FsError H.Err) A × H.State → Outcome A × H.State
  as_outcome c m (ok a, s) = (done a, s)
  as_outcome c m (err e, s) = (failed c m, s)

  -- An error of a function of the package `fs` becomes a status.
  unfoldable pub step_or_fail : {A : Type 0} → Code → String → Step H A → NodeRpc A
  step_or_fail c m step s = as_outcome c m (step s)

  abbrev check_capabilities : Option CapabilityError → NodeRpc (Unit {0})
  check_capabilities none = pure tt
  check_capabilities (some e) = fail invalid_argument "NodePublishVolume: %v"

  abbrev require : {A : Type 0} → A → Bool × H.State → Outcome A × H.State
  require a (true, s) = (done a, s)
  require a (false, s) = (failed not_found "NodePublishVolume: Source path %q not found", s)

  -- The path and the options that the volume is mounted with, by its access type.
  unfoldable pub source_of : Text → List Text → AccessType → NodeRpc (Text × List Text)
  source_of vol_name options unset =
      fail invalid_argument "NodePublishVolume: Unsupported access type %q"
  source_of vol_name options block = do
    device ←
        step_or_fail internal "NodePublishVolume: Source device for volume %q not found: %v"
          (get_disk_device_path vol_name)
    pure (device, options)
  source_of vol_name options (mount m) =
      let path = join_path driver_file_system_mount_path vol_name in
      λ s. require (path, options ++ m.mount_flags) (path_exists H path s)

  unfoldable pub mount_source : Text → Text → Text → List Text → AccessType → NodeRpc (Unit {0})
  mount_source vol_name target_path content_type options access = do
    source ← source_of vol_name options access
    step_or_fail internal "NodePublishVolume: %v"
        (Fs.mount H source.0 target_path content_type source.1)

  -- A target that is mounted already is left alone.
  unfoldable pub mount_unless :
      Bool → Text → Text → Text → List Text → AccessType → NodeRpc (Unit {0})
  mount_unless true vol_name target_path content_type options access = pure tt
  mount_unless false vol_name target_path content_type options access =
      mount_source vol_name target_path content_type options access

  unfoldable pub node_publish_volume : NodePublishVolumeRequest → NodeRpc (Unit {0})
  node_publish_volume req = do
    check_capabilities (validate_volume_capabilities (req.volume_capability ∷ []))
    r ← or_status invalid_argument "NodePublishVolume: %v" (split_volume_id req.volume_id)
    reject_if (is_empty req.target_path) invalid_argument
        "NodePublishVolume: Target path not provided"
    let content_type = parse_content_type (req.volume_capability ∷ [])
    reject_if (is_empty content_type) invalid_argument
        "NodePublishVolume: Volume capability must specify either block or filesystem access type"
    mounted ← step_or_fail internal "NodePublishVolume: %v" (is_mount_point H req.target_path)
    mount_unless mounted r.vol_name req.target_path content_type (bind_options req.readonly)
        (access_of req.volume_capability)

  unfoldable pub node_unpublish_volume : Text → NodeRpc (Unit {0})
  node_unpublish_volume target_path = do
    reject_if (is_empty target_path) invalid_argument
        "NodeUnpublishVolume: Target path not provided"
    step_or_fail internal "NodeUnpublishVolume: %v" (Fs.unmount H target_path)
