-- ===== src/Node/Laws.antt =====
-- The choice of a device, and repeated calls (internal/driver/node.go).
use lxd_csi_driver.Base.{true, false, List, [], ◌∷◌, ◌++◌, none, ok, ◌≡◌, refl, All, arith}
use lxd_csi_driver.Strings.{Text, codes, is_empty}
use lxd_csi_driver.Capabilities.{validate_volume_capabilities, parse_content_type}
use lxd_csi_driver.Capabilities.Laws.{parse_content_type_of_validated}
use lxd_csi_driver.VolumeId.{VolumeRef, split_volume_id}
use lxd_csi_driver.Host.{Host}
use lxd_csi_driver.Rpc.{done, ◌>>=◌}
use lxd_csi_driver.Fs
use lxd_csi_driver.Fs.{is_mount_point, path_exists}
use lxd_csi_driver.Node.{
  NodePublishVolumeRequest, device_matches, node_publish_volume, node_unpublish_volume,
  step_or_fail, mount_unless,
}

-- The name of a device holds "_lxd_", and what follows it is the head of a volume's escaped name.
pub record IsNamed (name : Text) (device : Text) : Type 0 where
  pub head : Text
  pub suffix : Text
  pub rest : Text
  pub device_eq : device ≡ head ++ codes "_lxd_" ++ suffix
  pub name_eq : name ≡ suffix ++ rest

-- A device stands in a list, it matches, and none before it does.
pub record IsFirst (name : Text) (device : Text) (devices : List Text) : Type 0 where
  pub before : List Text
  pub after : List Text
  pub split_eq : devices ≡ before ++ device ∷ after
  pub none_before : All (λ d. device_matches name d ≡ false) before
  pub named : IsNamed name device

module _ (H : Host) where
  -- A request with valid capabilities, an ID that splits and a target, which is mounted already, is
  -- answered with success, and only the check of the mount point touches the node.
  pub node_publish_again :
      (req : NodePublishVolumeRequest) (r : VolumeRef) (s s' : H.State)
      → validate_volume_capabilities (req.volume_capability ∷ []) ≡ none
      → split_volume_id req.volume_id ≡ ok r
      → is_empty req.target_path ≡ false
      → is_mount_point H req.target_path s ≡ (ok true, s')
      → node_publish_volume H req s ≡ (done tt, s')
  unfolding node_publish_volume ◌>>=◌ step_or_fail mount_unless
  node_publish_again req r s s' valid split_ok named mounted =
      rw (valid, split_ok, named, content_named, mounted) refl
    where
      content_named : is_empty (parse_content_type (req.volume_capability ∷ [])) ≡ false
      content_named =
          ground (arith, parse_content_type_of_validated (req.volume_capability ∷ []) valid)

  -- A target that is named and does not exist is unpublished with success; only its check touches the
  -- node, so nothing is unmounted or removed.
  pub node_unpublish_again :
      (target : Text) (s s' : H.State)
      → is_empty target ≡ false
      → path_exists H target s ≡ (false, s')
      → node_unpublish_volume H target s ≡ (done tt, s')
  unfolding node_unpublish_volume ◌>>=◌ step_or_fail Fs.unmount
  node_unpublish_again target s s' named gone = rw (named, gone) refl
