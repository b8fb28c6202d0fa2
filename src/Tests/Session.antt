-- ===== src/Tests/Session.antt =====
-- The connection, the locks, the requests' capabilities and the errors' codes at concrete inputs.
use lxd_csi_driver.Base.{
  ℕ, true, false, [], ◌∷◌, Option, none, some, ok, ◌≡◌, ◌↔◌, ◌⊎◌, refl, pos, ◌==◌, arith,
}
use lxd_csi_driver.Strings.{codes, text_eq, has_prefix}
use lxd_csi_driver.Csi.{
  CreateSnapshotRequest, PublishVolumeRequest, UnpublishVolumeRequest, ExpandVolumeRequest,
  VolumeCapability, block, already_exists,
}
use lxd_csi_driver.Capabilities.{validate_volume_capabilities}
use lxd_csi_driver.Capabilities.Laws.{any_block, any_mount, validate_volume_capabilities_iff}
use lxd_csi_driver.LxdErrors.{external, wrapped, error_code}
use lxd_csi_driver.LxdErrors.Laws.{error_code_table}
use lxd_csi_driver.Driver.{World, new_driver}
use lxd_csi_driver.Driver.Connect.{
  connect, cached, trusting, dev_lxd_client, handle_token_file_change,
}
use lxd_csi_driver.Driver.Connect.Session.{
  IsTrusted, dev_lxd_client-IsTrusted, token_change-IsTrusted,
}
use lxd_csi_driver.Utils.{has_suffix_slash, parse_unix_socket_url, socket_path_of}
use lxd_csi_driver.Utils.Laws.{IsSocketPath, parse_unix_socket_url_sound}
use lxd_csi_driver.Rpc.Frame.{Keeps, holds}
use lxd_csi_driver.Controller.Create.{create_volume}
use lxd_csi_driver.Controller.Delete.{delete_volume, delete_snapshot}
use lxd_csi_driver.Controller.Snapshot.{create_snapshot}
use lxd_csi_driver.Controller.Publish.{controller_publish_volume, controller_unpublish_volume}
use lxd_csi_driver.Controller.Expand.{controller_expand_volume}
use lxd_csi_driver.Controller.Exclusion.{Takes, controller-Takes}
use lxd_csi_driver.Controller.Locks.{controller-Keeps}
use lxd_csi_driver.Tests.Fake.{fake, fake-IsLocking, begun, connected, server}
use lxd_csi_driver.Tests.Methods.{mount_capability, create_request}

abbrev pub copy_request : CreateSnapshotRequest
copy_request = record { name = codes "snapshot-4-2"; source_volume_id = codes "default/vol" }

abbrev pub publish_request : PublishVolumeRequest
publish_request = record {
  volume_id = codes "default/vol";
  node_id = codes "n1";
  volume_capability = mount_capability;
}

abbrev pub unpublish_request : UnpublishVolumeRequest
unpublish_request = record { volume_id = codes "default/vol"; node_id = codes "n1" }

abbrev pub grow_request : ExpandVolumeRequest
grow_request = record {
  volume_id = codes "default/vol";
  capacity_range = some (record { required_bytes = pos 2048; limit_bytes = pos 0 });
  volume_capability = mount_capability;
}

controller-Keeps_example :
    Keeps (holds fake (codes "default/vol")) (create_volume fake create_request)
    × Keeps (holds fake (codes "default/vol")) (delete_volume fake (codes "default/vol"))
    × Keeps (holds fake (codes "default/vol")) (create_snapshot fake copy_request)
    × Keeps (holds fake (codes "default/vol")) (delete_snapshot fake (codes "default/vol"))
    × Keeps (holds fake (codes "default/vol")) (controller_publish_volume fake publish_request)
    × Keeps (holds fake (codes "default/vol")) (controller_unpublish_volume fake unpublish_request)
    × Keeps (holds fake (codes "default/vol")) (controller_expand_volume fake grow_request)
controller-Keeps_example =
    controller-Keeps fake-IsLocking (codes "default/vol") create_request copy_request
      publish_request unpublish_request grow_request (codes "default/vol")

controller-Takes_example :
    Takes (λ x. x.volume_id) (create_volume fake create_request)
    × Takes (λ u. codes "default/vol") (delete_volume fake (codes "default/vol"))
    × Takes (λ x. x.snapshot_id) (create_snapshot fake copy_request)
    × Takes (λ u. codes "default/vol") (delete_snapshot fake (codes "default/vol"))
    × Takes (λ u. codes "default/vol") (controller_publish_volume fake publish_request)
    × Takes (λ u. codes "default/vol") (controller_unpublish_volume fake unpublish_request)
    × Takes (λ x. codes "default/vol") (controller_expand_volume fake grow_request)
controller-Takes_example =
    controller-Takes fake-IsLocking create_request copy_request publish_request unpublish_request
      grow_request (codes "default/vol")

-- The driver as it is behind the first connection.
abbrev opened : World fake
opened = record begun { driver = trusting fake [] server begun.driver }

connects : dev_lxd_client fake begun ≡ (ok [], opened)
unfolding new_driver dev_lxd_client connect parse_unix_socket_url socket_path_of has_suffix_slash
    has_prefix text_eq
connects = refl

not_cached : cached fake begun.driver ≡ none
unfolding new_driver
not_cached = refl

dev_lxd_client-IsTrusted_example : IsTrusted fake begun [] opened
dev_lxd_client-IsTrusted_example = dev_lxd_client-IsTrusted fake begun not_cached connects

abbrev reopened : World fake
reopened = record connected { driver = trusting fake [] server connected.driver }

reconnects : dev_lxd_client fake (handle_token_file_change fake connected) ≡ (ok [], reopened)
unfolding new_driver dev_lxd_client handle_token_file_change text_eq
reconnects = refl

token_change-IsTrusted_example :
    IsTrusted fake (handle_token_file_change fake connected) [] reopened
token_change-IsTrusted_example = token_change-IsTrusted fake connected reconnects

abbrev block_capability : Option VolumeCapability
block_capability = some (record { access_type = block })

validate_volume_capabilities_iff_example :
    (validate_volume_capabilities (none ∷ block_capability ∷ []) ≡ none) ↔ (
      ((any_block (none ∷ block_capability ∷ []) ≡ true)
        × (any_mount (none ∷ block_capability ∷ []) ≡ false))
      ⊎ ((any_block (none ∷ block_capability ∷ []) ≡ false)
          × (any_mount (none ∷ block_capability ∷ []) ≡ true)))
validate_volume_capabilities_iff_example =
    validate_volume_capabilities_iff (none ∷ block_capability ∷ [])

error_code_table_example :
    error_code fake (wrapped "CreateVolume: %w" (external 409)) ≡ already_exists
error_code_table_example =
    error_code_table fake (wrapped "CreateVolume: %w" (external 409)) 409 (λ n. sym_eq n)
  where
    sym_eq : (n : ℕ) → (409 == n) ≡ (n == 409)
    sym_eq n = ground arith

accepts :
    parse_unix_socket_url fake (codes "/dev/lxd/sock")
    ≡ ok (
      record { scheme = codes "unix"; host = []; path = codes "/dev/lxd/sock" },
      codes "/dev/lxd/sock",
    )
unfolding parse_unix_socket_url socket_path_of has_suffix_slash has_prefix text_eq
accepts = refl

parse_unix_socket_url_sound_example :
    IsSocketPath
      (record { scheme = codes "unix"; host = []; path = codes "/dev/lxd/sock" })
      (codes "/dev/lxd/sock")
parse_unix_socket_url_sound_example =
    parse_unix_socket_url_sound fake (codes "/dev/lxd/sock") accepts
