-- ===== src/Tests/Mounting.antt =====
-- A volume that is published read-only on a node.
use Prim.Native.Nat.{bit_or}
use lxd_csi_driver.Base.{ℕ, true, false, List, [], ◌∷◌, none, ok, ◌≡◌, refl}
use lxd_csi_driver.Strings.{codes, cut, contains, split, text_eq}
use lxd_csi_driver.FilePath.{join_path}
use lxd_csi_driver.Capabilities.{
  validate_volume_capabilities, check_access_types, parse_content_type,
}
use lxd_csi_driver.VolumeId.{split_volume_id, split_rest, cut_member}
use lxd_csi_driver.Host.{Host}
use lxd_csi_driver.Rpc.{done, ◌>>=◌}
use lxd_csi_driver.Fs
use lxd_csi_driver.Fs.{
  is_mount_point, path_exists, on_host, make_target, remount_if, needs_remount, has_option, ms_bind,
  ms_rdonly, ms_remount, ms_rec, ms_slave,
}
use lxd_csi_driver.Fs.Mounting.{IsBinding}
use lxd_csi_driver.Node.{
  NodePublishVolumeRequest, node_publish_volume, step_or_fail, source_of, mount_source,
  mount_unless, bind_options,
}
use lxd_csi_driver.Node.Mounting.{node_publish_volume-readonly}
use lxd_csi_driver.Tests.Methods.{mount_capability}

-- A node on which every path exists and none is mounted. The state lists the flags of the mounts.
abbrev bare : Host
bare = record {
  State = List ℕ;
  Err = ℕ;
  is_not_exist = λ e. true;
  lstat = λ path s. (ok tt, s);
  is_mount_point = λ path s. ((false, none), s);
  mkdir_all = λ path s. (ok tt, s);
  create_file = λ path s. (ok tt, s);
  resolve_mount_options = λ options. (ms_bind, []);
  mount = λ source target flags options s. (ok tt, flags ∷ s);
  unmount = λ path s. (ok tt, s);
  remove = λ path s. (ok tt, s);
  sleep = λ milliseconds s. s;
  read_dir = λ path s. (ok [], s);
  eval_symlinks = λ path s. (ok path, s);
}

abbrev readonly_request : NodePublishVolumeRequest
readonly_request = record {
  volume_id = codes "default/vol";
  target_path = codes "/target";
  volume_capability = mount_capability;
  readonly = true;
}

abbrev logged : List ℕ
logged = bit_or ms_rec ms_slave ∷ bit_or (bit_or ms_rdonly ms_bind) ms_remount ∷ ms_bind ∷ []

publishes : node_publish_volume bare readonly_request [] ≡ (done tt, logged)
unfolding node_publish_volume ◌>>=◌ Fs.◌>>=◌ step_or_fail validate_volume_capabilities
    check_access_types split_volume_id split_rest cut_member contains cut split parse_content_type
    is_mount_point mount_unless mount_source source_of path_exists Fs.mount make_target on_host
    remount_if needs_remount has_option bind_options text_eq join_path
publishes = refl

bare-IsBinding : IsBinding bare
bare-IsBinding = record { binds = λ options. refl }

not_mounted : is_mount_point bare (codes "/target") [] ≡ (ok false, [])
unfolding is_mount_point
not_mounted = refl

node_publish_volume-readonly_example :
    (bound remounted : List ℕ) × (bare.mount []
        (codes "/target")
        (bit_or (bit_or ms_rdonly ms_bind) ms_remount)
        []
        bound
      ≡ (ok tt, remounted))
    × (bare.mount [] (codes "/target") (bit_or ms_rec ms_slave) [] remounted ≡ (ok tt, logged))
node_publish_volume-readonly_example =
    node_publish_volume-readonly bare bare-IsBinding readonly_request [] refl not_mounted publishes
