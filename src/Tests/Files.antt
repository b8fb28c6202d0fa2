-- ===== src/Tests/Files.antt =====
-- Mounts, devices and watched files at concrete inputs.
use lxd_csi_driver.Base.{
  ℕ, suc, ◌+◌, true, false, List, [], ◌∷◌, none, some, ok, err, ◌≡◌, refl, arith, ltb, not,
  if◌then◌else◌,
}
use lxd_csi_driver.Strings.{Text, codes, text_eq, cut, contains, split}
use lxd_csi_driver.Dict.{lookup}
use lxd_csi_driver.FilePath.{clean, join_path}
use lxd_csi_driver.Csi.{MountVolume, mount}
use lxd_csi_driver.Capabilities.{
  validate_volume_capabilities, check_access_types, parse_content_type,
}
use lxd_csi_driver.VolumeId.{VolumeRef, split_volume_id, split_rest, cut_member}
use lxd_csi_driver.Host.{Host}
use lxd_csi_driver.Rpc.{done}
use lxd_csi_driver.Fs.{host, unmount_loop, unmount_if, is_mount_point, path_exists}
use lxd_csi_driver.Fs.Options.{resolve_mount_options}
use lxd_csi_driver.Fs.Unmount.{unmount_loop_success, unmount_if-failed, before_round}
use lxd_csi_driver.Fs.Watch.{Watcher, watch_loop}
use lxd_csi_driver.Fs.Watch.Laws.{Change, signal_of, noticed, watch_loop-noticed}
use mathlib.Core.List.{map}
use lxd_csi_driver.Controller.Publish.{device_of}
use lxd_csi_driver.Node.{NodePublishVolumeRequest, node_publish_volume, source_of}
use lxd_csi_driver.Node.Laws.{node_publish_again}
use lxd_csi_driver.Node.Agreement.{source_of-device_of}
use lxd_csi_driver.Tests.Methods.{mount_capability}

-- A node on which every path but "/gone" exists and is mounted. The state counts the calls of
-- `unmount`, of which the third succeeds.
abbrev node : Host
node = record {
  State = ℕ;
  Err = ℕ;
  is_not_exist = λ e. true;
  lstat = λ path s. (if text_eq path (codes "/gone") then err 2 else ok tt, s);
  is_mount_point = λ path s. ((not (text_eq path (codes "/gone")), none), s);
  mkdir_all = λ path s. (ok tt, s);
  create_file = λ path s. (ok tt, s);
  resolve_mount_options = resolve_mount_options;
  mount = λ source target flags options s. (ok tt, s);
  unmount = λ path s. (if ltb s 2 then err 16 else ok tt, suc s);
  remove = λ path s. (ok tt, s);
  sleep = λ milliseconds s. s;
  read_dir = λ path s. (ok [], s);
  eval_symlinks = λ path s. (ok path, s);
}

unmount_loop_success_example :
    unmount_loop node 20 (codes "/target") none 0
    ≡ (none, (node.unmount (codes "/target") (before_round node (codes "/target") 2 0)).1)
unmount_loop_success_example =
    unmount_loop_success node (codes "/target") 20 2 none 0 (omega arith) (refl, (refl, tt)) refl

-- A node whose unmounting always fails.
abbrev busy_node : Host
busy_node = record node { unmount = λ path s. (err 16, suc s) }

unmount_if-failed_example :
    (x : ℕ) × (unmount_if busy_node true (codes "/target") 0
      ≡ (err (host x), before_round busy_node (codes "/target") 20 0))
unmount_if-failed_example = unmount_if-failed busy_node (codes "/target") 0 (
  refl,
  (
    refl,
    (
      refl,
      (
        refl,
        (
          refl,
          (
            refl,
            (
              refl,
              (
                refl,
                (
                  refl,
                  (
                    refl,
                    (
                      refl,
                      (refl, (refl, (refl, (refl, (refl, (refl, (refl, (refl, (refl, tt))))))))),
                    ),
                  ),
                ),
              ),
            ),
          ),
        ),
      ),
    ),
  ),
)

abbrev watcher : Watcher
watcher = record {
  path = codes "/etc/token";
  current_real_path = codes "/etc/..data1/token";
  calls = 0;
  running = true;
}

-- The projected files are swapped, an event of the old ones follows, and the file is written.
abbrev changes : List Change
changes =
    record {
      name = codes "/etc/..data";
      created = true;
      written = false;
      real_path = codes "/etc/..data2/token";
    }
    ∷ record {
      name = codes "/etc/..data1";
      created = false;
      written = false;
      real_path = codes "/etc/..data2/token";
    }
    ∷ record {
      name = codes "/etc/token";
      created = false;
      written = true;
      real_path = codes "/etc/..data2/token";
    }
    ∷ []

watch_loop-noticed_example :
    (watch_loop watcher (map signal_of changes)).calls
    ≡ 0 + noticed (codes "/etc/token") (codes "/etc/..data1/token") changes
watch_loop-noticed_example = watch_loop-noticed watcher changes refl (refl, (refl, (refl, tt)))

abbrev listed : List Text
listed = codes "scsi-0QEMU_root" ∷ codes "scsi-0QEMU_QEMU_HARDDISK_lxd_csi--0" ∷ []

abbrev target_request : NodePublishVolumeRequest
target_request = record {
  volume_id = codes "default/vol";
  target_path = codes "/target";
  volume_capability = mount_capability;
  readonly = false;
}

abbrev target_ref : VolumeRef
target_ref = record { cluster_member = []; pool_name = codes "default"; vol_name = codes "vol" }

target_is_valid : validate_volume_capabilities (mount_capability ∷ []) ≡ none
unfolding validate_volume_capabilities check_access_types
target_is_valid = refl

target_id : split_volume_id (codes "default/vol") ≡ ok target_ref
unfolding split_volume_id split_rest cut_member contains cut split
target_id = refl

target_mounted : is_mount_point node (codes "/target") 0 ≡ (ok true, 0)
unfolding is_mount_point text_eq
target_mounted = refl

node_publish_again_example : node_publish_volume node target_request 0 ≡ (done tt, 0)
node_publish_again_example =
    node_publish_again node target_request target_ref 0 0 target_is_valid target_id refl
      target_mounted

abbrev mount_volume : MountVolume
mount_volume = record { fs_type = []; mount_flags = codes "noatime" ∷ [] }

sources :
    source_of node (codes "vol") (codes "bind" ∷ []) (mount mount_volume) 0
    ≡ (done (codes "/mnt/lxd-csi/vol", codes "bind" ∷ codes "noatime" ∷ []), 0)
unfolding source_of path_exists join_path clean text_eq
sources = refl

source_of-device_of_example :
    (lookup (codes "path") (
        device_of target_ref
          (parse_content_type (some (record { access_type = mount mount_volume }) ∷ [])))
      ≡ some (codes "/mnt/lxd-csi/vol"))
    × (codes "bind" ∷ codes "noatime" ∷ [] ≡ codes "bind" ∷ codes "noatime" ∷ [])
    × (path_exists node (codes "/mnt/lxd-csi/vol") 0 ≡ (true, 0))
source_of-device_of_example =
    source_of-device_of node target_ref (codes "bind" ∷ []) mount_volume 0 0
      (codes "/mnt/lxd-csi/vol") (codes "bind" ∷ codes "noatime" ∷ []) sources
