-- ===== src/Tests/Fake.antt =====
-- A server with one pool, one volume in it and one snapshot of that volume, and a driver that is
-- connected to it.
use lxd_csi_driver.Base.{
  ℕ, suc, Bool, true, false, ◌&&◌, ◌||◌, not, [], ◌∷◌, Option, none, some, Result, ok, err, ◌≡◌,
  refl, ◌==◌, if◌then◌else◌, arith,
}
use lxd_csi_driver.Strings.{Text, codes, text_eq}
use lxd_csi_driver.Lxd.{Env, IsLocking, ServerInfo, StorageVolume, VolumeSnapshot, Url}
use lxd_csi_driver.Driver.{Driver, World, new_driver}

-- A table of locks says of each name whether it is held.
abbrev pub LockTable : Type 0
LockTable = Text → Bool

abbrev pub take : Text → LockTable → Option LockTable
take k t = if t k then none else some (λ j. text_eq k j || t j)

abbrev pub give_back : Text → LockTable → LockTable
give_back k t j = not (text_eq k j) && t j

abbrev pub server : ServerInfo
server = record {
  auth = codes "trusted";
  location = codes "m1";
  server_clustered = true;
  supported_storage_drivers =
      record { name = codes "ceph"; remote = true }
      ∷ record { name = codes "zfs"; remote = false }
      ∷ [];
}

abbrev pub stored_volume : StorageVolume
stored_volume = record {
  name = codes "vol";
  description = [];
  content_type = codes "filesystem";
  config = (codes "size", codes "1024") ∷ [];
}

abbrev pub stored_snapshot : VolumeSnapshot
stored_snapshot = record {
  name = codes "snap";
  content_type = codes "filesystem";
  config = (codes "size", codes "1024") ∷ [];
}

abbrev find_volume : Text → Result ℕ (StorageVolume × Text)
find_volume name = if text_eq name (codes "vol") then ok (stored_volume, codes "etag") else err 404

abbrev find_snapshot : Text → Result ℕ VolumeSnapshot
find_snapshot name = if text_eq name (codes "snap") then ok stored_snapshot else err 404

-- An endpoint is "unix://" and a path.
abbrev pub url_of : Text → Result ℕ Url
url_of endpoint = ok (record { scheme = codes "unix"; host = []; path = endpoint })

-- The state counts the calls that change something, an error is its HTTP status, and a client is the
-- cluster member that it is for.
abbrev pub fake : Env
fake = record {
  State = ℕ;
  Client = Text;
  Operation = Unit;
  Err = ℕ;
  status_error_check = λ e status. e == status;
  is_deadline_exceeded = λ e. e == 1;
  is_canceled = λ e. e == 2;
  read_file = λ name s. (ok (codes "token"), s);
  parse_url = url_of;
  is_socket = λ path s. (ok true, s);
  connect_dev_lxd = λ socket agent token s. (ok [], s);
  use_bearer_token = λ client token. client;
  use_target = λ client member. member;
  get_state = λ client s. (ok server, s);
  get_storage_pool = λ client pool s. (ok (record { driver = codes "zfs" }), s);
  get_storage_pool_volume = λ client pool kind name s. (find_volume name, s);
  get_storage_pool_volume_snapshot =
      λ client pool kind name snapshot s. (find_snapshot snapshot, s);
  create_storage_pool_volume = λ client pool post s. (ok tt, suc s);
  update_storage_pool_volume = λ client pool kind name put etag s. (ok tt, suc s);
  delete_storage_pool_volume = λ client pool kind name s. (ok tt, suc s);
  create_storage_pool_volume_snapshot = λ client pool kind name post s. (ok tt, suc s);
  delete_storage_pool_volume_snapshot = λ client pool kind name snapshot s. (ok tt, suc s);
  get_instance = λ client name s. (ok (record { devices = [] }, codes "etag"), s);
  update_instance = λ client name put etag s. (ok tt, suc s);
  wait_context = λ op s. (ok tt, s);
  Locks = LockTable;
  try_lock = take;
  unlock = give_back;
  held = λ t k. t k;
}

held_after_take : (k j : Text) (t t' : LockTable) → take k t ≡ some t' → t' j ≡ (text_eq k j || t j)
held_after_take k j t t' h = ground arith

pub fake-IsLocking : IsLocking fake
fake-IsLocking = record {
  try_lock-none = λ k t. ground arith;
  held-try_lock = held_after_take;
  held-unlock = λ k j t. refl;
}

abbrev pub new_controller : Driver Text
new_controller = new_driver (record {
  name = codes "lxd.csi.canonical.com";
  endpoint = codes "unix:///tmp/csi.sock";
  dev_lxd_endpoint = codes "/dev/lxd/sock";
  volume_name_prefix = codes "csi";
  node_id = codes "n1";
  is_controller = true;
})

-- A process that has just begun, and one that is connected.
abbrev pub begun : World fake
begun = record { driver = new_controller; locks = λ k. false; state = 0 }

abbrev pub connected_driver : Driver Text
connected_driver = record (new_controller) {
  dev_lxd = some [];
  is_clustered = true;
  location = codes "m1";
}

abbrev pub connected : World fake
connected = record { driver = connected_driver; locks = λ k. false; state = 0 }
