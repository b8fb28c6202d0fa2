-- ===== src/Lxd.antt =====
-- What the driver calls and does not implement: the devLXD client (github.com/canonical/lxd/client),
-- the errors of its API, the lock table of github.com/canonical/lxd/lxd/locking, files and sockets.
-- An `Env` is any implementation of these over a state of its own. Each call may change that state
-- in any way, so the state may hold what other clients of LXD do meanwhile.
use lxd_csi_driver.Base.{ℕ, Bool, true, ◌&&◌, ◌||◌, not, List, Option, none, some, Result, ◌≡◌, ◌↔◌}
use lxd_csi_driver.Strings.{Text, text_eq}
use lxd_csi_driver.Dict.{Dict}

-- The fields of the API's types that the driver reads or writes (github.com/canonical/lxd/shared/api).
pub record StorageDriverInfo : Type 0 where
  pub name : Text
  pub remote : Bool

pub record ServerInfo : Type 0 where
  pub auth : Text
  pub location : Text
  pub server_clustered : Bool
  pub supported_storage_drivers : List StorageDriverInfo

pub record StoragePool : Type 0 where
  pub driver : Text

pub record StorageVolume : Type 0 where
  pub name : Text
  pub description : Text
  pub content_type : Text
  pub config : Dict Text

pub record VolumeSnapshot : Type 0 where
  pub name : Text
  pub content_type : Text
  pub config : Dict Text

pub record VolumeSource : Type 0 where
  pub source_type : Text
  pub pool : Text
  pub name : Text
  pub location : Text

pub record VolumesPost : Type 0 where
  pub name : Text
  pub volume_type : Text
  pub content_type : Text
  pub source : Option VolumeSource
  pub description : Text
  pub config : Dict Text

pub record VolumePut : Type 0 where
  pub description : Text
  pub config : Dict Text

pub record SnapshotsPost : Type 0 where
  pub name : Text
  pub description : Text

pub record Instance : Type 0 where
  pub devices : Dict (Dict Text)

-- A device that is given as nil is removed.
pub record InstancePut : Type 0 where
  pub devices : Dict (Option (Dict Text))

-- A URL as `net/url` parses it.
pub record Url : Type 0 where
  pub scheme : Text
  pub host : Text
  pub path : Text

-- `op : State → Result Err A × State` is a call that answers or fails, and its effect.
pub record Env : Type 1 where
  pub State : Type 0
  pub Client : Type 0
  pub Operation : Type 0
  pub Err : Type 0
  pub status_error_check : Err → ℕ → Bool
  pub is_deadline_exceeded : Err → Bool
  pub is_canceled : Err → Bool
  pub read_file : Text → State → Result Err Text × State
  pub parse_url : Text → Result Err Url
  pub is_socket : Text → State → Result Err Bool × State
  pub connect_dev_lxd : Text → Text → Text → State → Result Err Client × State
  pub use_bearer_token : Client → Text → Client
  pub use_target : Client → Text → Client
  pub get_state : Client → State → Result Err ServerInfo × State
  pub get_storage_pool : Client → Text → State → Result Err StoragePool × State
  pub get_storage_pool_volume :
      Client → Text → Text → Text → State → Result Err (StorageVolume × Text) × State
  pub get_storage_pool_volume_snapshot :
      Client → Text → Text → Text → Text → State → Result Err VolumeSnapshot × State
  pub create_storage_pool_volume :
      Client → Text → VolumesPost → State → Result Err Operation × State
  pub update_storage_pool_volume :
      Client → Text → Text → Text → VolumePut → Text → State → Result Err Operation × State
  pub delete_storage_pool_volume :
      Client → Text → Text → Text → State → Result Err Operation × State
  pub create_storage_pool_volume_snapshot :
      Client → Text → Text → Text → SnapshotsPost → State → Result Err Operation × State
  pub delete_storage_pool_volume_snapshot :
      Client → Text → Text → Text → Text → State → Result Err Operation × State
  pub get_instance : Client → Text → State → Result Err (Instance × Text) × State
  pub update_instance : Client → Text → InstancePut → Text → State → Result Err (Unit {0}) × State
  pub wait_context : Operation → State → Result Err (Unit {0}) × State
  -- The process-wide table of named locks.
  pub Locks : Type 0
  pub try_lock : Text → Locks → Option Locks
  pub unlock : Text → Locks → Locks
  pub held : Locks → Text → Bool

-- What `locking.TryLock` documents: it returns nil exactly if the lock is held, and otherwise takes
-- it; the function that it returns gives the lock back. No other lock changes.
pub record IsLocking (E : Env) : Type 0 where
  pub try_lock-none : (k : Text) (t : E.Locks) → (E.try_lock k t ≡ none) ↔ (E.held t k ≡ true)
  pub held-try_lock :
      (k j : Text) (t t' : E.Locks)
      → E.try_lock k t ≡ some t'
      → E.held t' j ≡ (text_eq k j || E.held t j)
  pub held-unlock :
      (k j : Text) (t : E.Locks) → E.held (E.unlock k t) j ≡ (not (text_eq k j) && E.held t j)
