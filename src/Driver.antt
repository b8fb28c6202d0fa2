-- ===== src/Driver.antt =====
-- The driver's state (internal/driver/driver.go), how it connects to devLXD
-- (internal/devlxd/devlxd.go), the capabilities that it announces, and `Run`.
pub mod Connect
pub mod Run
use lxd_csi_driver.Base.{ℕ, Bool, true, false, List, [], ◌∷◌, Option, none, some}
use lxd_csi_driver.Strings.{Text, codes}
use lxd_csi_driver.Lxd.{Env}

-- The types of the capabilities that the driver announces for its controller, by their names in the
-- CSI specification. Those of a node are their protobuf numbers: the driver announces none.
pub data ControllerCapability : Type 0 where
  create_delete_volume publish_unpublish_volume expand_volume clone_volume : ControllerCapability
  create_delete_snapshot : ControllerCapability

-- The messages that a capability is wrapped in; the one-of in it always holds a remote procedure.
pub record ControllerServiceCapability : Type 0 where
  pub rpc_type : ControllerCapability

pub record NodeServiceCapability : Type 0 where
  pub rpc_type : ℕ

pub record DriverOptions : Type 0 where
  pub name : Text
  pub endpoint : Text
  pub dev_lxd_endpoint : Text
  pub volume_name_prefix : Text
  pub node_id : Text
  pub is_controller : Bool

-- The mutex and the gRPC server are left out: a method that locks the mutex is one step.
pub record Driver (Client : Type 0) : Type 0 where
  pub name : Text
  pub version : Text
  pub endpoint : Text
  pub node_id : Text
  pub is_controller : Bool
  pub controller_capabilities : List ControllerServiceCapability
  pub node_capabilities : List NodeServiceCapability
  pub dev_lxd : Option Client
  pub dev_lxd_endpoint : Text
  pub dev_lxd_token_file : Text
  pub has_dev_lxd_token_changed : Bool
  pub location : Text
  pub is_clustered : Bool
  pub volume_name_prefix : Text

abbrev pub driver_version : Text
driver_version = codes "dev"

abbrev pub default_driver_name : Text
default_driver_name = codes "lxd.csi.canonical.com"

abbrev pub default_driver_endpoint : Text
default_driver_endpoint = codes "unix:///tmp/csi.sock"

abbrev pub default_volume_name_prefix : Text
default_volume_name_prefix = codes "csi"

abbrev pub default_dev_lxd_endpoint : Text
default_dev_lxd_endpoint = codes "unix:///dev/lxd/sock"

abbrev pub default_dev_lxd_token_file : Text
default_dev_lxd_token_file = codes "/etc/lxd-csi-driver/token"

abbrev pub driver_file_system_mount_path : Text
driver_file_system_mount_path = codes "/mnt/lxd-csi"

abbrev pub annotation_lxd_cluster_member : Text
annotation_lxd_cluster_member = codes "lxd.csi.canonical.com/cluster-member"

abbrev pub parameter_storage_pool : Text
parameter_storage_pool = codes "storagePool"

abbrev pub parameter_storage_driver : Text
parameter_storage_driver = codes "internal.storageDriver"

abbrev pub parameter_pvc_name : Text
parameter_pvc_name = codes "csi.storage.k8s.io/pvc/name"

abbrev pub parameter_pvc_namespace : Text
parameter_pvc_namespace = codes "csi.storage.k8s.io/pvc/namespace"

unfoldable pub new_driver : {Client : Type 0} → DriverOptions → Driver Client
new_driver opts = record {
  name = opts.name;
  version = driver_version;
  endpoint = opts.endpoint;
  node_id = opts.node_id;
  is_controller = opts.is_controller;
  controller_capabilities = [];
  node_capabilities = [];
  dev_lxd = none;
  dev_lxd_endpoint = opts.dev_lxd_endpoint;
  dev_lxd_token_file = default_dev_lxd_token_file;
  has_dev_lxd_token_changed = false;
  location = [];
  is_clustered = false;
  volume_name_prefix = opts.volume_name_prefix;
}

-- The driver with its environment: the lock table and everything else outside.
pub record World (E : Env) : Type 0 where
  pub driver : Driver E.Client
  pub locks : E.Locks
  pub state : E.State
