-- ===== src/Csi.antt =====
-- The messages of the CSI specification that the driver reads and writes, with the fields that it
-- uses. A pointer that may be nil is an `Option`; a nil map is an empty one.
use lxd_csi_driver.Base.{Bool, List, Option, ℤ}
use lxd_csi_driver.Strings.{Text}
use lxd_csi_driver.Dict.{Dict}

-- The codes of `google.golang.org/grpc/codes` that the driver returns.
pub data Code : Type 0 where
  ok_code canceled invalid_argument deadline_exceeded not_found already_exists permission_denied :
      Code
  failed_precondition aborted internal unavailable unauthenticated : Code

pub record MountVolume : Type 0 where
  pub fs_type : Text
  pub mount_flags : List Text

-- The one-of `access_type`, which may be left out.
pub data AccessType : Type 0 where
  unset block : AccessType
  mount : MountVolume → AccessType

pub record VolumeCapability : Type 0 where
  pub access_type : AccessType

pub record CapacityRange : Type 0 where
  pub required_bytes : ℤ
  pub limit_bytes : ℤ

pub record Topology : Type 0 where
  pub segments : Dict Text

pub record TopologyRequirement : Type 0 where
  pub requisite : List Topology
  pub preferred : List Topology

-- The one-of `type` of a content source, which holds the ID of its source.
pub data ContentSource : Type 0 where
  snapshot : Text → ContentSource
  volume : Text → ContentSource
  unknown_source : ContentSource

pub record CreateVolumeRequest : Type 0 where
  pub name : Text
  pub capacity_range : Option CapacityRange
  pub volume_capabilities : List (Option VolumeCapability)
  pub parameters : Dict Text
  pub volume_content_source : Option ContentSource
  pub accessibility_requirements : Option TopologyRequirement

pub record CreateVolumeResponse : Type 0 where
  pub volume_id : Text
  pub capacity_bytes : ℤ
  pub volume_context : Dict Text
  pub content_source : Option ContentSource
  pub accessible_topology : List Topology

pub record CreateSnapshotRequest : Type 0 where
  pub name : Text
  pub source_volume_id : Text

-- `creation_time` is the time of the answer, which is not modelled.
pub record CreateSnapshotResponse : Type 0 where
  pub snapshot_id : Text
  pub source_volume_id : Text
  pub ready_to_use : Bool

pub record PublishVolumeRequest : Type 0 where
  pub volume_id : Text
  pub node_id : Text
  pub volume_capability : Option VolumeCapability

pub record UnpublishVolumeRequest : Type 0 where
  pub volume_id : Text
  pub node_id : Text

pub record ExpandVolumeRequest : Type 0 where
  pub volume_id : Text
  pub capacity_range : Option CapacityRange
  pub volume_capability : Option VolumeCapability

pub record ExpandVolumeResponse : Type 0 where
  pub capacity_bytes : ℤ
  pub node_expansion_required : Bool
