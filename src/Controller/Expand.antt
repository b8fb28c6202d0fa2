-- ===== src/Controller/Expand.antt =====
-- `ControllerExpandVolume` (internal/driver/controller.go).
pub mod Laws
use lxd_csi_driver.Base.{
  Bool, true, false, String, [], ◌∷◌, Option, none, some, Result, ok, err, if◌then◌else◌, ℤ, ltb_ℤ,
  eqb_ℤ,
}
use lxd_csi_driver.Strings.{Text, is_empty}
use lxd_csi_driver.Strconv.{parse_int, format_int}
use lxd_csi_driver.Dict.{Dict, get, insert}
use lxd_csi_driver.Csi.{
  invalid_argument, internal, CapacityRange, ExpandVolumeRequest, ExpandVolumeResponse,
}
use lxd_csi_driver.Capabilities.{CapabilityError, validate_volume_capabilities}
use lxd_csi_driver.Lxd.{Env, StorageVolume, VolumePut}
use lxd_csi_driver.VolumeId.{VolumeRef, split_volume_id}
use lxd_csi_driver.Rpc.{
  Rpc, ◌>>=◌, ◌>>◌, pure, fail, panic, reject_if, or_status, or_fail, call, get_client, get_driver,
  with_lock, attempt_operation,
}
use lxd_csi_driver.Controller.{custom, size_key, targeted}

abbrev pub is_some : {A : Type 0} → Option A → Bool
is_some none = false
is_some (some a) = true

abbrev pub expanded : ℤ → ExpandVolumeResponse
expanded size = record { capacity_bytes = size; node_expansion_required = false }

-- The whole configuration is sent, with the size replaced.
unfoldable pub resized : StorageVolume → ℤ → VolumePut
resized vol size = record {
  description = vol.description;
  config = insert size_key (format_int size) vol.config;
}

module _ (E : Env) where
  -- A size that cannot be parsed is an internal error.
  unfoldable pub size_or_fail : Option ℤ → Rpc E ℤ
  size_or_fail none =
      fail internal
        "ExpandVolume: Failed to parse current volume size %q for volume %q in storage pool %q: %v"
  size_or_fail (some size) = pure size

  -- `req.CapacityRange.RequiredBytes`: a request without a capacity range panics here.
  unfoldable pub required_bytes : Option CapacityRange → Rpc E ℤ
  required_bytes none = panic
  required_bytes (some range) = pure range.required_bytes

  unfoldable pub update_size :
      E.Client → VolumeRef → StorageVolume → Text → ℤ → Rpc E ExpandVolumeResponse
  update_size client r vol etag new_size = do
    updated ← attempt_operation E (
        E.update_storage_pool_volume client r.pool_name custom r.vol_name (resized vol new_size)
          etag)
    or_fail E "ExpandVolume: Failed to expand volume: %v" updated
    pure (expanded new_size)

  unfoldable pub resize :
      E.Client → VolumeRef → StorageVolume × Text → ℤ → ℤ → Rpc E ExpandVolumeResponse
  resize client r (vol, etag) old_size new_size =
      if ltb_ℤ new_size old_size
      then fail invalid_argument "ExpandVolume: Requested size %q is less than the current size %q"
      else if eqb_ℤ new_size old_size
      then pure (expanded new_size)
      else update_size client r vol etag new_size

  unfoldable pub controller_expand_volume : ExpandVolumeRequest → Rpc E ExpandVolumeResponse
  controller_expand_volume req = do
    client ← get_client E "ExpandVolume: %v"
    r ← or_status invalid_argument "ExpandVolume: %v" (split_volume_id req.volume_id)
    d ← get_driver E
    let client' = targeted E d client r.cluster_member
    reject_if (is_some (validate_volume_capabilities (req.volume_capability ∷ []))) invalid_argument
        "ExpandVolume: %v"
    with_lock E req.volume_id "ExpandVolume: Failed to obtain lock %q: %v" (do
      vol ←
          call E (E.get_storage_pool_volume client' r.pool_name custom r.vol_name)
            "ExpandVolume: %v"
      let old_size = get size_key (vol.0).config
      reject_if (is_empty old_size) internal
          "ExpandVolume: Volume %q in storage pool %q does not have size configured"
      old_bytes ← size_or_fail (parse_int old_size)
      new_bytes ← required_bytes req.capacity_range
      resize client' r vol old_bytes new_bytes)
