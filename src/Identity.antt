-- ===== src/Identity.antt =====
-- internal/driver/identity.go, and `ControllerGetCapabilities` (internal/driver/controller.go).
use lxd_csi_driver.Base.{Bool, true, List, [], ◌∷◌}
use lxd_csi_driver.Strings.{Text, is_empty}
use lxd_csi_driver.Csi.{unavailable}
use lxd_csi_driver.Driver.{Driver, ControllerServiceCapability}
use lxd_csi_driver.Rpc.{Outcome, ◌>>=◌, ◌>>◌, pure, reject_if}

pub data PluginCapability : Type 0 where
  controller_service volume_accessibility_constraints online_volume_expansion : PluginCapability

pub record PluginInfo : Type 0 where
  pub name : Text
  pub vendor_version : Text

module _ {Client : Type 0} where
  unfoldable pub get_plugin_info : Driver Client → Outcome PluginInfo × Driver Client
  get_plugin_info = do
    d ← (λ (d : Driver Client). pure d d)
    reject_if (is_empty d.name) unavailable "Driver is missing name"
    reject_if (is_empty d.version) unavailable "Driver is missing version"
    pure (record { name = d.name; vendor_version = d.version })

  unfoldable pub get_plugin_capabilities : Driver Client → List PluginCapability
  get_plugin_capabilities d =
      controller_service ∷ volume_accessibility_constraints ∷ online_volume_expansion ∷ []

  -- `Probe` always answers that the driver is ready.
  unfoldable pub probe : Driver Client → Bool
  probe d = true

  -- `ControllerGetCapabilities`
  unfoldable pub controller_get_capabilities : Driver Client → List ControllerServiceCapability
  controller_get_capabilities d = d.controller_capabilities
