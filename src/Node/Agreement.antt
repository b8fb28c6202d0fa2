-- ===== src/Node/Agreement.antt =====
-- The path of a file system for the controller (`ControllerPublishVolume`) and for the node
-- (`NodePublishVolume`).
use lxd_csi_driver.Base.{Bool, true, false, List, [], ◌∷◌, ◌++◌, some, ◌≡◌, sym, ap}
use lxd_csi_driver.Strings.{Text, codes, text_eq}
use lxd_csi_driver.Dict.{lookup, insert}
use lxd_csi_driver.Csi.{MountVolume, mount}
use lxd_csi_driver.Capabilities.{parse_content_type}
use lxd_csi_driver.VolumeId.{VolumeRef}
use lxd_csi_driver.Host.{Host}
use lxd_csi_driver.Rpc.{done}
use lxd_csi_driver.Fs.{path_exists}
use lxd_csi_driver.Controller.Publish.{device_of}
use lxd_csi_driver.Node.{source_of, require}

module _ (H : Host) where
  require-done :
      {A : Type 0} (a : A) (r : Bool × H.State) {b : A} {s' : H.State}
      → require H a r ≡ (done b, s')
      → (a ≡ b) × (r ≡ (true, s'))
  require-done a (true, s) h = (cc, cc)
  require-done a (false, s) h = cc

  -- The node mounts a file system from the path at which the device that the controller attached for
  -- it is mounted, with the options of the request behind its own, and only if that path exists.
  pub source_of-device_of :
      (r : VolumeRef) (options : List Text) (m : MountVolume) (s s' : H.State) (path : Text)
      (resolved : List Text)
      → source_of H r.vol_name options (mount m) s ≡ (done (path, resolved), s')
      → (lookup
            (codes "path")
            (device_of r (parse_content_type (some (record { access_type = mount m }) ∷ [])))
          ≡ some path)
        × (resolved ≡ options ++ m.mount_flags)
        × (path_exists H path s ≡ (true, s'))
  unfolding source_of device_of lookup insert text_eq parse_content_type
  source_of-device_of r options m s s' path resolved h =
      let (e, there) = require-done _ _ h in
      let path_eq = ap (λ (x : Text × List Text). x.0) e in
      (ap some path_eq, sym (ap (λ (x : Text × List Text). x.1) e), rw path_eq at there)
