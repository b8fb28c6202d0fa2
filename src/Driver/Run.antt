-- ===== src/Driver/Run.antt =====
-- `Validate`, `Run` and the setting of capabilities (internal/driver/driver.go), the constructors of
-- capabilities (internal/driver/capabilities.go), and the part of `WatchFile` (internal/fs/fs.go) before
-- its loop.
pub mod Served
pub mod Names
use mathlib.Core.List.{map}
use lxd_csi_driver.Base.{
  ℕ, Bool, true, false, List, [], ◌∷◌, String, Option, none, some, Result, ok, err,
}
use lxd_csi_driver.Strings.{Text}
use lxd_csi_driver.FilePath.{clean}
use lxd_csi_driver.Lxd.{Env, Url}
use lxd_csi_driver.LxdErrors.{GoError, external, plain, wrapped}
use lxd_csi_driver.Utils.{parse_unix_socket_url}
use lxd_csi_driver.Fs.{dir_of}
use lxd_csi_driver.Driver.{
  Driver, World, ControllerCapability, create_delete_volume, publish_unpublish_volume,
  expand_volume, clone_volume, create_delete_snapshot, ControllerServiceCapability,
  NodeServiceCapability,
}
use lxd_csi_driver.Driver.Connect.{GoErr, dev_lxd_client}

unfoldable pub new_controller_service_capability :
    ControllerCapability → ControllerServiceCapability
new_controller_service_capability c = record { rpc_type = c }

unfoldable pub new_node_service_capability : ℕ → NodeServiceCapability
new_node_service_capability c = record { rpc_type = c }

module _ {Client : Type 0} where
  unfoldable pub set_controller_service_capabilities :
      List ControllerCapability → Driver Client → Driver Client
  unfolding new_controller_service_capability
  set_controller_service_capabilities caps d = record d {
    controller_capabilities = map new_controller_service_capability caps;
  }

  unfoldable pub set_node_service_capabilities : List ℕ → Driver Client → Driver Client
  unfolding new_node_service_capability
  set_node_service_capabilities caps d = record d {
    node_capabilities = map new_node_service_capability caps;
  }

abbrev pub announced : List ControllerCapability
announced =
    create_delete_volume ∷ publish_unpublish_volume ∷ expand_volume ∷ clone_volume
    ∷ create_delete_snapshot ∷ []

-- The services that a process registers with its gRPC server.
pub data Service : Type 0 where
  identity_service controller_service node_service : Service

-- What `Run` calls and does not implement: `IsHostname` of github.com/canonical/lxd/shared/validate,
-- the watcher of `fsnotify`, the socket, and the gRPC server. A nil error is `none`. `serve` runs
-- until the server stops; its calls may change the driver and all else.
pub record Server (E : Env) : Type 0 where
  pub is_hostname : Text → Option E.Err
  pub new_watcher : E.State → Option E.Err × E.State
  pub add_watch : Text → E.State → Option E.Err × E.State
  pub remove : Text → E.State → E.State
  pub listen : Text → E.State → Option E.Err × E.State
  pub serve : List Service → World E → Option E.Err × World E

-- A process ends before it serves, or it served until the server stopped.
pub data Ran (E : Env) : Type 0 where
  not_started : GoErr E → Ran E
  served : List Service → World E → Option E.Err → Ran E

module _ (E : Env) (S : Server E) where
  prefix_error : Option E.Err → Option (GoErr E)
  prefix_error none = none
  prefix_error (some e) = some (wrapped "Volume name prefix %q is not valid: %w" (external e))

  -- `d.Validate()`
  unfoldable pub validate : Driver E.Client → Option (GoErr E)
  unfolding prefix_error
  validate d = prefix_error (S.is_hostname d.volume_name_prefix)

  added : Option E.Err × E.State → Option (GoErr E) × E.State
  added (none, s) = (none, s)
  added (some e, s) = (some (plain "Failed to watch path %q: %v"), s)

  watcher_made : Text → Option E.Err × E.State → Option (GoErr E) × E.State
  watcher_made path (none, s) = added (S.add_watch (dir_of path) s)
  watcher_made path (some e, s) = (some (plain "Failed to setup file watcher for path %q: %v"), s)

  -- `WatchFile` watches the directory of the cleaned path.
  unfoldable pub set_up_watch : Text → E.State → Option (GoErr E) × E.State
  unfolding watcher_made added
  set_up_watch path s = watcher_made (clean path) (S.new_watcher s)

  -- The services of a controller and of a node, and the capabilities that are set before.
  register_as : Bool → Driver E.Client → Driver E.Client × List Service
  register_as true d =
      (set_controller_service_capabilities announced d, identity_service ∷ controller_service ∷ [])
  register_as false d = (set_node_service_capabilities [] d, identity_service ∷ node_service ∷ [])

  unfoldable pub register : Driver E.Client → Driver E.Client × List Service
  unfolding register_as
  register d = register_as d.is_controller d

  serve_registered : World E → Driver E.Client × List Service → Ran E × World E
  serve_registered w (d, services) =
      let start : World E = record w { driver = d } in
      let (e, w') = S.serve services start in (served services start e, w')

  listened : World E → Option E.Err × E.State → Ran E × World E
  listened w (none, s) = serve_registered (record w { state = s }) (register w.driver)
  listened w (some e, s) =
      (not_started (wrapped "Failed to listen on %q: %w" (external e)), record w { state = s })

  listen_on : World E → Result (GoErr E) (Url × Text) → Ran E × World E
  listen_on w (ok (url, socket)) = listened w (S.listen socket (S.remove socket w.state))
  listen_on w (err e) = (not_started e, w)

  watched : World E → Option (GoErr E) × E.State → Ran E × World E
  watched w (none, s) =
      listen_on (record w { state = s }) (parse_unix_socket_url E w.driver.endpoint)
  watched w (some e, s) = (
    not_started (wrapped "Failed to watch DevLXD token file %q for changes: %w" e),
    record w { state = s },
  )

  connected_run : Result (GoErr E) E.Client × World E → Ran E × World E
  connected_run (ok client, w) = watched w (set_up_watch w.driver.dev_lxd_token_file w.state)
  connected_run (err e, w) = (not_started e, w)

  -- `d.Run()`
  unfoldable pub run : World E → Ran E × World E
  unfolding connected_run watched listen_on listened serve_registered register
  run w = elim (validate w.driver) [
    | some e ↦ (not_started e, w)
    | none ↦ connected_run (dev_lxd_client E w)
  ]

  -- The error that `Run` returns: none after a server that stopped without one.
  unfoldable pub run_error : Ran E → Option (GoErr E)
  run_error (not_started e) = some e
  run_error (served services start none) = none
  run_error (served services start (some e)) =
      some (wrapped "Failed to serve gRPC server: %w" (external e))
