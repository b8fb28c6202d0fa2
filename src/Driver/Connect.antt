-- ===== src/Driver/Connect.antt =====
-- `devlxd.Connect` (internal/devlxd/devlxd.go) and `DevLXDClient` (internal/driver/driver.go).
pub mod Session
pub mod Reads
pub mod Rotation
use lxd_csi_driver.Base.{
  Bool, true, false, not, ◌&&◌, Option, none, some, Result, ok, err, if◌then◌else◌,
}
use lxd_csi_driver.Strings.{Text, codes, text_eq}
use lxd_csi_driver.Lxd.{Env, Url, ServerInfo}
use lxd_csi_driver.LxdErrors.{GoError, external, plain, wrapped}
use lxd_csi_driver.Utils.{parse_unix_socket_url}
use lxd_csi_driver.Driver.{Driver, World}

abbrev pub dev_lxd_user_agent : Text
dev_lxd_user_agent = codes "lxd-csi-driver"

abbrev pub auth_trusted : Text
auth_trusted = codes "trusted"

module _ (E : Env) where
  abbrev pub GoErr : Type 0
  GoErr = GoError E.Err

  connected : Result E.Err E.Client × E.State → Result GoErr E.Client × E.State
  connected (ok client, s) = (ok client, s)
  connected (err e, s) = (err (external e), s)

  connect_socket : Text → Text → Result E.Err Bool × E.State → Result GoErr E.Client × E.State
  connect_socket socket token (err e, s) = (err (external e), s)
  connect_socket socket token (ok false, s) =
      (err (plain "Invalid devLXD socket path %q: Not a socket"), s)
  connect_socket socket token (ok true, s) =
      connected (E.connect_dev_lxd socket dev_lxd_user_agent token s)

  connect_url : Text → Result GoErr (Url × Text) → E.State → Result GoErr E.Client × E.State
  connect_url token (err e) s = (err e, s)
  connect_url token (ok (url, socket)) s = connect_socket socket token (E.is_socket socket s)

  -- `devlxd.Connect(endpoint, bearerToken)`
  unfoldable pub connect : Text → Text → E.State → Result GoErr E.Client × E.State
  unfolding connect_url connect_socket connected
  connect endpoint token s = connect_url token (parse_unix_socket_url E endpoint) s

  -- What the driver records of a server that trusts it.
  abbrev pub trusting : E.Client → ServerInfo → Driver E.Client → Driver E.Client
  trusting client info d = record d {
    dev_lxd = some client;
    location = info.location;
    is_clustered = info.server_clustered;
    has_dev_lxd_token_changed = false;
  }

  check_server :
      E.Client → World E → Result E.Err ServerInfo × E.State → Result GoErr E.Client × World E
  check_server client w (err e, s) =
      (err (wrapped "Failed to get LXD server info: %w" (external e)), record w { state = s })
  check_server client w (ok info, s) =
      if not (text_eq info.auth auth_trusted)
      then (
        err (plain "Failed to authenticate with DevLXD server: Client is not trusted"),
        record w { state = s },
      )
      else (ok client, record w { driver = trusting client info w.driver; state = s })

  use_client : World E → Result GoErr E.Client × E.State → Result GoErr E.Client × World E
  use_client w (err e, s) =
      (err (wrapped "Failed to connect to devLXD: %w" e), record w { state = s })
  use_client w (ok client, s) = check_server client (record w { state = s }) (E.get_state client s)

  -- With a client at hand only its token is replaced.
  abbrev client_for : Driver E.Client → Text → E.State → Result GoErr E.Client × E.State
  client_for d token s = elim d.dev_lxd [
    | some client ↦ (ok (E.use_bearer_token client token), s)
    | none ↦ connect d.dev_lxd_endpoint token s
  ]

  unfoldable pub use_token : World E → Result E.Err Text × E.State → Result GoErr E.Client × World E
  unfolding use_client check_server
  use_token w (err e, s) = (
    err (wrapped "Failed reading DevLXD bearer token from file %q: %w" (external e)),
    record w { state = s },
  )
  use_token w (ok token, s) = use_client w (client_for w.driver token s)

  -- The connected client, if there is one and its token has not changed.
  abbrev pub cached : Driver E.Client → Option E.Client
  cached d = if d.has_dev_lxd_token_changed then none else d.dev_lxd

  -- `d.DevLXDClient()`
  unfoldable pub dev_lxd_client : World E → Result GoErr E.Client × World E
  unfolding use_token
  dev_lxd_client w = elim (cached w.driver) [
    | some client ↦ (ok client, w)
    | none ↦ use_token w (E.read_file w.driver.dev_lxd_token_file w.state)
  ]

  -- `handleTokenFileChange` of `Run`, which the watcher of the token file calls.
  unfoldable pub handle_token_file_change : World E → World E
  handle_token_file_change w = record w {
    driver = record (w.driver) { has_dev_lxd_token_changed = true };
  }
