-- ===== src/Driver/Connect/Session.antt =====
-- What a call of `DevLXDClient` (internal/driver/driver.go) leaves in the driver.
use lxd_csi_driver.Base.{false, none, some, Result, ok, err, ◌≡◌, refl, arith}
use lxd_csi_driver.Strings.{Text}
use lxd_csi_driver.Strings.Equality.{text_eq_iff}
use lxd_csi_driver.Lxd.{Env, ServerInfo}
use lxd_csi_driver.Driver.{World}
use lxd_csi_driver.Driver.Connect.{
  GoErr, cached, trusting, auth_trusted, dev_lxd_client, handle_token_file_change, check_server,
  use_client, use_token,
}

module _ (E : Env) where
  -- A call that failed leaves the driver and the locks as they were.
  pub dev_lxd_client_failed :
      (w : World E) {e : GoErr E} {w' : World E}
      → dev_lxd_client E w ≡ (err e, w')
      → (w'.driver ≡ w.driver) × (w'.locks ≡ w.locks)
  unfolding dev_lxd_client
  dev_lxd_client_failed w h = ground arith

  -- A client that is returned is the one that the driver keeps, and no token change is pending.
  pub dev_lxd_client_kept :
      (w : World E) {client : E.Client} {w' : World E}
      → dev_lxd_client E w ≡ (ok client, w')
      → (w'.driver.dev_lxd ≡ some client)
        × (w'.driver.has_dev_lxd_token_changed ≡ false)
        × (w'.locks ≡ w.locks)
  unfolding dev_lxd_client
  dev_lxd_client_kept w h = ground arith

  -- Where a call has answered with a client, a second call answers with the same client and changes
  -- nothing.
  pub dev_lxd_client_again :
      (w : World E) {client : E.Client} {w' : World E}
      → dev_lxd_client E w ≡ (ok client, w')
      → dev_lxd_client E w' ≡ (ok client, w')
  unfolding dev_lxd_client
  dev_lxd_client_again w {client} {w'} h =
      let (kept, fresh, _) = dev_lxd_client_kept w h in ground arith

  -- The server was asked, and trusts the client.
  abbrev pub IsTrusted : World E → E.Client → World E → Type 0
  IsTrusted w client w' =
      (info : ServerInfo) × ((s : E.State) × (E.get_state client s ≡ (ok info, w'.state)))
      × (info.auth ≡ auth_trusted)
      × (w'.driver ≡ trusting E client info w.driver)

  check_server_ok :
      (client : E.Client) (w : World E) (s : E.State) {client' : E.Client} {w' : World E}
      (r : Result E.Err ServerInfo × E.State)
      → E.get_state client s ≡ r
      → check_server E client w r ≡ (ok client', w')
      → IsTrusted w client' w'
  unfolding check_server
  check_server_ok client w s (err e, s') q h = cc
  check_server_ok client w s {client'} {w'} (ok info, s') q h =
      (info, (s, ground arith), ground (arith, text_eq_iff info.auth auth_trusted), ground arith)

  use_client_ok :
      (w : World E) {client' : E.Client} {w' : World E} (r : Result (GoErr E) E.Client × E.State)
      → use_client E w r ≡ (ok client', w')
      → IsTrusted w client' w'
  unfolding use_client
  use_client_ok w (err e, s) h = cc
  use_client_ok w (ok client, s) h =
      check_server_ok client (record w { state = s }) s (E.get_state client s) refl h

  use_token_ok :
      (w : World E) {client' : E.Client} {w' : World E} (r : Result E.Err Text × E.State)
      → use_token E w r ≡ (ok client', w')
      → IsTrusted w client' w'
  unfolding use_token
  use_token_ok w (err e, s) h = cc
  use_token_ok w (ok token, s) h = use_client_ok w _ h

  -- Where the driver has no client yet or its token has changed, a client is handed out only after
  -- the server said, to that client, that it trusts it; the driver then records what the server said.
  pub dev_lxd_client-IsTrusted :
      (w : World E) {client : E.Client} {w' : World E}
      → cached E w.driver ≡ none
      → dev_lxd_client E w ≡ (ok client, w')
      → IsTrusted w client w'
  unfolding dev_lxd_client
  dev_lxd_client-IsTrusted w fresh h = use_token_ok w _ (rw (fresh, dev_lxd_client) at h)

  -- After a change of the token file the next call hands out a client only if the server said, to that
  -- client, that it trusts it, whether or not a client was connected before.
  pub token_change-IsTrusted :
      (w : World E) {client : E.Client} {w' : World E}
      → dev_lxd_client E (handle_token_file_change E w) ≡ (ok client, w')
      → IsTrusted (handle_token_file_change E w) client w'
  unfolding handle_token_file_change
  token_change-IsTrusted w h = dev_lxd_client-IsTrusted (handle_token_file_change E w) refl h

  -- The configured prefix of volume names never changes.
  pub dev_lxd_client-prefix :
      (w : World E) {client : E.Client} {w' : World E}
      → dev_lxd_client E w ≡ (ok client, w')
      → w'.driver.volume_name_prefix ≡ w.driver.volume_name_prefix
  unfolding dev_lxd_client
  dev_lxd_client-prefix w h = ground arith

  -- Whether the process is a controller never changes.
  pub dev_lxd_client-is_controller :
      (w : World E) {client : E.Client} {w' : World E}
      → dev_lxd_client E w ≡ (ok client, w')
      → w'.driver.is_controller ≡ w.driver.is_controller
  unfolding dev_lxd_client
  dev_lxd_client-is_controller w h = ground arith

  -- A call that read the token keeps its client, and knows of no change.
  pub use_token-kept :
      (w : World E) (r : Result E.Err Text × E.State) {client : E.Client} {w' : World E}
      → use_token E w r ≡ (ok client, w')
      → (w'.driver.dev_lxd ≡ some client) × (w'.driver.has_dev_lxd_token_changed ≡ false)
  unfolding use_token
  use_token-kept w (ok token, s) h = ground arith
  use_token-kept w (err e, s) h = ground arith
