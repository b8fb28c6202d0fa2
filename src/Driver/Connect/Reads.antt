-- ===== src/Driver/Connect/Reads.antt =====
-- What a call of `DevLXDClient` (internal/driver/driver.go) leaves of the environment: any view of it
-- that reading the token file, connecting, and asking the server for its state leave alone.
use lxd_csi_driver.Base.{
  Bool, true, false, Result, ok, err, ◌≡◌, inl, inr, refl, ◌∙◌, Bool-cases, Option-cases,
}
use lxd_csi_driver.Strings.{Text, text_eq}
use lxd_csi_driver.Lxd.{Env, ServerInfo, Url}
use lxd_csi_driver.Driver.{Driver, World}
use lxd_csi_driver.Driver.Connect.{
  GoErr, auth_trusted, connected, connect_socket, connect_url, connect, check_server, client_for,
  use_client, use_token, cached, dev_lxd_client,
}

-- The calls that a connection makes leave a view of the environment alone.
pub record ConnectKeeps {X : Type 0} (E : Env) (g : E.State → X) : Type 0 where
  pub read_file : (path : Text) (s : E.State) → g (E.read_file path s).1 ≡ g s
  pub is_socket : (path : Text) (s : E.State) → g (E.is_socket path s).1 ≡ g s
  pub connect_dev_lxd :
      (socket agent token : Text) (s : E.State) → g (E.connect_dev_lxd socket agent token s).1 ≡ g s
  pub get_state : (client : E.Client) (s : E.State) → g (E.get_state client s).1 ≡ g s

module _ {X : Type 0} {E : Env} {g : E.State → X} (k : ConnectKeeps E g) where
  connected-keeps : (r : Result E.Err E.Client × E.State) → g (connected E r).1 ≡ g r.1
  unfolding connected
  connected-keeps (ok client, s) = refl
  connected-keeps (err e, s) = refl

  connect_socket-keeps :
      (socket token : Text) (r : Result E.Err Bool × E.State)
      → g (connect_socket E socket token r).1 ≡ g r.1
  unfolding connect_socket
  connect_socket-keeps socket token (err e, s) = refl
  connect_socket-keeps socket token (ok false, s) = refl
  connect_socket-keeps socket token (ok true, s) =
      connected-keeps (E.connect_dev_lxd socket _ token s) ∙ k.connect_dev_lxd socket _ token s

  connect_url-keeps :
      (token : Text) (r : Result (GoErr E) (Url × Text)) (s : E.State)
      → g (connect_url E token r s).1 ≡ g s
  unfolding connect_url
  connect_url-keeps token (err e) s = refl
  connect_url-keeps token (ok (url, socket)) s =
      connect_socket-keeps socket token (E.is_socket socket s) ∙ k.is_socket socket s

  client_for-keeps :
      (d : Driver E.Client) (token : Text) (s : E.State) → g (client_for E d token s).1 ≡ g s
  unfolding connect
  client_for-keeps d token s = elim (Option-cases d.dev_lxd) [
    | inl unconnected ↦ rw unconnected (connect_url-keeps token _ s)
    | inr (client, at_hand) ↦ rw at_hand refl
  ]

  check_server-keeps :
      (client : E.Client) (w : World E) (r : Result E.Err ServerInfo × E.State)
      → g (check_server E client w r).1.state ≡ g r.1
  unfolding check_server
  check_server-keeps client w (err e, s) = refl
  check_server-keeps client w (ok info, s) = elim (Bool-cases (text_eq info.auth auth_trusted)) [
    | inl trusts ↦ rw trusts refl
    | inr other ↦ rw other refl
  ]

  use_client-keeps :
      (w : World E) (r : Result (GoErr E) E.Client × E.State) → g (use_client E w r).1.state ≡ g r.1
  unfolding use_client
  use_client-keeps w (err e, s) = refl
  use_client-keeps w (ok client, s) =
      check_server-keeps client _ (E.get_state client s) ∙ k.get_state client s

  pub use_token-keeps :
      (w : World E) (r : Result E.Err Text × E.State) → g (use_token E w r).1.state ≡ g r.1
  unfolding use_token
  use_token-keeps w (err e, s) = refl
  use_token-keeps w (ok token, s) =
      use_client-keeps w (client_for E w.driver token s) ∙ client_for-keeps w.driver token s

  pub dev_lxd_client-keeps : (w : World E) → g (dev_lxd_client E w).1.state ≡ g w.state
  unfolding dev_lxd_client
  dev_lxd_client-keeps w = elim (Option-cases (cached E w.driver)) [
    | inl fresh ↦
        rw (fresh, dev_lxd_client)
          (use_token-keeps w (E.read_file w.driver.dev_lxd_token_file w.state)
            ∙ k.read_file _ w.state)
    | inr (client, at_hand) ↦ rw (at_hand, dev_lxd_client) refl
  ]
