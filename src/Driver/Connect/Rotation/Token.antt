-- ===== src/Driver/Connect/Rotation/Token.antt =====
-- The token that the client of `DevLXDClient` (internal/driver/driver.go) carries.
use lxd_csi_driver.Base.{
  Bool, true, false, none, some, Result, ok, err, ◌≡◌, inl, inr, refl, sym, ◌∙◌, ap, arith,
  Option-cases,
}
use lxd_csi_driver.Strings.{Text}
use lxd_csi_driver.Lxd.{Env, Url, ServerInfo}
use lxd_csi_driver.Driver.{Driver, World}
use lxd_csi_driver.Driver.Connect.{
  GoErr, connected, connect_socket, connect_url, connect, check_server, client_for, use_client,
  use_token, cached, dev_lxd_client, handle_token_file_change,
}
use lxd_csi_driver.Driver.Connect.Reads.{ConnectKeeps, dev_lxd_client-keeps}
use lxd_csi_driver.Driver.Connect.Session.{dev_lxd_client_kept}

-- A token file, which the calls of a connection leave alone, and the token that a client sends: the one
-- that it was made with, or was given last.
pub record IsTokenFile (E : Env) (path : Text) : Type 0 where
  pub file : E.State → Text
  pub token_of : E.Client → Text
  pub keeps : ConnectKeeps E file
  pub reads :
      (s : E.State) {token : Text} {s' : E.State}
      → E.read_file path s ≡ (ok token, s')
      → token ≡ file s
  pub uses : (client : E.Client) (token : Text) → token_of (E.use_bearer_token client token) ≡ token
  pub connects :
      (socket agent token : Text) (s : E.State) {client : E.Client} {s' : E.State}
      → E.connect_dev_lxd socket agent token s ≡ (ok client, s')
      → token_of client ≡ token

module _ {E : Env} where
  -- The path of the token file never changes.
  pub use_token-path :
      (w : World E) (r : Result E.Err Text × E.State)
      → (use_token E w r).1.driver.dev_lxd_token_file ≡ w.driver.dev_lxd_token_file
  unfolding use_token
  use_token-path w r = ground arith

  check_server-client :
      (client : E.Client) (w : World E) (r : Result E.Err ServerInfo × E.State) {client' : E.Client}
      {w' : World E}
      → check_server E client w r ≡ (ok client', w')
      → client' ≡ client
  unfolding check_server
  check_server-client client w (err e, s) h = cc
  check_server-client client w (ok info, s) h = ground arith

module _ {E : Env} {path : Text} (T : IsTokenFile E path) where
  connected-token :
      (socket agent token : Text) (s : E.State) (r : Result E.Err E.Client × E.State)
      {client : E.Client} {s' : E.State}
      → E.connect_dev_lxd socket agent token s ≡ r
      → connected E r ≡ (ok client, s')
      → T.token_of client ≡ token
  unfolding connected
  connected-token socket agent token s (ok client, s') q h =
      let same : client ≡ _ = cc in ap T.token_of (sym same) ∙ T.connects socket agent token s q
  connected-token socket agent token s (err e, s') q h = cc

  connect_socket-token :
      (socket token : Text) (r : Result E.Err Bool × E.State) {client : E.Client} {s' : E.State}
      → connect_socket E socket token r ≡ (ok client, s')
      → T.token_of client ≡ token
  unfolding connect_socket
  connect_socket-token socket token (err e, s) h = cc
  connect_socket-token socket token (ok false, s) h = cc
  connect_socket-token socket token (ok true, s) h = connected-token socket _ token s _ refl h

  connect_url-token :
      (token : Text) (r : Result (GoErr E) (Url × Text)) (s : E.State) {client : E.Client}
      {s' : E.State}
      → connect_url E token r s ≡ (ok client, s')
      → T.token_of client ≡ token
  unfolding connect_url
  connect_url-token token (err e) s h = cc
  connect_url-token token (ok (url, socket)) s h =
      connect_socket-token socket token (E.is_socket socket s) h

  client_for-token :
      (d : Driver E.Client) (token : Text) (s : E.State) {client : E.Client} {s' : E.State}
      → client_for E d token s ≡ (ok client, s')
      → T.token_of client ≡ token
  unfolding connect
  client_for-token d token s h = elim (Option-cases d.dev_lxd) [
    | inl unconnected ↦ connect_url-token token _ s (rw unconnected at h)
    | inr (client, at_hand) ↦
        let h' : (ok (E.use_bearer_token client token), s) ≡ (ok _, _) = rw at_hand at h in
        let same : E.use_bearer_token client token ≡ _ = cc in
        ap T.token_of (sym same) ∙ T.uses client token
  ]

  use_client-token :
      (w : World E) (token : Text) (s : E.State) (r : Result (GoErr E) E.Client × E.State)
      {client : E.Client} {w' : World E}
      → client_for E w.driver token s ≡ r
      → use_client E w r ≡ (ok client, w')
      → T.token_of client ≡ token
  unfolding use_client
  use_client-token w token s (err e, s') q h = cc
  use_client-token w token s (ok client, s') q h =
      ap T.token_of (check_server-client client _ (E.get_state client s') h)
      ∙ client_for-token w.driver token s q

  -- The client that is handed out carries the token that was read.
  pub use_token-token :
      (w : World E) (token : Text) (s : E.State) {client : E.Client} {w' : World E}
      → use_token E w (ok token, s) ≡ (ok client, w')
      → T.token_of client ≡ token
  unfolding use_token
  use_token-token w token s h = use_client-token w token s _ refl h

  read-token :
      (w : World E) (s : E.State) (r : Result E.Err Text × E.State) {client : E.Client}
      {w' : World E}
      → E.read_file path s ≡ r
      → use_token E w r ≡ (ok client, w')
      → T.token_of client ≡ T.file s
  unfolding use_token
  read-token w s (err e, s') q h = cc
  read-token w s (ok token, s') q h = use_token-token w token s' h ∙ T.reads s q

  fresh-token :
      (w : World E) {client : E.Client} {w' : World E}
      → w.driver.dev_lxd_token_file ≡ path
      → cached E w.driver ≡ none
      → dev_lxd_client E w ≡ (ok client, w')
      → T.token_of client ≡ T.file w.state
  unfolding dev_lxd_client
  fresh-token w on_path fresh h =
      read-token w w.state (E.read_file w.driver.dev_lxd_token_file w.state)
        (ap (λ p. E.read_file p w.state) (sym on_path)) (rw (fresh, dev_lxd_client) at h)

  -- Where a connection leaves the token file alone, and a client carries the token that it was made with or
  -- given last: after a notice that the file changed, a call of `DevLXDClient` that answers with a client,
  -- whether or not one was connected before, answers with one that carries the token that is in the file,
  -- before the call and after it, and the driver keeps that client and knows of no further change.
  pub token_change-token :
      (w : World E) {client : E.Client} {w' : World E}
      → w.driver.dev_lxd_token_file ≡ path
      → dev_lxd_client E (handle_token_file_change E w) ≡ (ok client, w')
      → (T.token_of client ≡ T.file w.state)
        × (T.file w'.state ≡ T.file w.state)
        × (w'.driver.dev_lxd ≡ some client)
        × (w'.driver.has_dev_lxd_token_changed ≡ false)
  unfolding handle_token_file_change
  token_change-token w on_path h =
      let (kept, known, _) = dev_lxd_client_kept E (handle_token_file_change E w) h in
      (
        fresh-token (handle_token_file_change E w) on_path refl h,
        ap (λ x. T.file x.1.state) (sym h)
            ∙ dev_lxd_client-keeps T.keeps (handle_token_file_change E w),
        kept,
        known,
      )
