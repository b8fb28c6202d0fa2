-- ===== src/Driver/Run/Served.antt =====
-- What holds when `Run` (internal/driver/driver.go) begins to serve.
use mathlib.Core.List.{map}
use mathlib.Core.Path.{subst}
use lxd_csi_driver.Base.{
  Bool, true, false, List, [], ◌∷◌, Option, none, some, Result, ok, err, ◌≡◌, ◌⊎◌, inl, inr, refl,
  ap, ◌∙◌, Option-cases,
}
use lxd_csi_driver.Strings.{Text}
use lxd_csi_driver.Lxd.{Env, Url}
use lxd_csi_driver.Utils.{parse_unix_socket_url}
use lxd_csi_driver.Utils.Laws.{IsSocketPath, parse_unix_socket_url_sound}
use lxd_csi_driver.Driver.{Driver, World}
use lxd_csi_driver.Driver.Connect.{GoErr, dev_lxd_client}
use lxd_csi_driver.Driver.Connect.Session.{
  dev_lxd_client_kept, dev_lxd_client-prefix, dev_lxd_client-is_controller,
}
use lxd_csi_driver.Driver.Run.{
  announced, new_controller_service_capability, set_controller_service_capabilities,
  set_node_service_capabilities, Service, identity_service, controller_service, node_service,
  Server, served, validate, prefix_error, set_up_watch, register_as, register, serve_registered,
  listened, listen_on, watched, connected_run, run,
}

module _ (E : Env) (S : Server E) where
  -- A controller serves with its five capabilities, a node with none.
  abbrev pub HasRole : Driver E.Client → List Service → Type 0
  HasRole d services =
      ((d.is_controller ≡ true)
        × (services ≡ identity_service ∷ controller_service ∷ [])
        × (d.controller_capabilities ≡ map new_controller_service_capability announced))
      ⊎ ((d.is_controller ≡ false)
          × (services ≡ identity_service ∷ node_service ∷ [])
          × (d.node_capabilities ≡ []))

  -- What stays of the session's driver when it is registered.
  record IsRegistered (d d' : Driver E.Client) (services : List Service) : Type 0 where
    role : HasRole d' services
    same_client : d'.dev_lxd ≡ d.dev_lxd
    same_flag : d'.has_dev_lxd_token_changed ≡ d.has_dev_lxd_token_changed
    same_prefix : d'.volume_name_prefix ≡ d.volume_name_prefix
    same_role : d'.is_controller ≡ d.is_controller

  register_as-IsRegistered :
      (b : Bool) (d : Driver E.Client)
      → d.is_controller ≡ b
      → IsRegistered d (register_as E S b d).0 (register_as E S b d).1
  unfolding register_as set_controller_service_capabilities set_node_service_capabilities
  register_as-IsRegistered true d e = record {
    role = inl (e, refl, refl);
    same_client = refl;
    same_flag = refl;
    same_prefix = refl;
    same_role = refl;
  }
  register_as-IsRegistered false d e = record {
    role = inr (e, refl, refl);
    same_client = refl;
    same_flag = refl;
    same_prefix = refl;
    same_role = refl;
  }

  -- What holds when the server begins to serve.
  pub record IsServing (w start : World E) (services : List Service) : Type 0 where
    pub prefix_ok : S.is_hostname w.driver.volume_name_prefix ≡ none
    pub client : E.Client
    pub session : World E
    pub client_eq : dev_lxd_client E w ≡ (ok client, session)
    pub kept : start.driver.dev_lxd ≡ some client
    pub fresh : start.driver.has_dev_lxd_token_changed ≡ false
    pub watch_state : E.State
    pub watch_eq :
        set_up_watch E S session.driver.dev_lxd_token_file session.state ≡ (none, watch_state)
    pub url : Url
    pub socket : Text
    pub socket_ok : IsSocketPath url socket
    pub listening : S.listen socket (S.remove socket watch_state) ≡ (none, start.state)
    pub role : HasRole start.driver services
    pub same_prefix : start.driver.volume_name_prefix ≡ w.driver.volume_name_prefix
    pub same_role : start.driver.is_controller ≡ w.driver.is_controller

  -- The steps behind the connection, for a session.
  record IsStarted (w start : World E) (services : List Service) : Type 0 where
    watch_state : E.State
    watch_eq : set_up_watch E S w.driver.dev_lxd_token_file w.state ≡ (none, watch_state)
    url : Url
    socket : Text
    url_eq : parse_unix_socket_url E w.driver.endpoint ≡ ok (url, socket)
    listening : S.listen socket (S.remove socket watch_state) ≡ (none, start.state)
    registered : IsRegistered w.driver start.driver services

  listened-served :
      (w : World E) (r : Option E.Err × E.State) {services : List Service} {start w' : World E}
      {e : Option E.Err}
      → listened E S w r ≡ (served services start e, w')
      → (r ≡ (none, start.state)) × IsRegistered w.driver start.driver services
  unfolding listened serve_registered register
  listened-served w (none, s) {services} {start} h =
      let d_eq : (register E S w.driver).0 ≡ start.driver = cc in
      let s_eq : s ≡ start.state = cc in
      let services_eq : (register E S w.driver).1 ≡ services = cc in
      (
        ap (λ s. (none, s)) s_eq,
        subst (λ d. IsRegistered w.driver d services) d_eq
            (subst (λ ss. IsRegistered w.driver (register E S w.driver).0 ss) services_eq
              (register_as-IsRegistered w.driver.is_controller w.driver refl)),
      )
  listened-served w (some e, s) h = cc

  listen_on-served :
      (w : World E) (r : Result (GoErr E) (Url × Text)) {services : List Service}
      {start w' : World E} {e : Option E.Err}
      → listen_on E S w r ≡ (served services start e, w')
      → (url : Url) × (socket : Text) × (r ≡ ok (url, socket))
        × (S.listen socket (S.remove socket w.state) ≡ (none, start.state))
        × IsRegistered w.driver start.driver services
  unfolding listen_on
  listen_on-served w (ok (url, socket)) h =
      let (eq, registered) = listened-served w (S.listen socket (S.remove socket w.state)) h in
      (url, socket, refl, eq, registered)
  listen_on-served w (err e) h = cc

  watched-served :
      (w : World E) (r : Option (GoErr E) × E.State) {services : List Service} {start w' : World E}
      {e : Option E.Err}
      → set_up_watch E S w.driver.dev_lxd_token_file w.state ≡ r
      → watched E S w r ≡ (served services start e, w')
      → IsStarted w start services
  unfolding watched
  watched-served w (none, s) q h =
      let (url, socket, url_eq, eq, registered) = listen_on-served (record w { state = s }) _ h in
      record {
        watch_state = s;
        watch_eq = q;
        url = url;
        socket = socket;
        url_eq = url_eq;
        listening = eq;
        registered = registered;
      }
  watched-served w (some e, s) q h = cc

  connected_run-served :
      (r : Result (GoErr E) E.Client × World E) {services : List Service} {start w' : World E}
      {e : Option E.Err}
      → connected_run E S r ≡ (served services start e, w')
      → (client : E.Client) × (session : World E) × (r ≡ (ok client, session))
        × IsStarted session start services
  unfolding connected_run
  connected_run-served (ok client, w) h = (client, w, refl, watched-served w _ refl h)
  connected_run-served (err e, w) h = cc

  validate-none :
      (d : Driver E.Client) → validate E S d ≡ none → S.is_hostname d.volume_name_prefix ≡ none
  unfolding validate prefix_error
  validate-none d h = elim (Option-cases (S.is_hostname d.volume_name_prefix)) [
    | inl e ↦ e
    | inr (x, e) ↦ let f : ⊥ = cc (rw (e, validate, prefix_error) at h) in absurd f
  ]

  -- A process serves only if its prefix is a host name, it has a client that the session keeps, with
  -- no token change pending, the directory of the token file is watched, and it listens on a socket
  -- whose path is absolute and ends in no slash. It serves the identity and, by its options, either the
  -- controller with its five capabilities or the node with none, and its prefix is the validated one.
  pub run-IsServing :
      (w : World E) {services : List Service} {start w' : World E} {e : Option E.Err}
      → run E S w ≡ (served services start e, w')
      → IsServing w start services
  unfolding run
  run-IsServing w h = elim (Option-cases (validate E S w.driver)) [
    | inr (x, invalid) ↦ let f : ⊥ = cc (rw (invalid, run) at h) in absurd f
    | inl valid ↦
        let (client, session, client_eq, started) =
          connected_run-served (dev_lxd_client E w) (rw (valid, run) at h) in
        let (kept, fresh, _) = dev_lxd_client_kept E w client_eq in
        record {
          prefix_ok = validate-none w.driver valid;
          client = client;
          session = session;
          client_eq = client_eq;
          kept = started.registered.same_client ∙ kept;
          fresh = started.registered.same_flag ∙ fresh;
          watch_state = started.watch_state;
          watch_eq = started.watch_eq;
          url = started.url;
          socket = started.socket;
          socket_ok = parse_unix_socket_url_sound E session.driver.endpoint started.url_eq;
          listening = started.listening;
          role = started.registered.role;
          same_prefix = started.registered.same_prefix ∙ dev_lxd_client-prefix E w client_eq;
          same_role = started.registered.same_role ∙ dev_lxd_client-is_controller E w client_eq;
        }
  ]
