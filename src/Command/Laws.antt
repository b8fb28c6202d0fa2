-- ===== src/Command/Laws.antt =====
-- What the command (cmd/lxd-csi/main.go) serves.
use lxd_csi_driver.Base.{
  Bool, false, List, [], ◌∷◌, Option, ◌≡◌, inl, inr, refl, if◌then◌else◌, arith, Bool-cases,
}
use lxd_csi_driver.Lxd.{Env}
use lxd_csi_driver.Driver.{World, new_driver}
use lxd_csi_driver.Driver.Connect.Session.{IsTrusted, dev_lxd_client-IsTrusted}
use lxd_csi_driver.Driver.Run.{
  Service, identity_service, controller_service, node_service, Server, Ran, served,
}
use lxd_csi_driver.Driver.Run
use lxd_csi_driver.Driver.Run.Served.{HasRole, IsServing, run-IsServing}
use lxd_csi_driver.Command.{Flags, driver_ran, first_world, options_of, ended, run}

-- The services by the controller flag.
abbrev pub services_of : Bool → List Service
services_of controller =
    if controller
    then identity_service ∷ controller_service ∷ []
    else identity_service ∷ node_service ∷ []

module _ (E : Env) (S : Server E) where
  ended-ran :
      (r : Ran E × World E) {ran : Ran E} {w' : World E}
      → ended E S r ≡ driver_ran ran w'
      → r ≡ (ran, w')
  unfolding ended
  ended-ran (ran, w) h = cc

  -- A command serves only without the version flag, on a connection to a server that said that it trusts
  -- the client, and with what `Run` checks before it serves. It serves the controller exactly if the
  -- controller flag is set, under the prefix of the flags.
  pub run-IsServing_of_flags :
      (f : Flags) (locks : E.Locks) (s : E.State) {services : List Service} {start w' : World E}
      {e : Option E.Err}
      → run E S f locks s ≡ driver_ran (served services start e) w'
      → (f.show_version ≡ false)
        × (services ≡ services_of f.is_controller)
        × (start.driver.volume_name_prefix ≡ f.volume_name_prefix)
        × (p : IsServing E S (first_world E S f locks s) start services) × IsTrusted E
            (first_world E S f locks s)
            p.client
            p.session
  unfolding run options_of new_driver
  run-IsServing_of_flags f locks s {services} {start} h = elim (Bool-cases f.show_version) [
    | inl shown ↦ let x : ⊥ = cc (rw (shown, run) at h) in absurd x
    | inr hidden ↦
        let w = first_world E S f locks s in
        let p = run-IsServing E S w (ended-ran (Run.run E S w) (rw (hidden, run) at h)) in
        (
          hidden,
          services_by_role p.role p.same_role,
          p.same_prefix,
          p,
          dev_lxd_client-IsTrusted E w refl p.client_eq,
        )
  ]
    where
      services_by_role :
          HasRole E S start.driver services
          → start.driver.is_controller ≡ f.is_controller
          → services ≡ services_of f.is_controller
      services_by_role (inl (role, eq, caps)) same = ground arith
      services_by_role (inr (role, eq, caps)) same = ground arith
