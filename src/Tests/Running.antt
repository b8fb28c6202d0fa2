-- ===== src/Tests/Running.antt =====
-- A command that serves as a controller, and the theorems about it.
use lxd_csi_driver.Base.{
  ℕ, ◌≤◌, length, leb, true, false, ◌||◌, not, Bool-cases, [], ◌∷◌, ◌++◌, Option, none, some, ◌≡◌,
  inl, inr, refl, if◌then◌else◌, arith,
}
use lxd_csi_driver.Strings.{Text, codes, is_empty, text_eq, has_prefix, replace_all}
use lxd_csi_driver.Strings.Laws.{Lacks}
use lxd_csi_driver.FilePath.{clean}
use lxd_csi_driver.Driver.{World, new_driver}
use lxd_csi_driver.Driver.Connect.{dev_lxd_client, connect, trusting}
use lxd_csi_driver.Driver.Connect.Session.{IsTrusted}
use lxd_csi_driver.Driver.Run.{
  Server, Ran, served, Service, identity_service, controller_service, validate, set_up_watch,
  register, announced, new_controller_service_capability, set_controller_service_capabilities,
}
use lxd_csi_driver.Driver.Run
use lxd_csi_driver.Driver.Run.Served.{IsServing}
use lxd_csi_driver.Driver.Run.Names.{IsValidator, served-volume_name_of}
use lxd_csi_driver.Utils.{parse_unix_socket_url, socket_path_of, has_suffix_slash}
use lxd_csi_driver.Controller.{short_name}
use lxd_csi_driver.Controller.Create.Request.{volume_name_of}
use lxd_csi_driver.Command.{Flags, driver_ran, first_world, options_of, run}
use lxd_csi_driver.Command.Laws.{services_of, run-IsServing_of_flags}
use lxd_csi_driver.Tests.Fake.{fake, LockTable, server}

abbrev hostname_error : Text → Option ℕ
hostname_error name = if is_empty name || not (leb (length name) 63) then some 22 else none

-- A server that stops at once.
abbrev idle_server : Server fake
idle_server = record {
  is_hostname = hostname_error;
  new_watcher = λ s. (none, s);
  add_watch = λ path s. (none, s);
  remove = λ path s. s;
  listen = λ socket s. (none, s);
  serve = λ services w. (none, w);
}

abbrev no_locks : LockTable
no_locks k = false

abbrev controller_flags : Flags
controller_flags = record {
  driver_name = codes "lxd.csi.canonical.com";
  endpoint = codes "/tmp/csi.sock";
  dev_lxd_endpoint = codes "/dev/lxd/sock";
  volume_name_prefix = codes "csi";
  node_id = codes "n1";
  is_controller = true;
  show_version = false;
}

abbrev started_at : World fake
started_at = first_world fake idle_server controller_flags no_locks 0

abbrev serving : World fake
serving = record started_at {
  driver =
      set_controller_service_capabilities announced (trusting fake [] server started_at.driver);
}

ran :
    Run.run fake idle_server started_at
    ≡ (served (identity_service ∷ controller_service ∷ []) serving none, serving)
unfolding Run.run validate set_up_watch register new_driver dev_lxd_client connect
    parse_unix_socket_url socket_path_of has_prefix text_eq options_of clean has_suffix_slash
ran = refl

command_ran :
    run fake idle_server controller_flags no_locks 0
    ≡ driver_ran (served (identity_service ∷ controller_service ∷ []) serving none) serving
unfolding run options_of
command_ran = rw ran refl

run-IsServing_of_flags_example :
    (controller_flags.show_version ≡ false)
    × (identity_service ∷ controller_service ∷ [] ≡ services_of controller_flags.is_controller)
    × (serving.driver.volume_name_prefix ≡ controller_flags.volume_name_prefix)
    × (p : IsServing fake idle_server started_at serving
        (identity_service ∷ controller_service ∷ []))
    × IsTrusted fake started_at p.client p.session
run-IsServing_of_flags_example =
    run-IsServing_of_flags fake idle_server controller_flags no_locks 0 command_ran

idle_server-IsValidator : IsValidator idle_server
idle_server-IsValidator = record {
  hostname_bounds = λ name h. elim (Bool-cases (is_empty name)) [
    | inl empty ↦ let f : ⊥ = cc (rw empty at h) in absurd f
    | inr full ↦ (full, ground arith)
  ];
}

abbrev uuid : Text
uuid = codes "01234567-89ab-cdef-0123-456789abcdef"

served-volume_name_of_example :
    (length (codes "csi-0123456789abcdef0123456789abcdef") ≤ 100)
    × (rest : Text) × (codes "csi-0123456789abcdef0123456789abcdef" ≡ codes "csi" ++ b'-' ∷ rest)
    × Lacks b'-' rest
unfolding volume_name_of short_name replace_all new_driver options_of
    set_controller_service_capabilities
served-volume_name_of_example =
    served-volume_name_of idle_server-IsValidator started_at (codes "pvc") uuid ran (omega arith)
      refl
