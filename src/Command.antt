-- ===== src/Command.antt =====
-- cmd/lxd-csi/main.go: the flags, and what the command does with them. `flag.Parse` is a parameter: a
-- `Flags` is what it leaves in the variables.
pub mod Laws
use lxd_csi_driver.Base.{Bool, true, false, [], Option, none, some, Result}
use lxd_csi_driver.Strings.{Text}
use lxd_csi_driver.Lxd.{Env}
use lxd_csi_driver.Driver.{
  DriverOptions, Driver, World, new_driver, default_driver_name, default_driver_endpoint,
  default_dev_lxd_endpoint, default_volume_name_prefix,
}
use lxd_csi_driver.Driver.Connect.{GoErr}
use lxd_csi_driver.Driver.Run.{Server, Ran}
use lxd_csi_driver.Driver.Run

pub record Flags : Type 0 where
  pub driver_name : Text
  pub endpoint : Text
  pub dev_lxd_endpoint : Text
  pub volume_name_prefix : Text
  pub node_id : Text
  pub is_controller : Bool
  pub show_version : Bool

-- The values where a flag is not given.
unfoldable pub default_flags : Flags
default_flags = record {
  driver_name = default_driver_name;
  endpoint = default_driver_endpoint;
  dev_lxd_endpoint = default_dev_lxd_endpoint;
  volume_name_prefix = default_volume_name_prefix;
  node_id = [];
  is_controller = false;
  show_version = false;
}

unfoldable pub options_of : Flags → DriverOptions
options_of f = record {
  name = f.driver_name;
  endpoint = f.endpoint;
  dev_lxd_endpoint = f.dev_lxd_endpoint;
  volume_name_prefix = f.volume_name_prefix;
  node_id = f.node_id;
  is_controller = f.is_controller;
}

-- The command prints the version, or it runs the driver.
pub data Ended (E : Env) : Type 0 where
  version_printed : Text → Ended E
  driver_ran : Ran E → World E → Ended E

module _ (E : Env) (S : Server E) where
  -- The process begins with no lock held, in the state that it finds.
  abbrev pub first_world : Flags → E.Locks → E.State → World E
  first_world f locks s = record { driver = new_driver (options_of f); locks = locks; state = s }

  ended : Ran E × World E → Ended E
  ended (ran, w) = driver_ran ran w

  -- `d.Version()`
  unfoldable pub version : Driver E.Client → Text
  version d = d.version

  -- `run()`
  unfoldable pub run : Flags → E.Locks → E.State → Ended E
  unfolding ended version options_of
  run f locks s = elim f.show_version [
    | true ↦ version_printed (version (new_driver (options_of f)))
    | false ↦ ended (Run.run E S (first_world f locks s))
  ]

  ran_error : Ended E → Option (GoErr E)
  ran_error (version_printed v) = none
  ran_error (driver_ran ran w) = Run.run_error E S ran

  -- The error that `main` ends the process with.
  unfoldable pub fatal : Flags → E.Locks → E.State → Option (GoErr E)
  unfolding ran_error
  fatal f locks s = ran_error (run f locks s)
