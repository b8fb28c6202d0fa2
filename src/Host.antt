-- ===== src/Host.antt =====
-- What internal/fs/fs.go and internal/driver/node.go call and do not implement: files, mounts, and
-- the packages `k8s.io/mount-utils` and `lxd/storage/filesystem`. The state holds the file system of
-- the node, and whatever else happens there.
use lxd_csi_driver.Base.{ℕ, Bool, List, Option, Result}
use lxd_csi_driver.Strings.{Text}

pub record Host : Type 1 where
  pub State : Type 0
  pub Err : Type 0
  pub is_not_exist : Err → Bool
  pub lstat : Text → State → Result Err (Unit {0}) × State
  -- `mounter.IsMountPoint(path)` returns a value beside its error.
  pub is_mount_point : Text → State → (Bool × Option Err) × State
  pub mkdir_all : Text → State → Result Err (Unit {0}) × State
  pub create_file : Text → State → Result Err (Unit {0}) × State
  pub resolve_mount_options : List Text → ℕ × Text
  -- `unix.Mount(source, target, "", flags, data)`
  pub mount : Text → Text → ℕ → Text → State → Result Err (Unit {0}) × State
  pub unmount : Text → State → Result Err (Unit {0}) × State
  pub remove : Text → State → Result Err (Unit {0}) × State
  pub sleep : ℕ → State → State
  pub read_dir : Text → State → Result Err (List Text) × State
  pub eval_symlinks : Text → State → Result Err Text × State
