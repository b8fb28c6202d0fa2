-- ===== src/Fs.antt =====
-- internal/fs/fs.go: mounting and unmounting.
pub mod Options
pub mod Unmount
pub mod Watch
pub mod Mounting
use Prim.Native.Nat.{bit_and, bit_or}
use lxd_csi_driver.Base.{
  ℕ, zero, suc, ◌+◌, Bool, true, false, ◌&&◌, ◌||◌, not, List, [], ◌∷◌, String, Option, none, some,
  Result, ok, err, ◌==◌, if◌then◌else◌,
}
use lxd_csi_driver.Strings.{Text, codes, text_eq, is_empty, split, join}
use lxd_csi_driver.FilePath.{clean}
use lxd_csi_driver.Host.{Host}

-- The flags of `mount(2)`.
abbrev pub ms_rdonly : ℕ
ms_rdonly = 0x1

abbrev pub ms_remount : ℕ
ms_remount = 0x20

abbrev pub ms_bind : ℕ
ms_bind = 0x1000

abbrev pub ms_rec : ℕ
ms_rec = 0x4000

abbrev pub ms_slave : ℕ
ms_slave = 0x80000

-- An error of the host, or one of the package's own.
pub data FsError (Err : Type 0) : Type 0 where
  host : Err → FsError Err
  message : String → FsError Err

-- `slices.Contains(options, "ro")`
unfoldable pub has_option : Text → List Text → Bool
has_option o [] = false
has_option o (p ∷ ps) = text_eq p o || has_option o ps

-- `filepath.Dir(path)`: everything up to the last slash, cleaned.
abbrev drop_last_part : List Text → List Text
drop_last_part [] = []
drop_last_part (p ∷ []) = [] ∷ []
drop_last_part (p ∷ q ∷ []) = p ∷ [] ∷ []
drop_last_part (p ∷ q ∷ r ∷ ps) = p ∷ drop_last_part (q ∷ r ∷ ps)

unfoldable pub dir_of : Text → Text
unfolding split join clean
dir_of path = clean (join (drop_last_part (split path b'/')) b'/')

module _ (H : Host) where
  -- A step of a function that may fail.
  abbrev pub Step : Type 0 → Type 0
  Step A = H.State → Result (FsError H.Err) A × H.State

  abbrev pub next_step :
      {A B : Type 0}
      → Result (FsError H.Err) A × H.State
      → (A → Step B)
      → Result (FsError H.Err) B × H.State
  next_step (ok a, s) k = k a s
  next_step (err e, s) k = (err e, s)

  infixl 5 ◌>>=◌ ◌>>◌
  unfoldable pub ◌>>=◌ : {A B : Type 0} → Step A → (A → Step B) → Step B
  ◌>>=◌ m k s = next_step (m s) k

  abbrev pub ◌>>◌ : {B : Type 0} → Step (Unit {0}) → Step B → Step B
  m >> k = m >>= λ _. k

  abbrev pub return : {A : Type 0} → A → Step A
  return a s = (ok a, s)

  abbrev pub throw : {A : Type 0} → String → Step A
  throw m s = (err (message m), s)

  abbrev pub host_result :
      {A : Type 0} → Result H.Err A × H.State → Result (FsError H.Err) A × H.State
  host_result (ok a, s) = (ok a, s)
  host_result (err e, s) = (err (host e), s)

  -- A call of the host; its error is handed on.
  unfoldable pub on_host : {A : Type 0} → (H.State → Result H.Err A × H.State) → Step A
  on_host op s = host_result (op s)

  exists_by : Result H.Err (Unit {0}) × H.State → Bool × H.State
  exists_by (ok u, s) = (true, s)
  exists_by (err e, s) = (not (H.is_not_exist e), s)

  -- `PathExists(name)`
  unfoldable pub path_exists : Text → H.State → Bool × H.State
  unfolding exists_by
  path_exists name s = exists_by (H.lstat name s)

  mounted_by : (Bool × Option H.Err) × H.State → Result (FsError H.Err) Bool × H.State
  mounted_by ((mounted, none), s) = (ok mounted, s)
  mounted_by ((mounted, some e), s) =
      if not (H.is_not_exist e) then (err (host e), s) else (ok mounted, s)

  -- `IsMountPoint(path)`
  unfoldable pub is_mount_point : Text → Step Bool
  unfolding mounted_by
  is_mount_point path s = mounted_by (H.is_mount_point path s)

  -- The mount point: a directory for a filesystem, a file for a block device.
  unfoldable pub make_target : Text → Text → Step (Unit {0})
  unfolding on_host
  make_target target_path content_type =
      if text_eq content_type (codes "filesystem")
      then on_host (H.mkdir_all target_path)
      else if text_eq content_type (codes "block")
      then on_host (H.mkdir_all (dir_of target_path)) >> on_host (H.create_file target_path)
      else throw "Invalid content type %q"

  -- A bind mount ignores "ro", so it is mounted once more.
  unfoldable pub remount_if : Bool → Text → Step (Unit {0})
  unfolding on_host
  remount_if true target_path =
      on_host (H.mount [] target_path (bit_or (bit_or ms_rdonly ms_bind) ms_remount) [])
  remount_if false target_path = return tt

  unfoldable pub needs_remount : List Text → Bool
  unfolding has_option
  needs_remount options =
      has_option (codes "ro") options
      && (bit_and (H.resolve_mount_options options).0 ms_bind == ms_bind)

  -- `Mount(sourcePath, targetPath, contentType, mountOptions)`
  unfoldable pub mount : Text → Text → Text → List Text → Step (Unit {0})
  mount source_path target_path content_type options =
      if is_empty source_path
      then throw "Volume mount source path is not specified"
      else if is_empty target_path
      then throw "Volume mount target path is not specified"
      else (do
        make_target target_path content_type
        let resolved = H.resolve_mount_options options
        on_host (H.mount source_path target_path resolved.0 resolved.1)
        remount_if (needs_remount options) target_path
        on_host (H.mount [] target_path (bit_or ms_rec ms_slave) []))

  unmounted_by :
      (Option H.Err → H.State → Option H.Err × H.State)
      → Result H.Err (Unit {0}) × H.State
      → Option H.Err × H.State
  unmounted_by again (ok u, s) = (none, s)
  unmounted_by again (err e, s) = again (some e) (H.sleep 500 s)

  -- The loop of `Unmount` with the rounds left; the error is that of the last round.
  unfoldable pub unmount_loop : ℕ → Text → Option H.Err → H.State → Option H.Err × H.State
  unfolding unmounted_by
  unmount_loop zero path e s = (e, s)
  unmount_loop (suc rounds) path e s = unmounted_by (unmount_loop rounds path) (H.unmount path s)

  abbrev or_host_error : Option H.Err × H.State → Result (FsError H.Err) (Unit {0}) × H.State
  or_host_error (none, s) = (ok tt, s)
  or_host_error (some e, s) = (err (host e), s)

  unfoldable pub unmount_if : Bool → Text → Step (Unit {0})
  unmount_if true path s = or_host_error (unmount_loop 20 path none s)
  unmount_if false path s = (ok tt, s)

  unfoldable pub unmount_existing : Text → Step (Unit {0})
  unmount_existing path = do
    mounted ← is_mount_point path
    unmount_if mounted path
    on_host (H.remove path)

  -- `Unmount(path)`
  unfoldable pub unmount : Text → Step (Unit {0})
  unmount path s =
      let (there, s') = path_exists path s in
      if there then unmount_existing path s' else (ok tt, s')
