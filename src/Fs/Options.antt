-- ===== src/Fs/Options.antt =====
-- `ResolveMountOptions` and its table (internal/fs/fs.go).
use Prim.Native.Nat.{bit_and, bit_or}
use lxd_csi_driver.Base.{
  ℕ, ◌-◌, ◌^◌, Bool, true, false, List, [], ◌∷◌, ◌++◌, none, some, if◌then◌else◌,
}
use lxd_csi_driver.Strings.{Text, codes, join}
use lxd_csi_driver.Dict.{Dict, lookup}

pub record MountOption : Type 0 where
  pub capture : Bool
  pub flag : ℕ

abbrev set_flag : ℕ → MountOption
set_flag f = record { capture = true; flag = f }

abbrev clear_flag : ℕ → MountOption
clear_flag f = record { capture = false; flag = f }

unfoldable pub mount_flag_types : Dict MountOption
mount_flag_types =
    (codes "async", clear_flag 0x10)
    ∷ (codes "atime", clear_flag 0x400)
    ∷ (codes "bind", set_flag 0x1000)
    ∷ (codes "defaults", set_flag 0)
    ∷ (codes "dev", clear_flag 0x4)
    ∷ (codes "diratime", clear_flag 0x800)
    ∷ (codes "dirsync", set_flag 0x80)
    ∷ (codes "exec", clear_flag 0x8)
    ∷ (codes "lazytime", set_flag 0x2000000)
    ∷ (codes "mand", set_flag 0x40)
    ∷ (codes "noatime", set_flag 0x400)
    ∷ (codes "nodev", set_flag 0x4)
    ∷ (codes "nodiratime", set_flag 0x800)
    ∷ (codes "noexec", set_flag 0x8)
    ∷ (codes "nomand", clear_flag 0x40)
    ∷ (codes "norelatime", clear_flag 0x200000)
    ∷ (codes "nostrictatime", clear_flag 0x1000000)
    ∷ (codes "nosuid", set_flag 0x2)
    ∷ (codes "rbind", set_flag 0x5000)
    ∷ (codes "relatime", set_flag 0x200000)
    ∷ (codes "remount", set_flag 0x20)
    ∷ (codes "ro", set_flag 0x1)
    ∷ (codes "rw", clear_flag 0x1)
    ∷ (codes "strictatime", set_flag 0x1000000)
    ∷ (codes "suid", clear_flag 0x2)
    ∷ (codes "sync", set_flag 0x10)
    ∷ []

-- `flags |= f`, and `flags &= ^f` on 64 bits.
unfoldable pub apply_flag : MountOption → ℕ → ℕ
apply_flag o flags = if o.capture then bit_or flags o.flag else bit_and flags (2 ^ 64 - 1 - o.flag)

-- The loop over the options: known ones change the flags, the others are kept.
unfoldable pub resolve_loop : List Text → ℕ → List Text → ℕ × List Text
resolve_loop [] flags others = (flags, others)
resolve_loop (o ∷ options) flags others = elim (lookup o mount_flag_types) [
  | none ↦ resolve_loop options flags (others ++ o ∷ [])
  | some known ↦ resolve_loop options (apply_flag known flags) others
]

unfoldable pub resolve_mount_options : List Text → ℕ × Text
unfolding resolve_loop apply_flag mount_flag_types lookup join
resolve_mount_options options =
    let (flags, others) = resolve_loop options 0 [] in (flags, join others b',')
