-- ===== src/Capabilities/Laws.antt =====
-- The checks of internal/driver/capabilities.go against what a list of capabilities names.
use lxd_csi_driver.Base.{
  Bool, true, false, ◌&&◌, ◌||◌, List, [], ◌∷◌, Option, none, if◌then◌else◌, ◌≡◌, ◌↔◌, ◌⊎◌, refl,
  arith,
}
use lxd_csi_driver.Strings.{codes}
use lxd_csi_driver.Csi.{VolumeCapability}
use lxd_csi_driver.Capabilities.{
  has_block, has_mount, check_access_types, validate_volume_capabilities, parse_content_type,
}

-- Some capability of the request has the access type.
abbrev pub any_block : List (Option VolumeCapability) → Bool
any_block [] = false
any_block (c ∷ cs) = has_block c || any_block cs

abbrev pub any_mount : List (Option VolumeCapability) → Bool
any_mount [] = false
any_mount (c ∷ cs) = has_mount c || any_mount cs

check_access_types_lem :
    (cs : List (Option VolumeCapability)) (b m : Bool)
    → check_access_types cs b m ≡ check_access_types [] (b || any_block cs) (m || any_mount cs)
unfolding check_access_types
check_access_types_lem [] b m = ground arith
check_access_types_lem (c ∷ cs) b m =
    ground (arith, check_access_types_lem cs (b || has_block c) (m || has_mount c))

-- A request is accepted exactly if its capabilities name one of the two access types and not the
-- other.
pub validate_volume_capabilities_iff :
    (cs : List (Option VolumeCapability))
    → (validate_volume_capabilities cs ≡ none) ↔ (
        ((any_block cs ≡ true) × (any_mount cs ≡ false))
        ⊎ ((any_block cs ≡ false) × (any_mount cs ≡ true)))
unfolding validate_volume_capabilities
validate_volume_capabilities_iff [] = ground arith
validate_volume_capabilities_iff (c ∷ cs) =
    rw (check_access_types_lem (c ∷ cs) false false) (unfold check_access_types in ground arith)

parse_content_type_lem :
    (cs : List (Option VolumeCapability))
    → any_block cs && any_mount cs ≡ false
    → parse_content_type cs
      ≡ (if any_block cs then codes "block" else if any_mount cs then codes "filesystem" else [])
unfolding parse_content_type
parse_content_type_lem [] h = refl
parse_content_type_lem (c ∷ cs) h = ground (arith, parse_content_type_lem cs)

-- The content type of an accepted request is "block" if some capability has block access, and
-- "filesystem" if not, in whatever order the capabilities stand. It is never empty.
pub parse_content_type_of_validated :
    (cs : List (Option VolumeCapability))
    → validate_volume_capabilities cs ≡ none
    → parse_content_type cs ≡ (if any_block cs then codes "block" else codes "filesystem")
parse_content_type_of_validated cs h =
    ground (arith, validate_volume_capabilities_iff cs, parse_content_type_lem cs)
