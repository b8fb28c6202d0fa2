-- ===== src/Capabilities.antt =====
-- internal/driver/capabilities.go: the checks of a request's volume capabilities.
pub mod Laws
use lxd_csi_driver.Base.{
  Bool, true, false, ◌&&◌, ◌||◌, not, List, [], ◌∷◌, Option, none, some, if◌then◌else◌,
}
use lxd_csi_driver.Strings.{Text, codes}
use lxd_csi_driver.Csi.{VolumeCapability, AccessType, unset, block, mount}

abbrev pub access_of : Option VolumeCapability → AccessType
access_of none = unset
access_of (some c) = c.access_type

abbrev is_block : AccessType → Bool
is_block unset = false
is_block block = true
is_block (mount m) = false

abbrev is_mount : AccessType → Bool
is_mount unset = false
is_mount block = false
is_mount (mount m) = true

-- `c.GetBlock() != nil` and `c.GetMount() != nil`
abbrev pub has_block : Option VolumeCapability → Bool
has_block c = is_block (access_of c)

abbrev pub has_mount : Option VolumeCapability → Bool
has_mount c = is_mount (access_of c)

pub data CapabilityError : Type 0 where
  no_capabilities both_undefined both_defined : CapabilityError

-- The loop over the capabilities, and the two tests after it. `none` is a nil error.
unfoldable pub check_access_types :
    List (Option VolumeCapability) → Bool → Bool → Option CapabilityError
check_access_types [] access_type_block access_type_mount =
    if not access_type_block && not access_type_mount
    then some both_undefined
    else if access_type_block && access_type_mount
    then some both_defined
    else none
check_access_types (c ∷ cs) access_type_block access_type_mount =
    check_access_types cs (access_type_block || has_block c) (access_type_mount || has_mount c)

unfoldable pub validate_volume_capabilities :
    List (Option VolumeCapability) → Option CapabilityError
validate_volume_capabilities [] = some no_capabilities
validate_volume_capabilities (c ∷ cs) = check_access_types (c ∷ cs) false false

unfoldable pub parse_content_type : List (Option VolumeCapability) → Text
parse_content_type [] = []
parse_content_type (c ∷ cs) =
    if has_block c
    then codes "block"
    else if has_mount c
    then codes "filesystem"
    else parse_content_type cs
