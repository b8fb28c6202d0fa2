-- ===== src/Strconv/Tests.antt =====
-- Runs of the conversions.
use lxd_csi_driver.Base.{◌≡◌, refl, none, some, pos, negsuc}
use lxd_csi_driver.Strings.{codes}
use lxd_csi_driver.Strconv.{parse_int, format_int}

parses :
    (parse_int (codes "21474836480") ≡ some (pos 21474836480))
    × (parse_int (codes "-12") ≡ some (negsuc 11))
    × (parse_int (codes "9223372036854775808") ≡ none)
    × (parse_int (codes "-9223372036854775808") ≡ some (negsuc 9223372036854775807))
    × (parse_int (codes "10GiB") ≡ none)
    × (parse_int (codes "-") ≡ none)
unfolding parse_int
parses = (refl, refl, refl, refl, refl, refl)

prints : (format_int (pos 32212254720) ≡ codes "32212254720") × (format_int (pos 0) ≡ codes "0")
unfolding format_int
prints = (refl, refl)
