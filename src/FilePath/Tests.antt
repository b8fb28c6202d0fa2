-- ===== src/FilePath/Tests.antt =====
-- Runs of `Clean` and `Join`.
use lxd_csi_driver.Base.{◌≡◌, refl, []}
use lxd_csi_driver.Strings.{codes}
use lxd_csi_driver.FilePath.{clean, join_path}

cleans :
    (clean (codes "/a//b/./../c/") ≡ codes "/a/c")
    × (clean (codes "../a/../..") ≡ codes "../..")
    × (clean (codes "/..") ≡ codes "/")
    × (clean [] ≡ codes ".")
    × (join_path (codes "/mnt/lxd-csi") (codes "csi-0a") ≡ codes "/mnt/lxd-csi/csi-0a")
    × (join_path [] [] ≡ [])
unfolding clean join_path
cleans = (refl, refl, refl, refl, refl, refl)
