-- ===== src/Controller/Names.antt =====
-- The names that internal/driver/controller.go makes of the requested ones.
use lxd_csi_driver.Base.{ℕ, ◌≤◌, [], ◌∷◌, ◌++◌, ◌≡◌, ◌≢◌, refl, sym, length, All-append}
use lxd_csi_driver.Strings.{Text, replace_all}
use lxd_csi_driver.Strings.Laws.{
  Lacks, replace_all-Lacks, replace_all-Lacks_other, length-remove-le,
}
use lxd_csi_driver.Controller.{short_name}

-- A name brings in no byte but the dash.
pub short_name-Lacks :
    (prefix uuid : Text) (b : ℕ)
    → b ≢ b'-'
    → Lacks b prefix
    → Lacks b uuid
    → Lacks b (short_name prefix uuid)
unfolding short_name
short_name-Lacks prefix uuid b ne hp hu =
    All-append _ prefix (b'-' ∷ replace_all uuid b'-' []) hp
      (λ q. ne (sym q), replace_all-Lacks_other uuid b'-' b [] hu tt)

-- Behind the prefix and one dash there is no dash.
pub short_name_lem :
    (prefix uuid : Text)
    → (rest : Text) × (short_name prefix uuid ≡ prefix ++ b'-' ∷ rest)
      × Lacks b'-' rest
      × (length rest ≤ length uuid)
unfolding short_name
short_name_lem prefix uuid =
    (replace_all uuid b'-' [], refl, replace_all-Lacks uuid b'-' [] tt, length-remove-le uuid b'-')
