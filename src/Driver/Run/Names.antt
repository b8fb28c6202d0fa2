-- ===== src/Driver/Run/Names.antt =====
-- The names of the volumes that a process makes once `Validate` (internal/driver/driver.go) has accepted
-- its prefix.
use lxd_csi_driver.Base.{◌≤◌, length, false, List, ◌∷◌, ◌++◌, Option, none, some, ◌≡◌, sym, ap, ◌∙◌}
use lxd_csi_driver.Strings.{Text, is_empty}
use lxd_csi_driver.Strings.Laws.{Lacks}
use lxd_csi_driver.Lxd.{Env}
use lxd_csi_driver.Driver.{World}
use lxd_csi_driver.Driver.Run.{Service, Server, served, run}
use lxd_csi_driver.Driver.Run.Served.{run-IsServing}
use lxd_csi_driver.Controller.Create.Request.{volume_name_of}
use lxd_csi_driver.Controller.Create.Ids.{volume_name_bounds}

-- What `validate.IsHostname` documents of its length: 1 to 63 characters.
pub record IsValidator {E : Env} (S : Server E) : Type 0 where
  pub hostname_bounds :
      (name : Text) → S.is_hostname name ≡ none → (is_empty name ≡ false) × (length name ≤ 63)

-- Where the validator of host names accepts only 1 to 63 bytes, a process that serves names a volume with
-- at most 100 bytes, if at most 36 bytes stand behind the first dash of the requested name: the validated
-- prefix, one dash, and a rest with no dash.
pub served-volume_name_of :
    {E : Env} {S : Server E} (v : IsValidator S) (w : World E) {services : List Service}
    {start w' : World E} {e : Option E.Err} (before uuid : Text) {vol : Text}
    → run E S w ≡ (served services start e, w')
    → length uuid ≤ 36
    → volume_name_of start.driver.volume_name_prefix (some (before, uuid)) ≡ some vol
    → (length vol ≤ 100)
      × (rest : Text) × (vol ≡ w.driver.volume_name_prefix ++ b'-' ∷ rest)
      × Lacks b'-' rest
served-volume_name_of {E} {S} v w before uuid h short name =
    let serving = run-IsServing E S w h in
    let (named, small) = v.hostname_bounds w.driver.volume_name_prefix serving.prefix_ok in
    volume_name_bounds w.driver.volume_name_prefix before uuid named small short
      (ap (λ p. volume_name_of p (some (before, uuid))) (sym serving.same_prefix) ∙ name)
