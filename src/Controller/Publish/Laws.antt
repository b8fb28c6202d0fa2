-- ===== src/Controller/Publish/Laws.antt =====
-- The device that `ControllerPublishVolume` (internal/driver/controller.go) attaches.
use lxd_csi_driver.Base.{false, ◌≡◌, ap, ◌↔◌, arith}
use lxd_csi_driver.Strings.{Text, codes}
use lxd_csi_driver.Strings.Equality.{text_eq_iff}
use lxd_csi_driver.Dict.{Dict, get}
use lxd_csi_driver.VolumeId.{VolumeRef}
use lxd_csi_driver.Rpc.{Outcome, done, Rpc, bind_next, ◌>>=◌}
use lxd_csi_driver.Controller.Publish.{mismatches}

-- A device matches exactly if it is a disk with the volume as its source, in the volume's pool.
pub mismatches_iff :
    (r : VolumeRef) (dev : Dict Text)
    → (mismatches r dev ≡ false) ↔ (
        (get (codes "type") dev ≡ codes "disk")
        × (get (codes "source") dev ≡ r.vol_name)
        × (get (codes "pool") dev ≡ r.pool_name))
unfolding mismatches
mismatches_iff r dev = ground (
  arith,
  text_eq_iff (get (codes "type") dev) (codes "disk"),
  text_eq_iff (get (codes "source") dev) r.vol_name,
  text_eq_iff (get (codes "pool") dev) r.pool_name,
)

-- A step that answered hands its answer to the rest.
bind-done :
    {W A B : Type 0} (m : W → Outcome A × W) (k : A → W → Outcome B × W) {w v : W} {a : A}
    → m w ≡ (done a, v)
    → (m >>= k) w ≡ k a v
unfolding ◌>>=◌
bind-done m k h = ap (λ r. bind_next r k) h
