-- ===== src/Rpc/Exclusion.antt =====
-- `locking.TryLock` at the head of a method, where the lock is held.
use lxd_csi_driver.Base.{true, String, ◌≡◌, refl}
use lxd_csi_driver.Strings.{Text}
use lxd_csi_driver.Csi.{aborted}
use lxd_csi_driver.Lxd.{Env, IsLocking}
use lxd_csi_driver.Driver.{World}
use lxd_csi_driver.Rpc.{failed, Rpc, with_lock}

module _ {E : Env} (L : IsLocking E) where
  -- While a lock is held, the part of a method that needs it is not run: the answer is "aborted", and
  -- the driver, the locks and the environment stay as they were.
  pub with_lock_held :
      {A : Type 0} (k : Text) (m : String) (body : Rpc E A) (w : World E)
      → E.held w.locks k ≡ true
      → with_lock E k m body w ≡ (failed aborted m, w)
  unfolding with_lock
  with_lock_held k m body w h = rw ((L.try_lock-none k w.locks).1 h, with_lock) refl
