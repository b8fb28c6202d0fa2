-- ===== src/Controller/Store.antt =====
-- The volumes of LXD as a set, and what LXD documents of the calls that read and change it.
pub mod Reading
pub mod Others
pub mod Session
pub mod Adding
pub mod Removing
pub mod Refinement
use lxd_csi_driver.Base.{Bool, true, false, not, ◌&&◌, ◌||◌, ok, err, ◌≡◌}
use lxd_csi_driver.Strings.{Text, text_eq}
use lxd_csi_driver.Lxd.{Env, VolumesPost}
use lxd_csi_driver.Driver.{World}
use lxd_csi_driver.Rpc.{done, attempt_operation}
use lxd_csi_driver.Controller.{custom, is_not_found}
use Reading.{ReadsLeave}
use Others.{UpdatesLeave}

-- A set of keys, each of which names one volume.
abbrev pub VolumeSet : Type 0
VolumeSet = Text → Bool

abbrev pub add : Text → VolumeSet → VolumeSet
add key vols k = text_eq key k || vols k

abbrev pub remove : Text → VolumeSet → VolumeSet
remove key vols k = not (text_eq key k) && vols k

-- LXD keeps a set of volumes. `key` names the volume that a client reaches by a pool and a name. A
-- request to create or delete a volume that ended without an error did so, an answer that there is no
-- such volume is true, and a request that reads, or is about snapshots, instances or the
-- configuration of a volume, leaves the set.
pub record IsStore (E : Env) : Type 0 where
  pub key : E.Client → Text → Text → Text
  pub volumes : E.State → VolumeSet
  pub reads : ReadsLeave E volumes
  pub updates : UpdatesLeave E volumes
  pub absent :
      (client : E.Client) (pool name : Text) (s : E.State) {s' : E.State} {e : E.Err}
      → E.get_storage_pool_volume client pool custom name s ≡ (err e, s')
      → is_not_found E e ≡ true
      → volumes s (key client pool name) ≡ false
  pub created :
      (client : E.Client) (pool : Text) (post : VolumesPost) (w : World E) {w' : World E}
      → attempt_operation E (E.create_storage_pool_volume client pool post) w ≡ (done (ok tt), w')
      → (k : Text) → volumes w'.state k ≡ add (key client pool post.name) (volumes w.state) k
  pub deleted :
      (client : E.Client) (pool name : Text) (w : World E) {w' : World E}
      → attempt_operation E (E.delete_storage_pool_volume client pool custom name) w
        ≡ (done (ok tt), w')
      → (k : Text) → volumes w'.state k ≡ remove (key client pool name) (volumes w.state) k
  pub not_deleted :
      (client : E.Client) (pool name : Text) (w : World E) {w' : World E} {e : E.Err}
      → attempt_operation E (E.delete_storage_pool_volume client pool custom name) w
        ≡ (done (err e), w')
      → is_not_found E e ≡ true
      → (volumes w.state (key client pool name) ≡ false)
        × ((k : Text) → volumes w'.state k ≡ volumes w.state k)
