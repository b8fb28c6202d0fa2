-- ===== src/Tests/Publication.antt =====
-- A publication of a volume that is not attached yet, and an unpublication.
use lxd_csi_driver.Base.{false, [], ◌∷◌, some, ok, ◌≡◌, refl}
use lxd_csi_driver.Strings.{Text, codes, is_empty, cut, contains, split, text_eq}
use lxd_csi_driver.Lxd.{Env, Instance}
use lxd_csi_driver.Dict.{lookup}
use lxd_csi_driver.Csi.{PublishVolumeRequest, UnpublishVolumeRequest}
use lxd_csi_driver.Capabilities.{parse_content_type}
use lxd_csi_driver.VolumeId.{VolumeRef, split_rest, cut_member, split_volume_id}
use lxd_csi_driver.Driver.{World, new_driver}
use lxd_csi_driver.Driver.Connect.{dev_lxd_client}
use lxd_csi_driver.Rpc.{done, ◌>>=◌, get_client, get_driver, call, attempt, or_fail, with_lock}
use lxd_csi_driver.Controller.{targeted, or_fail_unless_not_found}
use lxd_csi_driver.Controller.Publish.{
  device_of, existing_volume, attach, publish_locked, controller_publish_volume,
  controller_unpublish_volume,
}
use lxd_csi_driver.Controller.Publish.Unpublished.{
  IsDetached, controller_unpublish_volume-IsDetached,
}
use lxd_csi_driver.Controller.Publish.Done.{IsPublished, controller_publish_volume-IsPublished}
use lxd_csi_driver.Tests.Fake.{fake, connected, connected_driver}
use lxd_csi_driver.Tests.Methods.{answered, mount_capability}
use lxd_csi_driver.Tests.Calls.{stored_ref}

abbrev first_request : PublishVolumeRequest
first_request = record {
  volume_id = codes "default/vol";
  node_id = codes "n1";
  volume_capability = mount_capability;
}

publishes : (controller_publish_volume fake first_request connected).0 ≡ done tt
unfolding new_driver controller_publish_volume publish_locked ◌>>=◌ get_client dev_lxd_client
    split_volume_id split_rest cut_member contains cut split get_driver targeted parse_content_type
    with_lock attempt call or_fail existing_volume attach lookup text_eq
publishes = refl

controller_publish_volume-IsPublished_example :
    (client : Text) × (session after : World fake) × (locks : fake.Locks) × (r : VolumeRef)
    × (dev_lxd_client fake connected ≡ (ok client, session))
    × (split_volume_id (codes "default/vol") ≡ ok r)
    × (is_empty (parse_content_type (mount_capability ∷ [])) ≡ false)
    × (fake.try_lock (codes "default/vol") session.locks ≡ some locks)
    × IsPublished fake
        (targeted fake session.driver client r.cluster_member)
        (codes "n1")
        r
        (parse_content_type (mount_capability ∷ []))
        (record session { locks = locks })
        after
    × ((controller_publish_volume fake first_request connected).1
        ≡ record after { locks = fake.unlock (codes "default/vol") after.locks })
controller_publish_volume-IsPublished_example =
    controller_publish_volume-IsPublished fake first_request connected (answered publishes)

abbrev last_request : UnpublishVolumeRequest
last_request = record { volume_id = codes "default/vol"; node_id = codes "n1" }

unpublishes : (controller_unpublish_volume fake last_request connected).0 ≡ done tt
unfolding new_driver controller_unpublish_volume ◌>>=◌ get_client dev_lxd_client split_volume_id
    split_rest cut_member contains cut split get_driver targeted with_lock attempt call or_fail
    or_fail_unless_not_found
unpublishes = refl

controller_unpublish_volume-IsDetached_example :
    (client : Text) × (session : World fake) × (locks : fake.Locks) × (r : VolumeRef)
    × (dev_lxd_client fake connected ≡ (ok client, session))
    × (split_volume_id (codes "default/vol") ≡ ok r)
    × (fake.try_lock (codes "default/vol") session.locks ≡ some locks)
    × IsDetached fake
        (targeted fake session.driver client r.cluster_member)
        (codes "n1")
        r.vol_name
        session.state
controller_unpublish_volume-IsDetached_example =
    controller_unpublish_volume-IsDetached fake last_request connected (answered unpublishes)

-- The same server where the device of an earlier call is attached.
abbrev attached : Instance
attached = record { devices = (codes "vol", device_of stored_ref (codes "block")) ∷ [] }

abbrev attached_env : Env
attached_env = record fake { get_instance = λ client name s. (ok (attached, codes "etag"), s) }

abbrev attached_world : World attached_env
attached_world = record { driver = connected_driver; locks = λ k. false; state = 0 }
