-- ===== src/Tests/Store.antt =====
-- An LXD that keeps a set of volumes, and a volume that is created and deleted in it.
use lxd_csi_driver.Base.{
  ℕ, true, false, [], Result, ok, err, ◌≡◌, refl, ap, sym, ◌==◌, if◌then◌else◌, Bool-cases, ◌⊎◌,
  inl, inr, arith,
}
use lxd_csi_driver.Strings.{Text, codes, text_eq, cut, contains, split, replace_all, has_prefix}
use lxd_csi_driver.Dict.{lookup, insert}
use lxd_csi_driver.Capabilities.{
  validate_volume_capabilities, check_access_types, parse_content_type,
}
use lxd_csi_driver.Lxd.{Env, StorageVolume}
use lxd_csi_driver.VolumeId.{get_volume_id, split_volume_id, split_rest, cut_member}
use lxd_csi_driver.Driver.{World, new_driver}
use lxd_csi_driver.Driver.Connect.{dev_lxd_client}
use lxd_csi_driver.Rpc.{
  done, bind_next, ◌>>=◌, get_client, get_driver, call, attempt, or_fail, with_lock,
  attempt_operation, wait_on,
}
use lxd_csi_driver.Controller.{custom, short_name, targeted, or_fail_unless_not_found}
use lxd_csi_driver.Controller.Create.{
  create_volume, plan_volume, create_planned, check_absent, make_volume, post_volume, post_of,
  response_of,
}
use lxd_csi_driver.Controller.Create.Request.{
  volume_name_of, volume_name_or_fail, requested_content_type, requested_size, requested_pool,
  has_invalid_parameter, find_driver, driver_or_fail, target_of, first_member, topology_of,
}
use lxd_csi_driver.Controller.Delete.{delete_volume}
use lxd_csi_driver.Controller.Publish.{controller_unpublish_volume}
use lxd_csi_driver.Controller.Store.{IsStore, VolumeSet, add, remove}
use lxd_csi_driver.Controller.Store.Refinement.{
  Changes, Calls, labels, begin, create, delete, unpublish, Calls-Changes,
  delete_volume-create_volume,
}
use lxd_csi_driver.Tests.Fake.{
  server, stored_volume, stored_snapshot, LockTable, take, give_back, url_of, connected_driver,
}
use lxd_csi_driver.Tests.Session.{unpublish_request}
use lxd_csi_driver.Tests.Methods.{create_request, create_response, plain_names, answered}

-- A key is the member, the pool and the name.
abbrev key_of : Text → Text → Text → Text
key_of client pool name = get_volume_id client pool name

abbrev find : Text → VolumeSet → Result ℕ (StorageVolume × Text)
find key vols = if vols key then ok (stored_volume, codes "etag") else err 404

abbrev take_away : Text → VolumeSet → Result ℕ (Unit {0}) × VolumeSet
take_away key vols = if vols key then (ok tt, remove key vols) else (err 404, vols)

abbrev shelf : Env
shelf = record {
  State = VolumeSet;
  Client = Text;
  Operation = Unit;
  Err = ℕ;
  status_error_check = λ e status. e == status;
  is_deadline_exceeded = λ e. e == 1;
  is_canceled = λ e. e == 2;
  read_file = λ name s. (ok (codes "token"), s);
  parse_url = url_of;
  is_socket = λ path s. (ok true, s);
  connect_dev_lxd = λ socket agent token s. (ok [], s);
  use_bearer_token = λ client token. client;
  use_target = λ client member. member;
  get_state = λ client s. (ok server, s);
  get_storage_pool = λ client pool s. (ok (record { driver = codes "zfs" }), s);
  get_storage_pool_volume = λ client pool kind name s. (find (key_of client pool name) s, s);
  get_storage_pool_volume_snapshot = λ client pool kind name snapshot s. (ok stored_snapshot, s);
  create_storage_pool_volume = λ client pool post s. (ok tt, add (key_of client pool post.name) s);
  update_storage_pool_volume = λ client pool kind name put etag s. (ok tt, s);
  delete_storage_pool_volume = λ client pool kind name s. take_away (key_of client pool name) s;
  create_storage_pool_volume_snapshot = λ client pool kind name post s. (ok tt, s);
  delete_storage_pool_volume_snapshot = λ client pool kind name snapshot s. (ok tt, s);
  get_instance = λ client name s. (ok (record { devices = [] }, codes "etag"), s);
  update_instance = λ client name put etag s. (ok tt, s);
  wait_context = λ op s. (ok tt, s);
  Locks = LockTable;
  try_lock = take;
  unlock = give_back;
  held = λ t k. t k;
}

-- Waiting changes nothing.
waited :
    (p : Result ℕ (Unit {0}) × VolumeSet) (w : World shelf) {w' : World shelf}
    {r : Result ℕ (Unit {0})}
    → bind_next (done p.0, record w { state = p.1 }) (wait_on shelf) ≡ (done r, w')
    → p ≡ (r, w'.state)
unfolding wait_on attempt
waited (ok tt, s) w h = ground arith
waited (err e, s) w h = ground arith

ended :
    (op : VolumeSet → Result ℕ (Unit {0}) × VolumeSet) (w : World shelf) {w' : World shelf}
    {r : Result ℕ (Unit {0})}
    → attempt_operation shelf op w ≡ (done r, w')
    → op w.state ≡ (r, w'.state)
unfolding attempt_operation ◌>>=◌ attempt
ended op w h = waited (op w.state) w h

taken :
    (key : Text) (vols : VolumeSet) {r : Result ℕ (Unit {0})} {after : VolumeSet}
    → take_away key vols ≡ (r, after)
    → ((vols key ≡ true) × (r ≡ ok tt) × (after ≡ remove key vols))
      ⊎ ((vols key ≡ false) × (r ≡ err 404) × (after ≡ vols))
taken key vols h = elim (Bool-cases (vols key)) [
  | inl there ↦ let e = rw there at h in inl (there, cc e, cc e)
  | inr gone ↦ let e = rw gone at h in inr (gone, cc e, cc e)
]

shelf-deleted :
    (key k : Text) (vols : VolumeSet) {after : VolumeSet}
    → take_away key vols ≡ (ok tt, after)
    → after k ≡ remove key vols k
shelf-deleted key k vols h = elim (taken key vols h) [
  | inl (there, ok_eq, eq) ↦ ap (λ s. s k) eq
  | inr (gone, err_eq, eq) ↦ let f : ⊥ = cc err_eq in absurd f
]

shelf-not_deleted :
    (key : Text) (vols : VolumeSet) {e : ℕ} {after : VolumeSet}
    → take_away key vols ≡ (err e, after)
    → (vols key ≡ false) × ((k : Text) → after k ≡ vols k)
shelf-not_deleted key vols h = elim (taken key vols h) [
  | inl (there, ok_eq, eq) ↦ let f : ⊥ = cc ok_eq in absurd f
  | inr (gone, err_eq, eq) ↦ (gone, λ k. ap (λ s. s k) eq)
]

shelf-absent :
    (key : Text) (vols : VolumeSet) {r : Result ℕ (StorageVolume × Text) × VolumeSet} {e : ℕ}
    {after : VolumeSet}
    → r ≡ (find key vols, vols)
    → r ≡ (err e, after)
    → vols key ≡ false
shelf-absent key vols q h = elim (Bool-cases (vols key)) [
  | inl there ↦ let f : ⊥ = cc (rw there at q, h) in absurd f
  | inr gone ↦ gone
]

shelf-IsStore : IsStore shelf
unfolding attempt_operation ◌>>=◌ attempt wait_on
shelf-IsStore = record {
  key = key_of;
  volumes = λ s. s;
  reads = record {
    connects = record {
      read_file = λ path s. refl;
      is_socket = λ path s. refl;
      connect_dev_lxd = λ socket agent token s. refl;
      get_state = λ client s. refl;
    };
    get_pool = λ client pool. record { of = λ s. refl };
    get_volume = λ client pool kind name. record { of = λ s. refl };
    get_snapshot = λ client pool kind name snapshot. record { of = λ s. refl };
  };
  updates = record {
    create_snapshot = λ client pool kind name post. record { at = λ w. refl };
    delete_snapshot = λ client pool kind name snapshot. record { at = λ w. refl };
    update_volume = λ client pool kind name put etag. record { at = λ w. refl };
    get_instance = λ client name. record { of = λ s. refl };
    update_instance = λ client name put etag. record { of = λ s. refl };
  };
  absent = λ client pool name s h not_found. shelf-absent (key_of client pool name) s refl h;
  created = λ client pool post w h k.
      ap (λ x. x.1 k) (sym (ended (shelf.create_storage_pool_volume client pool post) w h));
  deleted = λ client pool name w h k.
      shelf-deleted (key_of client pool name) k w.state
        (ended (shelf.delete_storage_pool_volume client pool custom name) w h);
  not_deleted = λ client pool name w h not_found.
      shelf-not_deleted (key_of client pool name) w.state
        (ended (shelf.delete_storage_pool_volume client pool custom name) w h);
}

-- A connected controller, and an LXD with one volume.
abbrev first : World shelf
first = record {
  driver = connected_driver;
  locks = λ k. false;
  state = λ k. text_eq k (codes "default/other");
}

creates : (create_volume shelf create_request first).0 ≡ done create_response
unfolding new_driver create_volume ◌>>=◌ get_client dev_lxd_client get_driver plan_volume
    volume_name_of short_name cut replace_all volume_name_or_fail requested_content_type
    validate_volume_capabilities check_access_types parse_content_type requested_size requested_pool
    lookup has_invalid_parameter has_prefix call attempt or_fail find_driver driver_or_fail
    target_of first_member with_lock targeted create_planned check_absent make_volume post_volume
    attempt_operation wait_on post_of response_of insert topology_of get_volume_id text_eq
creates = refl

abbrev second : World shelf
second = (create_volume shelf create_request first).1

deletes : (delete_volume shelf create_response.volume_id second).0 ≡ done tt
unfolding new_driver create_volume ◌>>=◌ get_client dev_lxd_client get_driver plan_volume
    volume_name_of short_name cut replace_all volume_name_or_fail requested_content_type
    validate_volume_capabilities check_access_types parse_content_type requested_size requested_pool
    lookup has_invalid_parameter has_prefix call attempt or_fail find_driver driver_or_fail
    target_of first_member with_lock targeted create_planned check_absent make_volume post_volume
    attempt_operation wait_on post_of response_of insert topology_of get_volume_id text_eq
    delete_volume split_volume_id split_rest cut_member contains split or_fail_unless_not_found
deletes = refl

abbrev third : World shelf
third = (delete_volume shelf create_response.volume_id second).1

delete_volume-create_volume_example :
    shelf-IsStore.volumes third.state ≡ shelf-IsStore.volumes first.state
unfolding new_driver
delete_volume-create_volume_example =
    delete_volume-create_volume shelf-IsStore create_request first plain_names (answered creates)
      (answered deletes)

-- An unpublication follows.
abbrev fourth : World shelf
fourth = (controller_unpublish_volume shelf unpublish_request third).1

calls : Calls first fourth
unfolding new_driver
calls = unpublish unpublish_request (
    delete create_response.volume_id
      (create create_request create_response begin plain_names (answered creates))
      (answered deletes))

Calls-Changes_example :
    Changes shelf-IsStore
      (labels calls)
      (shelf-IsStore.volumes first.state)
      (shelf-IsStore.volumes fourth.state)
Calls-Changes_example = Calls-Changes shelf-IsStore calls
