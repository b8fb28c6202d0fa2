-- ===== src/Controller/Store/Adding.antt =====
-- What `CreateVolume` (internal/driver/controller.go) adds to the volumes of LXD.
use lxd_csi_driver.Base.{false, Option, none, some, ok, ◌≡◌, sym, ap, ◌∙◌}
use mathlib.Core.Path.{subst}
use lxd_csi_driver.Strings.{Text}
use lxd_csi_driver.Dict.{Dict}
use lxd_csi_driver.Csi.{ContentSource, CreateVolumeRequest, CreateVolumeResponse}
use lxd_csi_driver.Lxd.{Env}
use lxd_csi_driver.VolumeId.{VolumeRef, split_volume_id}
use lxd_csi_driver.VolumeId.RoundTrip.{split_volume_id-get_volume_id}
use lxd_csi_driver.Driver.{Driver, World}
use lxd_csi_driver.Driver.Connect.{cached}
use lxd_csi_driver.Driver.Connect.Session.{dev_lxd_client-prefix}
use lxd_csi_driver.Rpc.{done}
use lxd_csi_driver.Rpc.Retains.{Retains-Runs, attempt-Retains}
use lxd_csi_driver.Rpc.Invert.{
  Runs, bind-Runs, pure-Runs, attempt-Runs, get_client-Runs, get_driver-Runs, with_lock-Runs,
}
use lxd_csi_driver.Controller.{targeted}
use lxd_csi_driver.Controller.Steps.{plan_volume-Keeps, create_planned-Keeps}
use lxd_csi_driver.Controller.Create.{
  Plan, post_of, make_volume, create_planned, create_volume, plan_volume, response_of,
}
use lxd_csi_driver.Controller.Create.Planning.{plan_volume-IsPlan}
use lxd_csi_driver.Controller.Create.Posting.{check_absent-Runs, post_volume-Runs}
use lxd_csi_driver.Controller.Create.Ids.{HasPlainNames, plan-IsSeparable, create_planned-Runs}
use lxd_csi_driver.Controller.Store.{IsStore, add}
use lxd_csi_driver.Controller.Store.Reading.{
  plan_volume-Retains, check_absent-Retains, source_of-Retains,
}
use lxd_csi_driver.Controller.Store.Session.{
  Reaches, driver_view, Keeps-Runs, cached_of_session, volumes-session,
}

module _ {E : Env} (I : IsStore E) where
  -- A request for a volume adds its key to the volumes that the steps before it left.
  make_volume-adds :
      (d : Driver E.Client) (client : E.Client) (p : Plan) (parameters : Dict Text)
      (source : Option ContentSource) {w w' : World E} {u : Unit {0}}
      → Runs (make_volume E d client p parameters source) w u w'
      → (k : Text)
      → I.volumes w'.state k ≡ add (I.key client p.pool_name p.vol_name) (I.volumes w.state) k
  unfolding make_volume post_of
  make_volume-adds d client p parameters none {w} h k =
      I.created client p.pool_name (post_of p parameters none) w
        (post_volume-Runs E client p (post_of p parameters none) _ h) k
  make_volume-adds d client p parameters (some source) {w} {w'} h k =
      let (copy, w1, p1, h1) = bind-Runs h in
      let post = post_of p parameters (some copy) in
      I.created client p.pool_name post w1 (post_volume-Runs E client p post _ h1) k
      ∙ ap (λ vols. add (I.key client p.pool_name p.vol_name) vols k)
          (Retains-Runs I.volumes
            (source_of-Retains I.volumes I.reads d client p.content_type p.size source) p1)

  -- The part under the lock adds a key that was not there.
  create_planned-adds :
      (d : Driver E.Client) (client : E.Client) (p : Plan) (req : CreateVolumeRequest)
      {w w' : World E} {resp : CreateVolumeResponse}
      → Runs (create_planned E d client p req) w resp w'
      → (I.volumes w.state (I.key client p.pool_name p.vol_name) ≡ false)
        × ((k : Text)
            → I.volumes w'.state k
              ≡ add (I.key client p.pool_name p.vol_name) (I.volumes w.state) k)
  unfolding create_planned
  create_planned-adds d client p req {w} {w'} h =
      let (found, w1, p1, h1) = bind-Runs h in
      let (_, w2, p2, h2) = bind-Runs h1 in
      let (_, w3, p3, h3) = bind-Runs h2 in
      let (e, found_eq, gone) = check_absent-Runs E found p2 in
      let key = I.key client p.pool_name p.vol_name in
      let same : I.volumes w2.state ≡ I.volumes w.state =
        Retains-Runs I.volumes (check_absent-Retains I.volumes found) p2
        ∙ Retains-Runs I.volumes
            (attempt-Retains I.volumes ((I.reads).get_volume client p.pool_name _ p.vol_name)) p1 in
      (
        I.absent client p.pool_name p.vol_name w.state
            (attempt-Runs _ w p1 ∙ ap (λ r. (r, w1.state)) found_eq) gone,
        λ k.
            ap (λ (v : World E). I.volumes v.state k) (pure-Runs h3).1
            ∙ make_volume-adds d client p req.parameters req.volume_content_source p3 k
            ∙ ap (λ vols. add key vols k) same,
      )

  abbrev ref_of : Plan → VolumeRef
  ref_of p = record { cluster_member = p.target; pool_name = p.pool_name; vol_name = p.vol_name }

  -- The answer's ID splits into what was planned.
  create_planned-split :
      (d : Driver E.Client) (client client' : E.Client) (p : Plan) (req : CreateVolumeRequest)
      {v v' w w' : World E} {resp : CreateVolumeResponse}
      → HasPlainNames d.volume_name_prefix req
      → Runs (plan_volume E d client req) v p v'
      → Runs (create_planned E d client' p req) w resp w'
      → split_volume_id resp.volume_id ≡ ok (ref_of p)
  unfolding response_of
  create_planned-split d client client' p req plain planned h =
      ap (λ (x : CreateVolumeResponse). split_volume_id x.volume_id)
        (create_planned-Runs E d client' p req h)
      ∙ split_volume_id-get_volume_id p.target p.pool_name p.vol_name
          (plan-IsSeparable d req p plain (plan_volume-IsPlan E d client req planned))

  -- The volume of an ID was not there, and is there now; all others are as they were.
  pub record IsAdded (w w' : World E) (id : Text) : Type 0 where
    pub ref : VolumeRef
    pub split : split_volume_id id ≡ ok ref
    pub key : Text
    pub reaches : Reaches I w'.driver ref key
    pub absent : I.volumes w.state key ≡ false
    pub now : (k : Text) → I.volumes w'.state k ≡ add key (I.volumes w.state) k

  -- A successful CreateVolume adds to the volumes of LXD the one that the driver reaches by the ID of the
  -- answer, which was not there before, and no other.
  pub create_volume-IsAdded :
      (req : CreateVolumeRequest) (w : World E) {w' : World E} {resp : CreateVolumeResponse}
      → HasPlainNames w.driver.volume_name_prefix req
      → create_volume E req w ≡ (done resp, w')
      → IsAdded w w' resp.volume_id
  unfolding create_volume
  create_volume-IsAdded req w {w'} {resp} plain h =
      let h0 : Runs (create_volume E req) w resp w' = record { run = h } in
      let (client, w1, p1, h1) = bind-Runs h0 in
      let (d, w2, p2, h2) = bind-Runs h1 in
      let (p, w3, p3, h3) = bind-Runs h2 in
      let (t, v, _, h4, last) = with_lock-Runs _ _ _ w3 h3 in
      let session = get_client-Runs _ w p1 in
      let (d_eq, same2) = get_driver-Runs w1 p2 in
      let client' = targeted E d client p.target in
      let (absent, now) = create_planned-adds d client' p req h4 in
      let vols : I.volumes w3.state ≡ I.volumes w.state =
        Retains-Runs I.volumes (plan_volume-Retains I.volumes I.reads d client req) p3
        ∙ ap (λ (x : World E). I.volumes x.state) same2
        ∙ volumes-session I w session in
      let driver_eq : w'.driver ≡ d =
        ap (λ (x : World E). x.driver) last
        ∙ Keeps-Runs driver_view (create_planned-Keeps driver_view d client' p req) h4
        ∙ Keeps-Runs driver_view (plan_volume-Keeps driver_view d client req) p3
        ∙ ap (λ (x : World E). x.driver) same2
        ∙ sym d_eq in
      let plain' : HasPlainNames d.volume_name_prefix req =
        subst (λ prefix. HasPlainNames prefix req)
          (sym (ap (λ x. x.volume_name_prefix) d_eq ∙ dev_lxd_client-prefix E w session)) plain in
      record {
        ref = ref_of p;
        split = create_planned-split d client client' p req plain' p3 h4;
        key = I.key client' p.pool_name p.vol_name;
        reaches = record {
          client = client;
          at_hand = ap (cached E) (driver_eq ∙ d_eq) ∙ cached_of_session w session;
          key_eq =
              ap (λ x. I.key (targeted E x client p.target) p.pool_name p.vol_name) (sym driver_eq);
        };
        absent = ap (λ vols. vols (I.key client' p.pool_name p.vol_name)) (sym vols) ∙ absent;
        now = λ k.
            ap (λ (x : World E). I.volumes x.state k) last
            ∙ now k
            ∙ ap (λ vols. add (I.key client' p.pool_name p.vol_name) vols k) vols;
      }
