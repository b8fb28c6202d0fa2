-- ===== src/Controller/Expand/Laws.antt =====
-- What `ControllerExpandVolume` (internal/driver/controller.go) asks of LXD and answers.
use lxd_csi_driver.Base.{
  false, Option, none, some, ok, ◌≡◌, refl, arith, ap, sym, ◌∙◌, if◌then◌else◌, ℤ, ltb_ℤ, eqb_ℤ,
  ◌≤ℤ◌, ◌⊎◌, Bool-cases, inl, inr,
}
use mathlib.Core.Path.{ap₂}
use lxd_csi_driver.Strings.{Text, text_eq}
use lxd_csi_driver.Strings.Equality.{text_eq_refl}
use lxd_csi_driver.Strconv.{parse_int, format_int}
use lxd_csi_driver.Strconv.RoundTrip.{IsInt64, parse_int-format_int}
use lxd_csi_driver.Dict.{lookup, get, lookup-insert}
use lxd_csi_driver.Csi.{CapacityRange, ExpandVolumeRequest, ExpandVolumeResponse, invalid_argument}
use lxd_csi_driver.Lxd.{Env, StorageVolume}
use lxd_csi_driver.VolumeId.{VolumeRef, split_volume_id}
use lxd_csi_driver.Driver.{Driver, World}
use lxd_csi_driver.Driver.Connect.{dev_lxd_client}
use lxd_csi_driver.Rpc.{done, failed, attempt_operation}
use lxd_csi_driver.Rpc.Invert.{
  Runs, bind-Runs, pure-Runs, reject_if-Runs, or_status-Runs, or_fail-Runs, call-Runs,
  get_driver-Runs, get_client-Runs, with_lock-Runs,
}
use lxd_csi_driver.Controller.{custom, size_key, targeted}
use lxd_csi_driver.Controller.Expand.{
  resized, size_or_fail, required_bytes, update_size, resize, controller_expand_volume,
}

-- The request for LXD keeps the description and every key of the configuration but the size, which
-- reads back as the requested one if that is an `int64`.
pub resized_lem :
    (vol : StorageVolume) (size : ℤ) (k : Text)
    → IsInt64 size
    → ((resized vol size).description ≡ vol.description)
      × (parse_int (get size_key (resized vol size).config) ≡ some size)
      × (lookup k (resized vol size).config
          ≡ (if text_eq size_key k then some (format_int size) else lookup k vol.config))
unfolding resized
resized_lem vol size k h = (
  refl,
  rw (lookup-insert size_key size_key (format_int size) vol.config, text_eq_refl size_key)
      (parse_int-format_int size h),
  lookup-insert size_key k (format_int size) vol.config,
)

module _ (E : Env) where
  -- A size that is not larger changes nothing: the same size is answered with success, a smaller one
  -- is refused as an invalid argument, and LXD is not called.
  pub resize_not_larger :
      (client : E.Client) (r : VolumeRef) (vol : StorageVolume) (etag : Text) (old new : ℤ)
      (w : World E)
      → new ≤ℤ old
      → resize E client r (vol, etag) old new w ≡ (
        (if eqb_ℤ new old
            then done (record { capacity_bytes = new; node_expansion_required = false })
            else failed invalid_argument
                "ExpandVolume: Requested size %q is less than the current size %q"),
        w,
      )
  unfolding resize
  resize_not_larger client r vol etag old new w h = ground arith

  -- LXD was asked to update the volume, as it was returned, to the size, and did.
  abbrev pub IsUpdated :
      E.Client → VolumeRef → StorageVolume × Text → ℤ → World E → World E → Type 0
  IsUpdated client r (vol, etag) size w w' =
      attempt_operation E
        (E.update_storage_pool_volume client r.pool_name custom r.vol_name (resized vol size) etag)
        w
      ≡ (done (ok tt), w')

  update_size-done :
      (client : E.Client) (r : VolumeRef) (vol : StorageVolume) (etag : Text) (new : ℤ)
      (w : World E) {w' : World E} {resp : ExpandVolumeResponse}
      → update_size E client r vol etag new w ≡ (done resp, w')
      → (resp.capacity_bytes ≡ new) × IsUpdated client r (vol, etag) new w w'
  unfolding update_size
  update_size-done client r vol etag new w {w'} {resp} h =
      let h0 : Runs (update_size E client r vol etag new) w resp w' = record { run = h } in
      let (updated, w1, p, h1) = bind-Runs h0 in
      let (u, w2, q, h2) = bind-Runs h1 in
      let (resp_eq, last) = pure-Runs h2 in
      let (updated_ok, same) = or_fail-Runs _ updated w1 q in
      (
        ap (λ (x : ExpandVolumeResponse). x.capacity_bytes) resp_eq,
        p.run ∙ ap₂ (λ r (v : World E). (done r, v)) updated_ok (sym (last ∙ same)),
      )

  resize-done :
      (client : E.Client) (r : VolumeRef) (vol : StorageVolume) (etag : Text) (old new : ℤ)
      (w : World E) {w' : World E} {resp : ExpandVolumeResponse}
      → resize E client r (vol, etag) old new w ≡ (done resp, w')
      → (old ≤ℤ new)
        × (resp.capacity_bytes ≡ new)
        × (((old ≡ new) × (w' ≡ w)) ⊎ IsUpdated client r (vol, etag) new w w')
  unfolding resize
  resize-done client r vol etag old new w {w'} {resp} h = elim (Bool-cases (ltb_ℤ new old)) [
    | inl smaller ↦ let e : ⊥ = cc (rw (smaller, resize) at h) in absurd e
    | inr fits ↦ elim (Bool-cases (eqb_ℤ new old)) [
      | inl same ↦
          let e = rw (fits, same, resize) at h in (ground arith, cc, inl (ground arith, cc))
      | inr other ↦
          let (resp_eq, updated) =
            update_size-done client r vol etag new w (rw (fits, other, resize) at h) in
          (ground arith, resp_eq, inr updated)
    ]
  ]

  -- What an answer goes back to: the volume that LXD returned for the ID, its size, and the size
  -- that was asked for.
  pub record IsExpansion (w w' : World E) (req : ExpandVolumeRequest) (resp : ExpandVolumeResponse)
      : Type 0 where
    pub client : E.Client
    pub session : World E
    pub vol_ref : VolumeRef
    pub after : E.State
    pub vol : StorageVolume
    pub etag : Text
    pub old_size : ℤ
    pub range : CapacityRange
    pub client_eq : dev_lxd_client E w ≡ (ok client, session)
    pub id_eq : split_volume_id req.volume_id ≡ ok vol_ref
    pub vol_eq :
        E.get_storage_pool_volume
          (targeted E session.driver client vol_ref.cluster_member)
          vol_ref.pool_name
          custom
          vol_ref.vol_name
          session.state
        ≡ (ok (vol, etag), after)
    pub old_size_eq : parse_int (get size_key vol.config) ≡ some old_size
    pub range_eq : req.capacity_range ≡ some range
    pub never_smaller : old_size ≤ℤ range.required_bytes
    pub capacity_eq : resp.capacity_bytes ≡ range.required_bytes
    pub updating : World E
    pub ended : World E
    pub updating_eq : updating.state ≡ after
    pub sent :
        ((old_size ≡ range.required_bytes) × (ended ≡ updating))
        ⊎ IsUpdated
            (targeted E session.driver client vol_ref.cluster_member)
            vol_ref
            (vol, etag)
            range.required_bytes
            updating
            ended
    pub ended_eq : w' ≡ record ended { locks = E.unlock req.volume_id ended.locks }

  size_or_fail-Runs :
      (o : Option ℤ) (w : World E) {w' : World E} {n : ℤ}
      → Runs (size_or_fail E o) w n w'
      → (o ≡ some n) × (w' ≡ w)
  unfolding size_or_fail
  size_or_fail-Runs none w h = cc (h.run)
  size_or_fail-Runs (some n) w h = (cc (h.run), cc (h.run))

  required_bytes-Runs :
      (o : Option CapacityRange) (w : World E) {w' : World E} {n : ℤ}
      → Runs (required_bytes E o) w n w'
      → (range : CapacityRange) × (o ≡ some range) × (range.required_bytes ≡ n) × (w' ≡ w)
  unfolding required_bytes
  required_bytes-Runs none w h = cc (h.run)
  required_bytes-Runs (some range) w h = (range, refl, cc (h.run), cc (h.run))

  -- What was sent, told with the required bytes and the session's driver.
  sent-at :
      (client : E.Client) (r : VolumeRef) (vol : StorageVolume) (etag : Text) {old new size : ℤ}
      {d d' : Driver E.Client}
      → size ≡ new
      → d ≡ d'
      → (w w' : World E)
      → ((old ≡ new) × (w' ≡ w))
        ⊎ IsUpdated (targeted E d client r.cluster_member) r (vol, etag) new w w'
      → ((old ≡ size) × (w' ≡ w))
        ⊎ IsUpdated (targeted E d' client r.cluster_member) r (vol, etag) size w w'
  sent-at client r vol etag e f w w' (inl (same, kept)) = inl (same ∙ sym e, kept)
  sent-at client r vol etag e f w w' (inr updated) = inr (
      ap₂
        (λ n d.
          attempt_operation E
            (E.update_storage_pool_volume (targeted E d client r.cluster_member) r.pool_name custom
              r.vol_name (resized vol n) etag)
            w)
        e (sym f)
      ∙ updated)

  -- An answer of success goes back to a volume that LXD, asked on the cluster member of the ID, returned
  -- for the pool and the name of the ID, and whose size is a number. The request had a capacity range;
  -- the answer names its required bytes, and they are not fewer than the size of that volume. They are that
  -- size, and nothing more was done, or LXD was asked to update that volume, as it was returned, to a size of
  -- the required bytes, and did.
  pub controller_expand_volume-done :
      (req : ExpandVolumeRequest) (w : World E) {w' : World E} {resp : ExpandVolumeResponse}
      → controller_expand_volume E req w ≡ (done resp, w')
      → IsExpansion w w' req resp
  unfolding controller_expand_volume
  controller_expand_volume-done req w {w'} {resp} h =
      let h0 : Runs (controller_expand_volume E req) w resp w' = record { run = h } in
      let (client, w1, p1, h1) = bind-Runs h0 in
      let (r, w2, p2, h2) = bind-Runs h1 in
      let (d, w3, p3, h3) = bind-Runs h2 in
      let (u, w4, p4, h4) = bind-Runs h3 in
      let (t, v, taken, h5, last) = with_lock-Runs _ _ _ _ h4 in
      let ((vol, etag), w6, p6, h6) = bind-Runs h5 in
      let (u', w7, p7, h7) = bind-Runs h6 in
      let (old, w8, p8, h8) = bind-Runs h7 in
      let (new, w9, p9, h9) = bind-Runs h8 in
      let (r_eq, e2) = or_status-Runs _ _ _ w1 p2 in
      let (d_eq, e3) = get_driver-Runs w2 p3 in
      let (answered, _) = call-Runs _ _ _ p6 in
      let (range, range_eq, new_eq, e9) = required_bytes-Runs req.capacity_range w8 p9 in
      let (fits, size_eq, sent) = resize-done _ r vol etag old new w9 h9.run in
      let (_, e4) = reject_if-Runs _ _ _ w3 p4 in
      let (_, e7) = reject_if-Runs _ _ _ w6 p7 in
      let (old_eq, e8) = size_or_fail-Runs _ w7 p8 in
      let same : w4.state ≡ w1.state = ap (λ (v : World E). v.state) (e4 ∙ e3 ∙ e2) in
      let d_eq' : d ≡ w1.driver = d_eq ∙ ap (λ (v : World E). v.driver) e2 in
      record {
        client = client;
        session = w1;
        vol_ref = r;
        after = w6.state;
        vol = vol;
        etag = etag;
        old_size = old;
        range = range;
        client_eq = get_client-Runs _ w p1;
        id_eq = r_eq;
        vol_eq =
            ap₂
              (λ d s.
                E.get_storage_pool_volume (targeted E d client r.cluster_member) r.pool_name custom
                  r.vol_name s)
              (sym d_eq') (sym same)
            ∙ answered;
        old_size_eq = old_eq;
        range_eq = range_eq;
        never_smaller = rw new_eq fits;
        capacity_eq = size_eq ∙ sym new_eq;
        updating = w9;
        ended = v;
        updating_eq = ap (λ (x : World E). x.state) (e9 ∙ e8 ∙ e7);
        sent = sent-at client r vol etag new_eq d_eq' w9 v sent;
        ended_eq = last;
      }
