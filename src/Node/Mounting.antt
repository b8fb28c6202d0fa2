-- ===== src/Node/Mounting.antt =====
-- What `NodePublishVolume` (internal/driver/node.go) has done when it succeeds.
use Prim.Native.Nat.{bit_or}
use mathlib.Core.Path.{subst}
use lxd_csi_driver.Base.{
  Bool, true, false, String, List, [], ◌∷◌, ◌++◌, Option, none, some, Result, ok, err, ◌≡◌, ◌⊎◌,
  inl, inr, refl, sym, ap, ◌∙◌, arith, append-nil,
}
use lxd_csi_driver.Strings.{Text, codes}
use lxd_csi_driver.Csi.{Code, AccessType, unset, block, mount}
use lxd_csi_driver.Capabilities.{
  validate_volume_capabilities, parse_content_type, access_of, CapabilityError,
}
use lxd_csi_driver.VolumeId.{VolumeRef, split_volume_id}
use lxd_csi_driver.Host.{Host}
use lxd_csi_driver.Rpc.{done}
use lxd_csi_driver.Rpc.Invert.{Runs, bind-Runs, pure-Runs, or_status-Runs, reject_if-Runs}
use lxd_csi_driver.Fs
use lxd_csi_driver.Fs.{
  FsError, Step, is_mount_point, ms_bind, ms_rdonly, ms_remount, ms_rec, ms_slave,
}
use lxd_csi_driver.Fs.Mounting.{IsMounted, mount-IsMounted, IsBinding, remount_if-readonly}
use lxd_csi_driver.Node.{
  NodePublishVolumeRequest, check_capabilities, step_or_fail, as_outcome, require, source_of,
  bind_options, mount_source, mount_unless, node_publish_volume,
}

module _ (H : Host) where
  as_outcome-done :
      {A : Type 0} (c : Code) (m : String) (r : Result (FsError H.Err) A × H.State) {a : A}
      {s' : H.State}
      → as_outcome H c m r ≡ (done a, s')
      → r ≡ (ok a, s')
  as_outcome-done c m (ok a, s) h = ground arith
  as_outcome-done c m (err e, s) h = cc

  step_or_fail-Runs :
      {A : Type 0} (c : Code) (m : String) (step : Step H A) {s s' : H.State} {a : A}
      → Runs (step_or_fail H c m step) s a s'
      → step s ≡ (ok a, s')
  unfolding step_or_fail
  step_or_fail-Runs c m step {s} h = as_outcome-done c m (step s) h.run

  check_capabilities-Runs :
      (o : Option CapabilityError) {s s' : H.State} {u : Unit {0}}
      → Runs (check_capabilities H o) s u s'
      → (o ≡ none) × (s' ≡ s)
  check_capabilities-Runs none h = (refl, (pure-Runs h).1)
  check_capabilities-Runs (some e) h = cc (h.run)

  require-done :
      {A : Type 0} (a : A) (r : Bool × H.State) {b : A} {s' : H.State}
      → require H a r ≡ (done b, s')
      → b ≡ a
  require-done a (true, s) h = cc
  require-done a (false, s) h = cc

  -- The options of the mount are those of the request's mode, and then the flags of its capability.
  source_of-options :
      (vol_name : Text) (options : List Text) (access : AccessType) {source : Text × List Text}
      {s s' : H.State}
      → Runs (source_of H vol_name options access) s source s'
      → (flags : List Text) × (source.1 ≡ options ++ flags)
  unfolding source_of
  source_of-options vol_name options unset h = cc (h.run)
  source_of-options vol_name options block h =
      let (_, s1, p1, h1) = bind-Runs h in
      ([], ap (λ x. x.1) (pure-Runs h1).0 ∙ sym (append-nil options))
  source_of-options vol_name options (mount m) {s} h =
      (m.mount_flags, ap (λ x. x.1) (require-done _ (Fs.path_exists H _ s) h.run))

  -- The volume was mounted from the source that its access type gives.
  pub record IsPublished (req : NodePublishVolumeRequest) (r : VolumeRef) (s s' : H.State)
      : Type 0 where
    pub source : Text
    pub options : List Text
    pub found : H.State
    pub source_eq :
        source_of H r.vol_name (bind_options req.readonly) (access_of req.volume_capability) s
        ≡ (done (source, options), found)
    pub mounted :
        IsMounted H source req.target_path
          (parse_content_type (req.volume_capability ∷ []))
          options
          found
          s'

  mount_unless-Runs :
      (mounted : Bool) (req : NodePublishVolumeRequest) (r : VolumeRef) {s s' : H.State}
      {u : Unit {0}}
      → Runs
          (mount_unless H mounted r.vol_name req.target_path
            (parse_content_type (req.volume_capability ∷ []))
            (bind_options req.readonly)
            (access_of req.volume_capability))
          s
          u
          s'
      → ((mounted ≡ true) × (s' ≡ s)) ⊎ ((mounted ≡ false) × IsPublished req r s s')
  unfolding mount_unless mount_source
  mount_unless-Runs true req r h = inl (refl, (pure-Runs h).1)
  mount_unless-Runs false req r h =
      let (source, s1, p1, h1) = bind-Runs h in
      inr (
        refl,
        record {
          source = source.0;
          options = source.1;
          found = s1;
          source_eq = p1.run;
          mounted =
              mount-IsMounted H source.0 req.target_path _ source.1 (step_or_fail-Runs _ _ _ h1);
        },
      )

  pub node_publish_volume-done :
      (req : NodePublishVolumeRequest) (s : H.State) {s' : H.State} {u : Unit {0}}
      → node_publish_volume H req s ≡ (done u, s')
      → (validate_volume_capabilities (req.volume_capability ∷ []) ≡ none)
        × (r : VolumeRef) × (split_volume_id req.volume_id ≡ ok r)
        × (mounted : Bool) × (checked : H.State) × (is_mount_point H req.target_path s
            ≡ (ok mounted, checked))
        × (((mounted ≡ true) × (s' ≡ checked)) ⊎ ((mounted ≡ false) × IsPublished req r checked s'))
  unfolding node_publish_volume
  node_publish_volume-done req s {s'} {u} h =
      let h0 : Runs (node_publish_volume H req) s u s' = record { run = h } in
      let (_, s1, p1, h1) = bind-Runs h0 in
      let (r, s2, p2, h2) = bind-Runs h1 in
      let (_, s3, p3, h3) = bind-Runs h2 in
      let (_, s4, p4, h4) = bind-Runs h3 in
      let (mounted, s5, p5, h5) = bind-Runs h4 in
      let (valid, e1) = check_capabilities-Runs _ p1 in
      let (split, e2) = or_status-Runs _ _ _ s1 p2 in
      let (_, e3) = reject_if-Runs _ _ _ s2 p3 in
      let (_, e4) = reject_if-Runs _ _ _ s3 p4 in
      (
        valid,
        r,
        split,
        mounted,
        s5,
        ap (is_mount_point H req.target_path) (sym (e4 ∙ e3 ∙ e2 ∙ e1))
            ∙ step_or_fail-Runs _ _ _ p5,
        mount_unless-Runs mounted req r h5,
      )

  -- If the resolved flags of a mount with "bind" have the flag of a bind mount: a volume that is published
  -- read-only, on a target that was not mounted, is mounted once more with the flags read-only, bind and
  -- remount, just before its propagation is set.
  pub node_publish_volume-readonly :
      IsBinding H
      → (req : NodePublishVolumeRequest) (s : H.State) {checked s' : H.State} {u : Unit {0}}
      → req.readonly ≡ true
      → is_mount_point H req.target_path s ≡ (ok false, checked)
      → node_publish_volume H req s ≡ (done u, s')
      → (bound remounted : H.State) × (H.mount [] req.target_path
            (bit_or (bit_or ms_rdonly ms_bind) ms_remount)
            []
            bound
          ≡ (ok tt, remounted))
        × (H.mount [] req.target_path (bit_or ms_rec ms_slave) [] remounted ≡ (ok tt, s'))
  unfolding bind_options
  node_publish_volume-readonly b req s readonly unmounted h =
      let (_, r, _, mounted, _, checked_eq, published) = node_publish_volume-done req s h in
      elim published [
        | inl (already, _) ↦ let f : ⊥ = cc (checked_eq, unmounted, already) in absurd f
        | inr (_, p) ↦ read_only r p
      ]
    where
      read_only :
          (r : VolumeRef) {x y : H.State}
          → IsPublished req r x y
          → (bound remounted : H.State) × (H.mount [] req.target_path
                (bit_or (bit_or ms_rdonly ms_bind) ms_remount)
                []
                bound
              ≡ (ok tt, remounted))
            × (H.mount [] req.target_path (bit_or ms_rec ms_slave) [] remounted ≡ (ok tt, y))
      read_only r p =
          let (flags, options_eq) =
            source_of-options r.vol_name (bind_options req.readonly) _
              (record { run = p.source_eq }) in
          let shape : p.options ≡ codes "bind" ∷ codes "ro" ∷ flags =
            options_eq ∙ ap (λ x. bind_options x ++ flags) readonly in
          let m = p.mounted in
          (
            m.bound,
            m.remounted,
            remount_if-readonly H b flags req.target_path (
                subst
                  (λ os.
                    Fs.remount_if H (Fs.needs_remount H os) req.target_path m.bound
                    ≡ (ok tt, m.remounted))
                  shape m.remounted_eq),
            m.propagated,
          )
