-- ===== src/Fs/Mounting.antt =====
-- What `Mount` (internal/fs/fs.go) has done when it succeeds.
use Prim.Native.Nat.{bit_and, bit_or}
use lxd_csi_driver.Base.{
  false, List, [], ◌∷◌, Result, ok, err, ◌≡◌, inl, inr, refl, arith, Bool-cases, ==_iff,
}
use lxd_csi_driver.Strings.{Text, codes, is_empty, text_eq}
use lxd_csi_driver.Host.{Host}
use lxd_csi_driver.Fs.{
  FsError, Step, next_step, ◌>>=◌, on_host, host_result, make_target, remount_if, needs_remount,
  has_option, mount, ms_bind, ms_rdonly, ms_remount, ms_rec, ms_slave,
}

module _ (H : Host) where
  next_step-ok :
      {A B : Type 0} (r : Result (FsError H.Err) A × H.State) (k : A → Step H B) {b : B}
      {s' : H.State}
      → next_step H r k ≡ (ok b, s')
      → (a : A) × (s : H.State) × (r ≡ (ok a, s)) × (k a s ≡ (ok b, s'))
  next_step-ok (ok a, s) k h = (a, s, refl, h)
  next_step-ok (err e, s) k h = cc

  -- A step that succeeded.
  record Runs {A : Type 0} (m : Step H A) (s : H.State) (a : A) (s' : H.State) : Type 0 where
    run : m s ≡ (ok a, s')

  bind-Runs :
      {A B : Type 0} (m : Step H A) (k : A → Step H B) {s s' : H.State} {b : B}
      → Runs (◌>>=◌ H m k) s b s'
      → (a : A) × (t : H.State) × (m s ≡ (ok a, t)) × Runs (k a) t b s'
  unfolding ◌>>=◌
  bind-Runs m k {s} h =
      let (a, t, p, q) = next_step-ok (m s) k h.run in (a, t, p, record { run = q })

  host_result-ok :
      {A : Type 0} (r : Result H.Err A × H.State) {a : A} {s' : H.State}
      → host_result H r ≡ (ok a, s')
      → r ≡ (ok a, s')
  host_result-ok (ok a, s) h = ground arith
  host_result-ok (err e, s) h = cc

  pub on_host-ok :
      {A : Type 0} (op : H.State → Result H.Err A × H.State) {s s' : H.State} {a : A}
      → on_host H op s ≡ (ok a, s')
      → op s ≡ (ok a, s')
  unfolding on_host
  on_host-ok op {s} h = host_result-ok (op s) h

  -- The mount point was made, the source was bound to it with the options, it was mounted read-only where
  -- that is asked for, and its propagation was set, in this order.
  pub record IsMounted (source target content_type : Text) (options : List Text) (s s' : H.State)
      : Type 0 where
    pub source_named : is_empty source ≡ false
    pub target_named : is_empty target ≡ false
    pub made : H.State
    pub made_eq : make_target H target content_type s ≡ (ok tt, made)
    pub bound : H.State
    pub bound_eq :
        H.mount source target
          (H.resolve_mount_options options).0
          (H.resolve_mount_options options).1
          made
        ≡ (ok tt, bound)
    pub remounted : H.State
    pub remounted_eq : remount_if H (needs_remount H options) target bound ≡ (ok tt, remounted)
    pub propagated : H.mount [] target (bit_or ms_rec ms_slave) [] remounted ≡ (ok tt, s')

  pub mount-IsMounted :
      (source target content_type : Text) (options : List Text) {s s' : H.State} {u : Unit {0}}
      → mount H source target content_type options s ≡ (ok u, s')
      → IsMounted source target content_type options s s'
  unfolding mount
  mount-IsMounted source target content_type options h = elim (Bool-cases (is_empty source)) [
    | inl unnamed ↦ let f : ⊥ = cc (rw (unnamed, mount) at h) in absurd f
    | inr source_named ↦ elim (Bool-cases (is_empty target)) [
      | inl unnamed ↦ let f : ⊥ = cc (rw (source_named, unnamed, mount) at h) in absurd f
      | inr target_named ↦
          let (_, s1, e1, h1) =
            bind-Runs _ _ (record { run = rw (source_named, target_named, mount) at h }) in
          let (_, s2, e2, h2) = bind-Runs _ _ h1 in
          let (_, s3, e3, h3) = bind-Runs _ _ h2 in
          record {
            source_named = source_named;
            target_named = target_named;
            made = s1;
            made_eq = e1;
            bound = s2;
            bound_eq = on_host-ok _ e2;
            remounted = s3;
            remounted_eq = e3;
            propagated = on_host-ok _ h3.run;
          }
    ]
  ]

  -- `ResolveMountOptions` of lxd/storage/filesystem sets the flag of a bind mount for "bind", and no later
  -- option takes it away.
  pub record IsBinding : Type 0 where
    pub binds :
        (options : List Text)
        → bit_and (H.resolve_mount_options (codes "bind" ∷ options)).0 ms_bind ≡ ms_bind

  -- A bind mount with "ro" is mounted once more, read-only.
  pub remount_if-readonly :
      IsBinding
      → (options : List Text) (target : Text) {s s' : H.State} {u : Unit {0}}
      → remount_if H (needs_remount H (codes "bind" ∷ codes "ro" ∷ options)) target s ≡ (ok u, s')
      → H.mount [] target (bit_or (bit_or ms_rdonly ms_bind) ms_remount) [] s ≡ (ok u, s')
  unfolding remount_if needs_remount has_option text_eq
  remount_if-readonly b options target {s} h =
      let bound = (==_iff _ ms_bind).1 (b.binds (codes "ro" ∷ options)) in
      on_host-ok (H.mount [] target (bit_or (bit_or ms_rdonly ms_bind) ms_remount) []) {s = s}
        (rw (bound, remount_if) at h)
