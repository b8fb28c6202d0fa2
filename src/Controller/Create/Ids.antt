-- ===== src/Controller/Create/Ids.antt =====
-- The volume ID that `CreateVolume` (internal/driver/controller.go) answers with.
use mathlib.Core.Path.{subst}
use mathlib.Core.Option.{some-injective}
use lxd_csi_driver.Base.{
  ℕ, ◌≤◌, false, [], ◌∷◌, ◌++◌, some, ok, ◌≡◌, ◌≢◌, sym, ap, ◌∙◌, arith, if◌then◌else◌,
  Option-cases, Bool-cases, inl, inr, length, length-append,
}
use lxd_csi_driver.Strings.{Text, is_empty, cut}
use lxd_csi_driver.Strings.Laws.{Lacks, cut-Lacks}
use lxd_csi_driver.Dict.{get}
use lxd_csi_driver.Csi.{CreateVolumeRequest, CreateVolumeResponse}
use lxd_csi_driver.Lxd.{Env, StorageDriverInfo}
use lxd_csi_driver.VolumeId.RoundTrip.{IsSeparable}
use lxd_csi_driver.Driver.{Driver, World, parameter_storage_pool}
use lxd_csi_driver.Driver.Connect.{dev_lxd_client}
use lxd_csi_driver.Rpc.{done}
use lxd_csi_driver.Rpc.Invert.{
  Runs, bind-Runs, pure-Runs, get_client-Runs, get_driver-Runs, with_lock-Runs,
}
use lxd_csi_driver.Controller.{short_name}
use lxd_csi_driver.Controller.Names.{short_name-Lacks, short_name_lem}
use lxd_csi_driver.Controller.Create.{Plan, create_planned, create_volume, response_of}
use lxd_csi_driver.Controller.Create.Planning.{IsPlan, plan_volume-IsPlan}
use lxd_csi_driver.Controller.Create.Supported.{IsSupported, plan_volume-IsSupported}
use lxd_csi_driver.Controller.Create.Request.{volume_name_of, target_of, first_member, preferred_of}

module _ (E : Env) where
  pub create_planned-Runs :
      (d : Driver E.Client) (client : E.Client) (p : Plan) (req : CreateVolumeRequest)
      {w w' : World E} {resp : CreateVolumeResponse}
      → Runs (create_planned E d client p req) w resp w'
      → resp ≡ response_of p req
  unfolding create_planned
  create_planned-Runs d client p req h =
      let (_, w1, p1, h1) = bind-Runs h in
      let (_, w2, p2, h2) = bind-Runs h1 in let (_, w3, p3, h3) = bind-Runs h2 in (pure-Runs h3).0

  -- An answer of success is made of a plan that passed the checks before the lock: the name has a dash, the
  -- capabilities name one access type, the size is at least one byte, the parameters are known ones, a
  -- pool is given, LXD has it, and its driver is the first of its name that LXD supports and is not
  -- "cephobject".
  pub create_volume-done :
      (req : CreateVolumeRequest) (w : World E) {w' : World E} {resp : CreateVolumeResponse}
      → create_volume E req w ≡ (done resp, w')
      → (client : E.Client) × (session : World E) × (p : Plan) × (dev_lxd_client E w
          ≡ (ok client, session))
        × IsPlan session.driver req p
        × IsSupported E client p.pool_name session.state p.driver
        × (resp ≡ response_of p req)
  unfolding create_volume
  create_volume-done req w {w'} {resp} h =
      let h0 : Runs (create_volume E req) w resp w' = record { run = h } in
      let (client, w1, p1, h1) = bind-Runs h0 in
      let (d, w2, p2, h2) = bind-Runs h1 in
      let (p, w3, p3, h3) = bind-Runs h2 in
      let (t, v, _, h4, _) = with_lock-Runs _ _ _ w3 h3 in
      (
        client,
        w1,
        p,
        get_client-Runs _ w p1,
        subst (λ d. IsPlan d req p) (get_driver-Runs w1 p2).0
            (plan_volume-IsPlan E d client req p3),
        subst (λ (x : World E). IsSupported E client p.pool_name x.state p.driver)
            (get_driver-Runs w1 p2).1 (plan_volume-IsSupported E d client req p3),
        create_planned-Runs d _ p req h4,
      )

volume_name-Lacks :
    (configured name : Text) (b : ℕ) {vol : Text}
    → b ≢ b'-'
    → Lacks b configured
    → Lacks b name
    → volume_name_of configured (cut name b'-') ≡ some vol
    → Lacks b vol
unfolding volume_name_of
volume_name-Lacks configured name b ne hc hn e = elim (Option-cases (cut name b'-')) [
  | inl missing ↦ absurd (cc (rw (missing, volume_name_of) at e))
  | inr ((prefix, uuid), found) ↦
      let parts = cut-Lacks name b'-' b found hn in
      subst (Lacks b) (some-injective _ _ (rw (found, volume_name_of) at e)) (
        short_name-Lacks (if is_empty configured then prefix else configured) uuid b ne
          (prefix_lacks configured prefix hc parts.0) parts.1)
]
  where
    prefix_lacks :
        (configured prefix : Text)
        → Lacks b configured
        → Lacks b prefix
        → Lacks b (if is_empty configured then prefix else configured)
    prefix_lacks [] prefix hc hp = hp
    prefix_lacks (c ∷ configured) prefix hc hp = hc

target_of-Lacks :
    (driver : StorageDriverInfo) (req : CreateVolumeRequest) (b : ℕ)
    → Lacks b (first_member (preferred_of req.accessibility_requirements))
    → Lacks b (target_of driver req.accessibility_requirements)
unfolding target_of
target_of-Lacks driver req b h = elim (Bool-cases driver.remote) [
  | inl remote ↦ rw remote tt
  | inr local ↦ rw local h
]

-- What a request names: no separator of the IDs stands in it or in the configured prefix.
pub record HasPlainNames (prefix : Text) (req : CreateVolumeRequest) : Type 0 where
  pub prefix_no_colon : Lacks b':' prefix
  pub prefix_no_slash : Lacks b'/' prefix
  pub name_no_colon : Lacks b':' req.name
  pub name_no_slash : Lacks b'/' req.name
  pub pool_no_colon : Lacks b':' (get parameter_storage_pool req.parameters)
  pub pool_no_slash : Lacks b'/' (get parameter_storage_pool req.parameters)
  pub member_no_colon : Lacks b':' (first_member (preferred_of req.accessibility_requirements))

pub plan-IsSeparable :
    {Client : Type 0} (d : Driver Client) (req : CreateVolumeRequest) (p : Plan)
    → HasPlainNames d.volume_name_prefix req
    → IsPlan d req p
    → IsSeparable p.target p.pool_name p.vol_name
plan-IsSeparable d req p plain plan = record {
  member_no_colon = rw plan.target_eq (target_of-Lacks p.driver req b':' plain.member_no_colon);
  pool_no_colon = rw plan.pool_eq plain.pool_no_colon;
  vol_no_colon =
      volume_name-Lacks d.volume_name_prefix req.name b':' (omega arith) plain.prefix_no_colon
        plain.name_no_colon plan.name_eq;
  pool_no_slash = rw plan.pool_eq plain.pool_no_slash;
  vol_no_slash =
      volume_name-Lacks d.volume_name_prefix req.name b'/' (omega arith) plain.prefix_no_slash
        plain.name_no_slash plan.name_eq;
}

-- The name of a volume has at most 100 bytes where the prefix has 1 to 63 bytes, and at most 36 bytes
-- stand behind the first dash of the requested name. Behind the prefix and
-- one dash there are no dashes.
pub volume_name_bounds :
    (prefix before uuid : Text) {vol : Text}
    → is_empty prefix ≡ false
    → length prefix ≤ 63
    → length uuid ≤ 36
    → volume_name_of prefix (some (before, uuid)) ≡ some vol
    → (length vol ≤ 100) × (rest : Text) × (vol ≡ prefix ++ b'-' ∷ rest) × Lacks b'-' rest
unfolding volume_name_of
volume_name_bounds prefix before uuid {vol} named short_prefix short_uuid e =
    let vol_eq : short_name prefix uuid ≡ vol = some-injective _ _ (rw named at e) in
    let (rest, shape, no_dash, short_rest) = short_name_lem prefix uuid in
    let vol_shape : vol ≡ prefix ++ b'-' ∷ rest = sym vol_eq ∙ shape in
    (
      omega (arith, ap length vol_shape, length-append prefix (b'-' ∷ rest)),
      rest,
      vol_shape,
      no_dash,
    )
