-- ===== src/Rpc.antt =====
-- How a gRPC method runs: it reads and changes the driver and its environment, and ends with an
-- answer, with a gRPC status, or with a panic.
pub mod Frame
pub mod Retains
pub mod Invert
pub mod Exclusion
use lxd_csi_driver.Base.{
  ℕ, Bool, true, false, String, Option, none, some, Result, ok, err, ◌≡◌, refl, if◌then◌else◌,
}
use lxd_csi_driver.Strings.{Text}
use lxd_csi_driver.Csi.{Code, aborted}
use lxd_csi_driver.Lxd.{Env}
use lxd_csi_driver.LxdErrors.{GoError, external, error_code}
use lxd_csi_driver.Driver.{Driver, World}
use lxd_csi_driver.Driver.Connect.{GoErr, dev_lxd_client}

-- A status has its code and the format of its message; the values that are formatted are left out.
pub data Outcome (A : Type 0) : Type 0 where
  done : A → Outcome A
  failed : Code → String → Outcome A
  panicked : Outcome A

abbrev pub Rpc : Env → Type 0 → Type 0
Rpc E A = World E → Outcome A × World E

abbrev pub bind_next : {W A B : Type 0} → Outcome A × W → (A → W → Outcome B × W) → Outcome B × W
bind_next (done a, w) f = f a w
bind_next (failed c m, w) f = (failed c m, w)
bind_next (panicked, w) f = (panicked, w)

-- Shut, so that a proof sees the steps of a method and not their runs.
infixl 5 ◌>>=◌ ◌>>◌
unfoldable pub ◌>>=◌ :
    {W A B : Type 0} → (W → Outcome A × W) → (A → W → Outcome B × W) → W → Outcome B × W
◌>>=◌ m f w = bind_next (m w) f

abbrev pub ◌>>◌ :
    {W B : Type 0} → (W → Outcome (Unit {0}) × W) → (W → Outcome B × W) → W → Outcome B × W
m >> k = m >>= λ _. k

abbrev pub pure : {W A : Type 0} → A → W → Outcome A × W
pure a w = (done a, w)

abbrev pub fail : {W A : Type 0} → Code → String → W → Outcome A × W
fail c m w = (failed c m, w)

abbrev pub panic : {W A : Type 0} → W → Outcome A × W
panic w = (panicked, w)

-- `if b { return nil, status.Error(c, m) }`
abbrev pub reject_if : {W : Type 0} → Bool → Code → String → W → Outcome (Unit {0}) × W
reject_if true c m = fail c m
reject_if false c m = pure tt

-- A nil error passes, any other becomes a status with the code.
abbrev pub or_status : {W A X : Type 0} → Code → String → Result X A → W → Outcome A × W
or_status c m (ok a) = pure a
or_status c m (err e) = fail c m

module _ (E : Env) where
  -- A call of the environment; its error is a value.
  unfoldable pub attempt :
      {A : Type 0} → (E.State → Result E.Err A × E.State) → Rpc E (Result E.Err A)
  attempt op w = (done (op w.state).0, record w { state = (op w.state).1 })

  -- `status.Errorf(lxderrors.ToGRPCCode(err), …)` on an error.
  unfoldable pub or_fail : {A : Type 0} → String → Result E.Err A → Rpc E A
  or_fail m (ok a) = pure a
  or_fail m (err e) = fail (error_code E (external e)) m

  unfoldable pub call : {A : Type 0} → (E.State → Result E.Err A × E.State) → String → Rpc E A
  unfolding attempt or_fail
  call op m = attempt op >>= or_fail m

  unfoldable pub get_driver : Rpc E (Driver E.Client)
  get_driver w = (done w.driver, w)

  client_or_fail : String → Result (GoErr E) E.Client × World E → Outcome E.Client × World E
  client_or_fail m (ok client, w) = (done client, w)
  client_or_fail m (err e, w) = (failed (error_code E e) m, w)

  -- `client, err := c.driver.DevLXDClient()` and its error path.
  unfoldable pub get_client : String → Rpc E E.Client
  unfolding client_or_fail
  get_client m w = client_or_fail m (dev_lxd_client E w)

  -- `op, err := …; if err == nil { err = op.WaitContext(ctx) }`
  unfoldable pub wait_on : Result E.Err E.Operation → Rpc E (Result E.Err (Unit {0}))
  unfolding attempt
  wait_on (ok op) = attempt (E.wait_context op)
  wait_on (err e) = pure (err e)

  unfoldable pub attempt_operation :
      (E.State → Result E.Err E.Operation × E.State) → Rpc E (Result E.Err (Unit {0}))
  unfolding attempt wait_on
  attempt_operation op = attempt op >>= wait_on

  -- `unlock` runs when the method returns, on whatever path.
  unfoldable pub release : {A : Type 0} → Text → Outcome A × World E → Outcome A × World E
  release k (r, w) = (r, record w { locks = E.unlock k w.locks })

  -- `unlock := locking.TryLock(k); if unlock == nil { … }; defer unlock()` and the rest of the method.
  unfoldable pub with_lock : {A : Type 0} → Text → String → Rpc E A → Rpc E A
  unfolding release
  with_lock k m body w = elim (E.try_lock k w.locks) [
    | none ↦ (failed aborted m, w)
    | some locks ↦ release k (body (record w { locks = locks }))
  ]
