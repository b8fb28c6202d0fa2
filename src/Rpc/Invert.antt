-- ===== src/Rpc/Invert.antt =====
-- What is known of the steps of a method that ended with an answer.
use lxd_csi_driver.Base.{
  Bool, true, false, String, some, Result, ok, err, ◌≡◌, refl, arith, Option-cases, inl, inr,
}
use lxd_csi_driver.Strings.{Text}
use lxd_csi_driver.Csi.{Code}
use lxd_csi_driver.Lxd.{Env}
use lxd_csi_driver.Driver.{Driver, World}
use lxd_csi_driver.Driver.Connect.{GoErr, dev_lxd_client}
use lxd_csi_driver.Rpc.{
  Outcome, done, failed, panicked, Rpc, attempt, bind_next, ◌>>=◌, reject_if, or_status, pure,
  or_fail, call, get_driver, get_client, client_or_fail, release, with_lock,
}

-- A run that ended with an answer.
pub record Runs {W A : Type 0} (m : W → Outcome A × W) (w : W) (a : A) (w' : W) : Type 0 where
  pub run : m w ≡ (done a, w')

bind_next-done :
    {W A B : Type 0} (r : Outcome A × W) (k : A → W → Outcome B × W) {b : B} {w' : W}
    → bind_next r k ≡ (done b, w')
    → (a : A) × (w : W) × (r ≡ (done a, w)) × (k a w ≡ (done b, w'))
bind_next-done (done a, w) k h = (a, w, refl, h)
bind_next-done (failed c m, w) k h = cc
bind_next-done (panicked, w) k h = cc

-- The step before answered, and so did the rest.
pub bind-Runs :
    {W A B : Type 0} {m : W → Outcome A × W} {k : A → W → Outcome B × W} {w w' : W} {b : B}
    → Runs (m >>= k) w b w'
    → (a : A) × (v : W) × Runs m w a v × Runs (k a) v b w'
unfolding ◌>>=◌
bind-Runs {m} {k} {w} h =
    let (a, v, p, q) = bind_next-done (m w) k h.run in
    (a, v, record { run = p }, record { run = q })

pub pure-Runs :
    {W A : Type 0} {a b : A} {w w' : W} → Runs {W = W} (pure a) w b w' → (b ≡ a) × (w' ≡ w)
pure-Runs h = (cc (h.run), cc (h.run))

pub reject_if-Runs :
    {W : Type 0} (b : Bool) (c : Code) (m : String) (w : W) {w' : W} {u : Unit {0}}
    → Runs (reject_if b c m) w u w'
    → (b ≡ false) × (w' ≡ w)
reject_if-Runs true c m w h = cc (h.run)
reject_if-Runs false c m w h = (refl, cc (h.run))

pub or_status-Runs :
    {W A X : Type 0} (c : Code) (m : String) (r : Result X A) (w : W) {w' : W} {a : A}
    → Runs (or_status c m r) w a w'
    → (r ≡ ok a) × (w' ≡ w)
or_status-Runs c m (ok a) w h = (cc (h.run), cc (h.run))
or_status-Runs c m (err e) w h = cc (h.run)

module _ {E : Env} where
  pub or_fail-Runs :
      {A : Type 0} (m : String) (r : Result E.Err A) (w : World E) {w' : World E} {a : A}
      → Runs (or_fail E m r) w a w'
      → (r ≡ ok a) × (w' ≡ w)
  unfolding or_fail
  or_fail-Runs m (ok a) w h = (cc (h.run), cc (h.run))
  or_fail-Runs m (err e) w h = cc (h.run)

  pub attempt-Runs :
      {A : Type 0} (op : E.State → Result E.Err A × E.State) (w : World E) {w' : World E}
      {r : Result E.Err A}
      → Runs (attempt E op) w r w'
      → op w.state ≡ (r, w'.state)
  unfolding attempt
  attempt-Runs op w h = let e = h.run in ground arith

  -- The environment answered, and only its state changed.
  pub call-Runs :
      {A : Type 0} (op : E.State → Result E.Err A × E.State) (m : String) (w : World E)
      {w' : World E} {a : A}
      → Runs (call E op m) w a w'
      → (op w.state ≡ (ok a, w'.state)) × (w' ≡ record w { state = w'.state })
  unfolding call ◌>>=◌
  call-Runs op m w h =
      let (e, q) =
        or_fail-Runs m (op w.state).0 (record w { state = (op w.state).1 })
          (record { run = h.run }) in
      (ground arith, ground arith)

  pub get_driver-Runs :
      (w : World E) {w' : World E} {d : Driver E.Client}
      → Runs (get_driver E) w d w'
      → (d ≡ w.driver) × (w' ≡ w)
  unfolding get_driver
  get_driver-Runs w h = (cc (h.run), cc (h.run))

  client_or_fail-done :
      (m : String) (r : Result (GoErr E) E.Client × World E) {w' : World E} {client : E.Client}
      → client_or_fail E m r ≡ (done client, w')
      → r ≡ (ok client, w')
  unfolding client_or_fail
  client_or_fail-done m (ok client, w) h = ground arith
  client_or_fail-done m (err e, w) h = cc

  pub get_client-Runs :
      (m : String) (w : World E) {w' : World E} {client : E.Client}
      → Runs (get_client E m) w client w'
      → dev_lxd_client E w ≡ (ok client, w')
  unfolding get_client
  get_client-Runs m w h = client_or_fail-done m (dev_lxd_client E w) h.run

  release-done :
      {A : Type 0} (k : Text) (r : Outcome A × World E) {w' : World E} {a : A}
      → release E k r ≡ (done a, w')
      → (v : World E) × (r ≡ (done a, v)) × (w' ≡ record v { locks = E.unlock k v.locks })
  unfolding release
  release-done k (q, v) h = (v, ground arith, ground arith)

  -- The lock was free, the body answered, and the lock was given back.
  pub with_lock-Runs :
      {A : Type 0} (k : Text) (m : String) (body : Rpc E A) (w : World E) {w' : World E} {a : A}
      → Runs (with_lock E k m body) w a w'
      → (t : E.Locks) × (v : World E) × (E.try_lock k w.locks ≡ some t)
        × (Runs body (record w { locks = t }) a v)
        × (w' ≡ record v { locks = E.unlock k v.locks })
  unfolding with_lock
  with_lock-Runs k m body w h = elim (Option-cases (E.try_lock k w.locks)) [
    | inl e ↦ let absurd_h : ⊥ = cc (rw (e, with_lock) at h.run) in absurd absurd_h
    | inr (t, e) ↦
        let (v, p, q) =
          release-done k (body (record w { locks = t })) (rw (e, with_lock) at h.run) in
        (t, v, e, record { run = p }, q)
  ]
