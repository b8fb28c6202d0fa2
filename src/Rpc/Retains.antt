-- ===== src/Rpc/Retains.antt =====
-- What the steps of a method leave of the environment's state: any view `g` of it, where the calls of the
-- environment leave it.
use lxd_csi_driver.Base.{
  Bool, true, false, String, Result, ok, err, Option-cases, inl, inr, ◌≡◌, refl, sym, ap, ◌∙◌,
  if◌then◌else◌,
}
use lxd_csi_driver.Csi.{Code}
use lxd_csi_driver.Lxd.{Env}
use lxd_csi_driver.Driver.{World}
use lxd_csi_driver.Driver.Connect.{GoErr, dev_lxd_client}
use lxd_csi_driver.Driver.Connect.Reads.{ConnectKeeps, dev_lxd_client-keeps}
use lxd_csi_driver.Strings.{Text}
use lxd_csi_driver.Rpc.{
  Outcome, done, failed, panicked, Rpc, bind_next, ◌>>=◌, pure, fail, panic, reject_if, or_status,
  attempt, or_fail, call, get_driver, get_client, client_or_fail, with_lock, release,
}
use lxd_csi_driver.Rpc.Invert.{Runs}

-- A call leaves the view.
pub record Leaves {S X Y A : Type 0} (g : S → X) (op : S → Result Y A × S) : Type 0 where
  pub of : (s : S) → g (op s).1 ≡ g s

module _ {E : Env} {X : Type 0} (g : E.State → X) where
  pub record Retains {A : Type 0} (m : Rpc E A) : Type 0 where
    pub at : (w : World E) → g (m w).1.state ≡ g w.state

  bind_next-Retains :
      {A B : Type 0} (r : Outcome A × World E) (k : A → Rpc E B)
      → ((a : A) → Retains (k a))
      → g (bind_next r k).1.state ≡ g r.1.state
  bind_next-Retains (done a, w) k h = (h a).at w
  bind_next-Retains (failed c m, w) k h = refl
  bind_next-Retains (panicked, w) k h = refl

  pub bind-Retains :
      {A B : Type 0} {m : Rpc E A} {k : A → Rpc E B}
      → Retains m
      → ((a : A) → Retains (k a))
      → Retains (m >>= k)
  unfolding ◌>>=◌
  bind-Retains {m} {k} hm hk = record { at = λ w. bind_next-Retains (m w) k hk ∙ hm.at w }

  pub pure-Retains : {A : Type 0} (a : A) → Retains (pure a)
  pure-Retains a = record { at = λ w. refl }

  pub fail-Retains : {A : Type 0} (c : Code) (m : String) → Retains {A = A} (fail c m)
  fail-Retains c m = record { at = λ w. refl }

  pub panic-Retains : {A : Type 0} → Retains {A = A} panic
  panic-Retains = record { at = λ w. refl }

  pub reject_if-Retains : (b : Bool) (c : Code) (m : String) → Retains (reject_if b c m)
  reject_if-Retains true c m = fail-Retains c m
  reject_if-Retains false c m = pure-Retains tt

  pub or_status-Retains :
      {A Y : Type 0} (c : Code) (m : String) (r : Result Y A) → Retains (or_status c m r)
  or_status-Retains c m (ok a) = pure-Retains a
  or_status-Retains c m (err e) = fail-Retains c m

  pub or_fail-Retains : {A : Type 0} (m : String) (r : Result E.Err A) → Retains (or_fail E m r)
  unfolding or_fail
  or_fail-Retains m (ok a) = record { at = λ w. refl }
  or_fail-Retains m (err e) = record { at = λ w. refl }

  pub attempt-Retains :
      {A : Type 0} {op : E.State → Result E.Err A × E.State} → Leaves g op → Retains (attempt E op)
  unfolding attempt
  attempt-Retains h = record { at = λ w. h.of w.state }

  pub call-Retains :
      {A : Type 0} {op : E.State → Result E.Err A × E.State} (m : String)
      → Leaves g op
      → Retains (call E op m)
  unfolding call
  call-Retains m h = bind-Retains (attempt-Retains h) (or_fail-Retains m)

  pub get_driver-Retains : Retains (get_driver E)
  unfolding get_driver
  get_driver-Retains = record { at = λ w. refl }

  pub if-Retains :
      {A : Type 0} (b : Bool) {m n : Rpc E A} → Retains m → Retains n → Retains (if b then m else n)
  if-Retains true hm hn = hm
  if-Retains false hm hn = hn

  client_or_fail-state :
      (m : String) (r : Result (GoErr E) E.Client × World E)
      → (client_or_fail E m r).1.state ≡ r.1.state
  unfolding client_or_fail
  client_or_fail-state m (ok client, w) = refl
  client_or_fail-state m (err e, w) = refl

  pub get_client-Retains : (l : ConnectKeeps E g) (m : String) → Retains (get_client E m)
  unfolding get_client
  get_client-Retains l m = record {
    at = λ w. ap g (client_or_fail-state m (dev_lxd_client E w)) ∙ dev_lxd_client-keeps l w;
  }

  pub with_lock-Retains :
      {A : Type 0} (k : Text) (m : String) {body : Rpc E A}
      → Retains body
      → Retains (with_lock E k m body)
  unfolding with_lock release
  with_lock-Retains k m {body} h = record {
    at = λ w. elim (Option-cases (E.try_lock k w.locks)) [
      | inl refused ↦ rw (refused, with_lock) refl
      | inr (t, taken) ↦ rw (taken, with_lock) (h.at (record w { locks = t }))
    ];
  }

  -- The view after a run is the one before it.
  pub Retains-Runs :
      {A : Type 0} {m : Rpc E A} {w w' : World E} {a : A}
      → Retains m
      → Runs m w a w'
      → g w'.state ≡ g w.state
  Retains-Runs {w} h r = ap (λ x. g x.1.state) (sym r.run) ∙ h.at w

pub ruleset retaining = (
  pure-Retains, fail-Retains, panic-Retains, reject_if-Retains, or_status-Retains, attempt-Retains,
  or_fail-Retains, call-Retains, get_driver-Retains, if-Retains, bind-Retains,
)
