-- ===== src/Rpc/Frame.antt =====
-- What the steps of a method leave as it was: any view `f` of the driver and of the lock table.
use lxd_csi_driver.Base.{
  Bool, true, false, String, some, Result, ok, err, ◌≡◌, refl, ap, ◌∙◌, if◌then◌else◌, arith,
  Option-cases, inl, inr,
}
use lxd_csi_driver.Strings.{Text}
use lxd_csi_driver.Strings.Equality.{text_eq_iff}
use lxd_csi_driver.Csi.{Code}
use lxd_csi_driver.Lxd.{Env, IsLocking}
use lxd_csi_driver.Driver.{Driver, World}
use lxd_csi_driver.Driver.Connect.{GoErr, dev_lxd_client}
use lxd_csi_driver.Driver.Connect.Session.{dev_lxd_client_failed, dev_lxd_client_kept}
use lxd_csi_driver.Rpc.{
  Outcome, done, failed, panicked, Rpc, bind_next, ◌>>=◌, pure, fail, panic, reject_if, or_status,
  attempt, or_fail, call, get_driver, get_client, client_or_fail, wait_on, attempt_operation,
  with_lock,
}

module _ {E : Env} {X : Type 0} (f : Driver E.Client → E.Locks → X) where
  pub record Keeps {A : Type 0} (m : Rpc E A) : Type 0 where
    pub at : (w : World E) → f (m w).1.driver (m w).1.locks ≡ f w.driver w.locks

  bind_next-Keeps :
      {A B : Type 0} (r : Outcome A × World E) (k : A → Rpc E B)
      → ((a : A) → Keeps (k a))
      → f (bind_next r k).1.driver (bind_next r k).1.locks ≡ f r.1.driver r.1.locks
  bind_next-Keeps (done a, w) k h = (h a).at w
  bind_next-Keeps (failed c m, w) k h = refl
  bind_next-Keeps (panicked, w) k h = refl

  pub bind-Keeps :
      {A B : Type 0} {m : Rpc E A} {k : A → Rpc E B}
      → Keeps m
      → ((a : A) → Keeps (k a))
      → Keeps (m >>= k)
  unfolding ◌>>=◌
  bind-Keeps {m} {k} hm hk = record { at = λ w. bind_next-Keeps (m w) k hk ∙ hm.at w }

  pub pure-Keeps : {A : Type 0} (a : A) → Keeps (pure a)
  pure-Keeps a = record { at = λ w. refl }

  pub fail-Keeps : {A : Type 0} (c : Code) (m : String) → Keeps {A = A} (fail c m)
  fail-Keeps c m = record { at = λ w. refl }

  pub panic-Keeps : {A : Type 0} → Keeps {A = A} panic
  panic-Keeps = record { at = λ w. refl }

  pub reject_if-Keeps : (b : Bool) (c : Code) (m : String) → Keeps (reject_if b c m)
  reject_if-Keeps true c m = fail-Keeps c m
  reject_if-Keeps false c m = pure-Keeps tt

  pub or_status-Keeps :
      {A Y : Type 0} (c : Code) (m : String) (r : Result Y A) → Keeps (or_status c m r)
  or_status-Keeps c m (ok a) = pure-Keeps a
  or_status-Keeps c m (err e) = fail-Keeps c m

  pub attempt-Keeps : {A : Type 0} (op : E.State → Result E.Err A × E.State) → Keeps (attempt E op)
  unfolding attempt
  attempt-Keeps op = record { at = λ w. refl }

  pub or_fail-Keeps : {A : Type 0} (m : String) (r : Result E.Err A) → Keeps (or_fail E m r)
  unfolding or_fail
  or_fail-Keeps m (ok a) = record { at = λ w. refl }
  or_fail-Keeps m (err e) = record { at = λ w. refl }

  pub call-Keeps :
      {A : Type 0} (op : E.State → Result E.Err A × E.State) (m : String) → Keeps (call E op m)
  unfolding call
  call-Keeps op m = bind-Keeps (attempt-Keeps op) (or_fail-Keeps m)

  pub get_driver-Keeps : Keeps (get_driver E)
  unfolding get_driver
  get_driver-Keeps = record { at = λ w. refl }

  wait_on-Keeps : (r : Result E.Err E.Operation) → Keeps (wait_on E r)
  unfolding wait_on
  wait_on-Keeps (ok op) = attempt-Keeps (E.wait_context op)
  wait_on-Keeps (err e) = pure-Keeps (err e)

  pub attempt_operation-Keeps :
      (op : E.State → Result E.Err E.Operation × E.State) → Keeps (attempt_operation E op)
  unfolding attempt_operation
  attempt_operation-Keeps op = bind-Keeps (attempt-Keeps op) wait_on-Keeps

  pub if-Keeps :
      {A : Type 0} (b : Bool) {m n : Rpc E A} → Keeps m → Keeps n → Keeps (if b then m else n)
  if-Keeps true hm hn = hm
  if-Keeps false hm hn = hn

pub ruleset keeping = (
  pure-Keeps, fail-Keeps, panic-Keeps, reject_if-Keeps, or_status-Keeps, attempt-Keeps,
  or_fail-Keeps, call-Keeps, get_driver-Keeps, attempt_operation-Keeps, if-Keeps, bind-Keeps,
)

-- Whether a lock is held.
abbrev pub holds : (E : Env) → Text → Driver E.Client → E.Locks → Bool
holds E j d t = E.held t j

-- The lock table after a lock was taken, work was done that keeps it, and the lock was released.
module _ {E : Env} (L : IsLocking E) (k j : Text) (t t' t'' : E.Locks) where
  held-release :
      E.try_lock k t ≡ some t' → E.held t'' j ≡ E.held t' j → E.held (E.unlock k t'') j ≡ E.held t j
  held-release taken kept = ground (
    arith,
    L.held-unlock k j t'',
    L.held-try_lock k j t t' taken,
    text_eq_iff k j,
    L.try_lock-none k t,
    free_of_taken,
  )
    where
      free_of_taken : E.held t k ≡ true → ⊥
      free_of_taken h = cc (taken, (L.try_lock-none k t).1 h)

module _ {E : Env} (L : IsLocking E) (j : Text) where
  pub with_lock-Keeps :
      {A : Type 0} (k : Text) (m : String) {body : Rpc E A}
      → Keeps (holds E j) body
      → Keeps (holds E j) (with_lock E k m body)
  unfolding with_lock
  with_lock-Keeps k m {body} h = record {
    at = λ w. elim (Option-cases (E.try_lock k w.locks)) [
      | inl e ↦ rw (e, with_lock)
      | inr (t, e) ↦
          rw (e, with_lock)
            (held-release L k j w.locks t (body (record w { locks = t })).1.locks e
              (h.at (record w { locks = t })))
    ];
  }

module _ (E : Env) where
  dev_lxd_client-locks_of :
      (w : World E) (r : Result (GoErr E) E.Client × World E)
      → dev_lxd_client E w ≡ r
      → r.1.locks ≡ w.locks
  dev_lxd_client-locks_of w (ok client, w') e = (dev_lxd_client_kept E w e).2
  dev_lxd_client-locks_of w (err x, w') e = (dev_lxd_client_failed E w e).1

  client_or_fail-locks :
      (m : String) (r : Result (GoErr E) E.Client × World E)
      → (client_or_fail E m r).1.locks ≡ r.1.locks
  unfolding client_or_fail
  client_or_fail-locks m (ok client, w) = refl
  client_or_fail-locks m (err e, w) = refl

  pub get_client-locks : (m : String) (w : World E) → (get_client E m w).1.locks ≡ w.locks
  unfolding get_client
  get_client-locks m w =
      client_or_fail-locks m (dev_lxd_client E w)
      ∙ dev_lxd_client-locks_of w (dev_lxd_client E w) refl

  pub get_client-Keeps : (j : Text) (m : String) → Keeps (holds E j) (get_client E m)
  get_client-Keeps j m = record { at = λ w. ap (λ t. E.held t j) (get_client-locks m w) }
