-- ===== src/Fs/Unmount.antt =====
-- The retries of `Unmount` (internal/fs/fs.go).
use lxd_csi_driver.Base.{
  ℕ, zero, suc, ◌<◌, Bool, true, false, Option, none, some, Result, ok, err, ◌≡◌, refl, ap, ◌∙◌,
  arith,
}
use lxd_csi_driver.Strings.{Text}
use lxd_csi_driver.Host.{Host}
use lxd_csi_driver.Fs.{host, unmount_loop, unmounted_by, unmount_if, or_host_error}

module _ (H : Host) (path : Text) where
  -- The state after a failed round: the call was made, and half a second has passed.
  abbrev pub after_round : H.State → H.State
  after_round s = H.sleep 500 (H.unmount path s).1

  -- The state in which the round of a number is made, if all before it failed.
  abbrev pub before_round : ℕ → H.State → H.State
  before_round zero s = s
  before_round (suc k) s = before_round k (after_round s)

  abbrev pub is_success : Result H.Err (Unit {0}) → Bool
  is_success (ok u) = true
  is_success (err e) = false

  abbrev pub succeeds : H.State → Bool
  succeeds s = is_success (H.unmount path s).0

  -- No round of a number below `n` succeeds.
  abbrev pub AllFail : ℕ → H.State → Type 0
  AllFail zero s = Unit
  AllFail (suc n) s = (succeeds s ≡ false) × AllFail n (after_round s)

  unmounted_by-ok :
      (again : Option H.Err → H.State → Option H.Err × H.State)
      (r : Result H.Err (Unit {0}) × H.State)
      → is_success r.0 ≡ true
      → unmounted_by H again r ≡ (none, r.1)
  unfolding unmounted_by
  unmounted_by-ok again (ok u, s) h = refl
  unmounted_by-ok again (err e, s) h = cc

  unmounted_by-err :
      (again : Option H.Err → H.State → Option H.Err × H.State)
      (r : Result H.Err (Unit {0}) × H.State)
      → is_success r.0 ≡ false
      → (e : H.Err) × (unmounted_by H again r ≡ again (some e) (H.sleep 500 r.1))
  unfolding unmounted_by
  unmounted_by-err again (ok u, s) h = cc
  unmounted_by-err again (err e, s) h = (e, refl)

  -- If round `k` of `n` succeeds and none before it does, the loop ends without an error in the state
  -- behind that round: it goes no further.
  pub unmount_loop_success :
      (n k : ℕ) (e : Option H.Err) (s : H.State)
      → k < n
      → AllFail k s
      → succeeds (before_round k s) ≡ true
      → unmount_loop H n path e s ≡ (none, (H.unmount path (before_round k s)).1)
  unfolding unmount_loop
  unmount_loop_success zero k e s lt fails ok_k = elim lt [ ]
  unmount_loop_success (suc n) zero e s lt fails ok_k =
      unmounted_by-ok (unmount_loop H n path) (H.unmount path s) ok_k
  unmount_loop_success (suc n) (suc k) e s lt (fail_now, fails) ok_k =
      let (x, step) = unmounted_by-err (unmount_loop H n path) (H.unmount path s) fail_now in
      step ∙ unmount_loop_success n k (some x) (after_round s) (omega arith) fails ok_k

  -- The loop that began with an error ends with one, if no round succeeds.
  unmount_loop_failed :
      (n : ℕ) (e : H.Err) (s : H.State)
      → AllFail n s
      → (x : H.Err) × (unmount_loop H n path (some e) s ≡ (some x, before_round n s))
  unfolding unmount_loop
  unmount_loop_failed zero e s fails = (e, refl)
  unmount_loop_failed (suc n) e s (fail_now, fails) =
      let (x, step) = unmounted_by-err (unmount_loop H n path) (H.unmount path s) fail_now in
      let (y, rest) = unmount_loop_failed n x (after_round s) fails in (y, step ∙ rest)

  -- If none of the 20 rounds of `Unmount` succeeds, all are made, each with its pause, and the unmounting
  -- of a mount point ends with an error of the host, in the state behind the last pause.
  pub unmount_if-failed :
      (s : H.State)
      → AllFail 20 s
      → (x : H.Err) × (unmount_if H true path s ≡ (err (host x), before_round 20 s))
  unfolding unmount_if unmount_loop
  unmount_if-failed s (fail_now, fails) =
      let (x, step) = unmounted_by-err (unmount_loop H 19 path) (H.unmount path s) fail_now in
      let (y, rest) = unmount_loop_failed 19 x (after_round s) fails in
      (y, ap (or_host_error H) (step ∙ rest))
