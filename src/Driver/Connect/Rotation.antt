-- ===== src/Driver/Connect/Rotation.antt =====
-- Writes of the token file, notices of the watcher, and calls of `DevLXDClient`, in any order
-- (internal/driver/driver.go). The mutex is held from the beginning of a call to its end, so a notice,
-- whose handler takes the mutex, falls between two calls; a write falls anywhere.
pub mod Token
use lxd_csi_driver.Base.{
  Bool, true, false, none, some, Result, ok, err, ◌≡◌, ◌≢◌, ◌⊎◌, inl, inr, refl, sym, ◌∙◌, arith,
}
use mathlib.Core.Path.{subst}
use lxd_csi_driver.Strings.{Text}
use lxd_csi_driver.Lxd.{Env}
use lxd_csi_driver.Driver.{Driver, World}
use lxd_csi_driver.Driver.Connect.{GoErr, cached, use_token, handle_token_file_change}
use lxd_csi_driver.Driver.Connect.Reads.{use_token-keeps}
use lxd_csi_driver.Driver.Connect.Session.{use_token-kept}
use lxd_csi_driver.Driver.Connect.Rotation.Token.{IsTokenFile, use_token-token, use_token-path}

-- A call that has read the token file waits for devLXD.
pub data Phase (E : Env) : Type 0 where
  idle : Phase E
  reading : Result E.Err Text → Phase E

-- `pending` says that a write of the watched file waits for its notice.
pub record Rotation (E : Env) : Type 0 where
  pub world : World E
  pub phase : Phase E
  pub pending : Bool

module _ {E : Env} {path : Text} (T : IsTokenFile E path) where
  pub data Step (r : Rotation E) : Rotation E → Type 0 where
    write :
        (s : E.State) → Step r (record r { world = record (r.world) { state = s }; pending = true })
    other :
        (s : E.State)
        → T.file s ≡ T.file r.world.state
        → Step r (record r { world = record (r.world) { state = s } })
    notice :
        r.phase ≡ idle
        → r.pending ≡ true
        → Step r (record r { world = handle_token_file_change E r.world; pending = false })
    begin :
        r.phase ≡ idle
        → cached E r.world.driver ≡ none
        → Step r (record r {
          world = record (r.world) {
            state = (E.read_file r.world.driver.dev_lxd_token_file r.world.state).1;
          };
          phase = reading (E.read_file r.world.driver.dev_lxd_token_file r.world.state).0;
        })
    end :
        (token : Result E.Err Text)
        → r.phase ≡ reading token
        → Step r (record r { world = (use_token E r.world (token, r.world.state)).1; phase = idle })

  pub data Reach (r : Rotation E) : Rotation E → Type 0 where
    here : Reach r r
    next : {s t : Rotation E} → Reach r s → Step s t → Reach r t

  -- The client has the token of the file, or it will get it: a change is known or waits for its notice.
  abbrev pub IsCurrent : Driver E.Client → Bool → Text → Type 0
  IsCurrent d pending content =
      (d.dev_lxd ≡ none)
      ⊎ (d.has_dev_lxd_token_changed ≡ true)
      ⊎ (pending ≡ true)
      ⊎ ((client : E.Client) × (d.dev_lxd ≡ some client) × (T.token_of client ≡ content))

  -- A call in progress read the file as it is, or a write since then waits for its notice.
  abbrev IsReading : Bool → Text → Phase E → Type 0
  IsReading pending content idle = Unit
  IsReading pending content (reading (ok token)) = (pending ≡ true) ⊎ (token ≡ content)
  IsReading pending content (reading (err e)) = Unit

  record IsWatched (r : Rotation E) : Type 0 where
    on_path : r.world.driver.dev_lxd_token_file ≡ path
    current : IsCurrent r.world.driver r.pending (T.file r.world.state)
    read_current : IsReading r.pending (T.file r.world.state) r.phase

  pending-IsReading :
      (pending : Bool) (content : Text) (p : Phase E) → pending ≡ true → IsReading pending content p
  pending-IsReading pending content idle h = tt
  pending-IsReading pending content (reading (ok token)) h = inl h
  pending-IsReading pending content (reading (err e)) h = tt

  use_token_failed :
      (w : World E) (token : Result E.Err Text) (s : E.State) {e : GoErr E} {w' : World E}
      → use_token E w (token, s) ≡ (err e, w')
      → w'.driver ≡ w.driver
  unfolding use_token
  use_token_failed w (ok token) s h = ground arith
  use_token_failed w (err x) s h = ground arith

  use_token_unread :
      (w : World E) (x : E.Err) (s : E.State) {client : E.Client} {w' : World E}
      → use_token E w (err x, s) ≢ (ok client, w')
  unfolding use_token
  use_token_unread w x s h = cc

  -- A call that ends leaves the driver current.
  ended-IsCurrent :
      (w : World E) (pending : Bool) (token : Result E.Err Text)
      (o : Result (GoErr E) E.Client × World E)
      → use_token E w (token, w.state) ≡ o
      → IsCurrent w.driver pending (T.file w.state)
      → IsReading pending (T.file w.state) (reading token)
      → IsCurrent o.1.driver pending (T.file w.state)
  ended-IsCurrent w pending token (err e, w') q i j =
      subst (λ d. IsCurrent d pending (T.file w.state)) (sym (use_token_failed w token w.state q)) i
  ended-IsCurrent w pending (err x) (ok client, w') q i j = absurd (use_token_unread w x w.state q)
  ended-IsCurrent w pending (ok token) (ok client, w') q i (inl waits) = inr (inr (inl waits))
  ended-IsCurrent w pending (ok token) (ok client, w') q i (inr same) = inr (
      inr (
        inr (
          client,
          (use_token-kept E w (ok token, w.state) q).0,
          use_token-token T w token w.state q ∙ same,
        )))

  -- What is read is the file as it is.
  read-IsReading :
      (pending : Bool) (r : Result E.Err Text × E.State) (s : E.State)
      → E.read_file path s ≡ r
      → IsReading pending (T.file s) (reading r.0)
  read-IsReading pending (ok token, s') s q = inr (T.reads s q)
  read-IsReading pending (err e, s') s q = tt

  Step-IsWatched : {r r' : Rotation E} → Step r r' → IsWatched r → IsWatched r'
  unfolding handle_token_file_change
  Step-IsWatched {r} (write s) i = record {
    on_path = i.on_path;
    current = inr (inr (inl refl));
    read_current = pending-IsReading true (T.file s) r.phase refl;
  }
  Step-IsWatched {r} (other s same) i = record {
    on_path = i.on_path;
    current = subst (IsCurrent r.world.driver r.pending) (sym same) i.current;
    read_current = subst (λ c. IsReading r.pending c r.phase) (sym same) i.read_current;
  }
  Step-IsWatched {r} (notice q waits) i = record {
    on_path = i.on_path;
    current = inr (inl refl);
    read_current = subst (IsReading false (T.file r.world.state)) (sym q) tt;
  }
  Step-IsWatched {r} (begin q c) i =
      let kept = T.keeps.read_file r.world.driver.dev_lxd_token_file r.world.state in
      record {
        on_path = i.on_path;
        current = subst (IsCurrent r.world.driver r.pending) (sym kept) i.current;
        read_current =
            subst
              (λ t.
                IsReading r.pending t
                  (reading (E.read_file r.world.driver.dev_lxd_token_file r.world.state).0))
              (sym kept)
              (subst
                (λ p.
                  IsReading r.pending (T.file r.world.state)
                    (reading (E.read_file p r.world.state).0))
                (sym i.on_path)
                (read-IsReading r.pending (E.read_file path r.world.state) r.world.state refl));
      }
  Step-IsWatched {r} (end token q) i =
      let kept = use_token-keeps T.keeps r.world (token, r.world.state) in
      record {
        on_path = use_token-path r.world (token, r.world.state) ∙ i.on_path;
        current =
            subst (IsCurrent (use_token E r.world (token, r.world.state)).1.driver r.pending)
              (sym kept)
              (ended-IsCurrent r.world r.pending token _ refl i.current
                (subst (IsReading r.pending (T.file r.world.state)) q i.read_current));
        read_current = tt;
      }

  Reach-IsWatched : {r r' : Rotation E} → IsWatched r → Reach r r' → IsWatched r'
  Reach-IsWatched i here = i
  Reach-IsWatched i (next steps step) = Step-IsWatched step (Reach-IsWatched i steps)

  -- No write of the watched token file is lost: where reading, connecting and asking for the server's
  -- state leave the file alone, and a client carries the token that it was made with or given last, then
  -- from a state between two calls in which the driver is current, whatever writes, notices and calls of
  -- `DevLXDClient` follow, no client is kept, or the kept client carries the token in the file, or the
  -- driver knows that the token changed, or the notice of a write is still to come.
  pub Reach-IsCurrent :
      {r r' : Rotation E}
      → r.world.driver.dev_lxd_token_file ≡ path
      → r.phase ≡ idle
      → IsCurrent r.world.driver r.pending (T.file r.world.state)
      → Reach r r'
      → IsCurrent r'.world.driver r'.pending (T.file r'.world.state)
  Reach-IsCurrent {r} on_path quiet current steps =
      (Reach-IsWatched
        (record {
          on_path = on_path;
          current = current;
          read_current = subst (IsReading r.pending (T.file r.world.state)) (sym quiet) tt;
        })
        steps).current
