-- ===== src/Fs/Watch/Laws.antt =====
-- How often `WatchFile` (internal/fs/fs.go) calls its handler.
use lxd_csi_driver.Base.{
  ℕ, suc, ◌+◌, Bool, true, false, ◌||◌, ◌&&◌, not, List, [], ◌∷◌, ◌≡◌, refl, ap, ◌∙◌, arith, All,
  if◌then◌else◌,
}
use mathlib.Core.List.{map}
use lxd_csi_driver.Strings.{Text, is_empty, text_eq}
use lxd_csi_driver.Strings.Equality.{text_eq_iff}
use lxd_csi_driver.FilePath.{clean}
use lxd_csi_driver.Fs.Watch.{Watcher, Signal, event, is_changed, watch_step, watch_loop}

-- An event of the directory, and the path that the watched file then resolves to.
pub record Change : Type 0 where
  pub name : Text
  pub created : Bool
  pub written : Bool
  pub real_path : Text

abbrev pub signal_of : Change → Signal
signal_of c = event c.name c.created c.written c.real_path

-- The file itself was created or written.
abbrev is_content_changed : Text → Change → Bool
is_content_changed path c = text_eq (clean c.name) path && (c.created || c.written)

-- The changes at which the file was created or written, or resolves to another path than at the change
-- before.
abbrev pub noticed : Text → Text → List Change → ℕ
noticed path before [] = 0
noticed path before (c ∷ cs) =
    let rest = noticed path c.real_path cs in
    if is_content_changed path c || not (text_eq c.real_path before) then suc rest else rest

abbrev pub IsResolved : Change → Type 0
IsResolved c = is_empty c.real_path ≡ false

-- After a change at which the file resolves to a path the watcher knows that path.
watch_step_lem :
    (w : Watcher) (c : Change)
    → IsResolved c
    → watch_step w (signal_of c) ≡ record w {
      current_real_path = c.real_path;
      calls =
          if is_content_changed w.path c || not (text_eq c.real_path w.current_real_path)
          then suc w.calls
          else w.calls;
    }
unfolding watch_step is_changed
watch_step_lem w c h = ground (arith, text_eq_iff c.real_path w.current_real_path)

tally : (b : Bool) (m n : ℕ) → (if b then suc m else m) + n ≡ m + (if b then suc n else n)
tally true m n = omega arith
tally false m n = refl

-- While the watched file can be resolved and the watcher runs, the handler is called once for each change
-- at which the file was created or written, or resolves to another path than at the change before, and
-- for no other.
pub watch_loop-noticed :
    (w : Watcher) (cs : List Change)
    → w.running ≡ true
    → All IsResolved cs
    → (watch_loop w (map signal_of cs)).calls ≡ w.calls + noticed w.path w.current_real_path cs
unfolding watch_loop
watch_loop-noticed w [] running resolved = omega arith
watch_loop-noticed w (c ∷ cs) running (here, rest) =
    let next = watch_step w (signal_of c) in
    let step = watch_step_lem w c here in
    let next_running : next.running ≡ true = ap (λ (x : Watcher). x.running) step ∙ running in
    let ih = watch_loop-noticed next cs next_running rest in
    ap (λ b. (if b then watch_loop next (map signal_of cs) else w).calls) running
    ∙ ih
    ∙ ap (λ (x : Watcher). x.calls + noticed x.path x.current_real_path cs) step
    ∙ tally (is_content_changed w.path c || not (text_eq c.real_path w.current_real_path)) w.calls
        (noticed w.path c.real_path cs)
