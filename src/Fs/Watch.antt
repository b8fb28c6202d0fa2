-- ===== src/Fs/Watch.antt =====
-- `WatchFile` (internal/fs/fs.go): one round of its loop. The channels are a list of events.
pub mod Laws
use lxd_csi_driver.Base.{
  ℕ, suc, Bool, true, false, ◌&&◌, ◌||◌, not, List, [], ◌∷◌, Option, none, some, if◌then◌else◌,
}
use lxd_csi_driver.Strings.{Text, is_empty, text_eq}
use lxd_csi_driver.FilePath.{clean}

-- What a round receives: an event of the directory with the path that the watched file resolves to
-- at that moment (empty if it does not), an error, the end of the context or of the channel.
pub data Signal : Type 0 where
  event : Text → Bool → Bool → Text → Signal
  watch_error context_done channel_closed : Signal

pub record Watcher : Type 0 where
  pub path : Text
  pub current_real_path : Text
  -- How often the handler was called.
  pub calls : ℕ
  pub running : Bool

-- The file was created or written, or it resolves to another path than before.
unfoldable pub is_changed : Watcher → Text → Bool → Bool → Text → Bool
is_changed w name created written new_real_path =
    (text_eq (clean name) w.path && (created || written))
    || (not (is_empty new_real_path) && not (text_eq new_real_path w.current_real_path))

unfoldable pub watch_step : Watcher → Signal → Watcher
watch_step w (event name created written new_real_path) =
    if is_changed w name created written new_real_path
    then record w { current_real_path = new_real_path; calls = suc w.calls }
    else w
watch_step w watch_error = w
watch_step w context_done = record w { running = false }
watch_step w channel_closed = record w { running = false }

-- The loop takes signals as long as it runs.
unfoldable pub watch_loop : Watcher → List Signal → Watcher
watch_loop w [] = w
watch_loop w (signal ∷ signals) =
    let rest = watch_loop (watch_step w signal) signals in if w.running then rest else w

-- The path is cleaned and resolved before the loop begins.
unfoldable pub watch_file : Text → Text → List Signal → Watcher
watch_file path real_path signals =
    watch_loop
      (record { path = clean path; current_real_path = real_path; calls = 0; running = true })
      signals
