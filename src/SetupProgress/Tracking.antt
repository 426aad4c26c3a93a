-- ===== src/SetupProgress/Tracking.antt =====
-- web/src/components/setup/SetupProgress.tsx: the polls of the log and the stale notice. Times are
-- milliseconds.
use sentry_usb.Base.{
  ℕ, ◌-◌, Bool, true, false, ◌&&◌, Option, none, some, List, [], ◌∷◌, String, ltb, ◌==◌,
  if◌then◌else◌, length,
}
use sentry_usb.Base.Text.{is_empty}
use sentry_usb.SetupProgress.Estimate.{estimate_progress}
use Prim.Native.Char.{code}
use Prim.Native.String.{[], ◌∷◌}

pub record Tracker : Type 0 where
  pub log_lines : List String
  pub progress : ℕ
  pub stale : Bool
  pub prev_len : ℕ
  pub last_change : ℕ

unfoldable pub mount : ℕ → Tracker
mount now = record { log_lines = []; progress = 0; stale = false; prev_len = 0; last_change = now }

-- `text.split("\n").filter(Boolean)`: the lines that are not empty
abbrev keep_line : String → List String → List String
keep_line line lines = if is_empty line then lines else line ∷ lines

-- the line that begins here, and the lines behind it
unfoldable pub split_lines : String → String × List String
split_lines [] = ([], [])
split_lines (c ∷ s) =
    let rest = split_lines s in
    if code c == 10 then ([], keep_line rest.0 rest.1) else (c ∷ rest.0, rest.1)

unfoldable pub lines_of : String → List String
unfolding split_lines
lines_of text = keep_line (split_lines text).0 (split_lines text).1

-- the effect on `complete`
unfoldable pub on_complete : Tracker → Tracker
on_complete t = record t { progress = 100 }

-- A reply of `poll` (`none`: it failed, or its status was an error); the effect is gone if
-- `cancelled`.
unfoldable pub poll_reply : Bool → Option String → Tracker → Tracker
unfolding lines_of estimate_progress
poll_reply cancelled none t = t
poll_reply cancelled (some text) t =
    if cancelled
    then t
    else record t { log_lines = lines_of text; progress = estimate_progress text }

-- the effect on the lines, after the render
unfoldable pub on_lines : ℕ → Tracker → Tracker
on_lines now t =
    if ltb t.prev_len (length t.log_lines)
    then record t { last_change = now; stale = false; prev_len = length t.log_lines }
    else record t { prev_len = length t.log_lines }

-- a tick of the interval
unfoldable pub check_stale : ℕ → Tracker → Tracker
check_stale now t =
    if ltb 0 (length t.log_lines) && ltb 300000 (now - t.last_change)
    then record t { stale = true }
    else t
