-- ===== src/Logs/Levels.antt =====
-- web/src/pages/Logs.tsx: `classifyLevel`.
use sentry_usb.Base.{Bool, not, ◌||◌, List, [], ◌∷◌, String, str_eq, any, if◌then◌else◌}
use sentry_usb.Base.Text.{includes, is_empty}

pub data LogLevel : Type 0 where
  error warning success info debug plain : LogLevel

abbrev pub error_words : List String
error_words =
    "error" ∷ "failed" ∷ "giving up" ∷ "unable to" ∷ "killed" ∷ "fatal" ∷ "connection dead" ∷ []

abbrev pub warning_words : List String
warning_words =
    "warning" ∷ "warn" ∷ "retrying" ∷ "retry" ∷ "timed out" ∷ "timeout" ∷ "stale lock"
    ∷ "still running" ∷ "still processing" ∷ "unreachable" ∷ "skipping" ∷ "falling back"
    ∷ "network lost" ∷ "not mounted" ∷ "not supported" ∷ "not enabled" ∷ "incomplete" ∷ "discarding"
    ∷ "cycling wifi" ∷ []

abbrev pub success_words : List String
success_words =
    "nudge ok" ∷ "success" ∷ "enabled" ∷ "disabled" ∷ "restored" ∷ "complete" ∷ "finished"
    ∷ "started" ∷ "ready" ∷ "acquired" ∷ "mounted" ∷ "unmounted" ∷ "connected" ∷ "disconnected"
    ∷ "reachable" ∷ "reconnected" ∷ "took snapshot" ∷ "synced" ∷ "done" ∷ "up to date"
    ∷ "trim complete" ∷ "rebuilt" ∷ "removed" ∷ "time adjusted" ∷ []

abbrev pub info_words : List String
info_words =
    "starting" ∷ "archiving" ∷ "processing" ∷ "syncing" ∷ "copying" ∷ "checking" ∷ "running"
    ∷ "disabling" ∷ "restoring" ∷ "queued" ∷ "waiting" ∷ "trimming" ∷ "cleaning" ∷ "making"
    ∷ "comparing" ∷ "detecting" ∷ "rebuilding" ∷ "taking snapshot" ∷ "ensuring" ∷ "tearing down"
    ∷ "temperature monitor" ∷ "command sent" ∷ "update available" ∷ []

unfoldable pub mentions : List String → String → Bool
unfolding includes
mentions words text = any (λ word. includes word text) words

unfoldable pub classify_level : (String → String) → String → String → LogLevel
unfolding mentions
classify_level to_lower_case message tag =
    let lower = to_lower_case message in
    if str_eq tag "away-mode"
    then warning
    else if mentions error_words lower
    then error
    else if mentions warning_words lower
    then warning
    else if mentions success_words lower
    then success
    else if not (is_empty tag) || mentions info_words lower
    then info
    else plain
