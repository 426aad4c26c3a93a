-- ===== src/KeepAwake.antt =====
-- web/src/hooks/useKeepAwake.tsx: the keep-awake status, the mode that the user prefers, and the
-- heartbeats of the automatic mode. A handler that waits for a reply is split at the wait. Times
-- are those of `Date.now()`; `sent` lists what went to the server, the latest first.
pub mod Polls
pub mod Heartbeats
mod Examples
use sentry_usb.Base.{
  ℕ, ◌+◌, ◌*◌, Bool, true, false, ◌&&◌, Option, none, some, List, [], ◌∷◌, String, str_eq, leb, ltb,
  if◌then◌else◌,
}

pub data Phase : Type 0 where
  idle pending active : Phase

pub record KeepAwakeStatus : Type 0 where
  pub state : Phase
  pub mode : String
  pub expires_at : Option String
  pub remaining_sec : Option ℕ

pub data Request : Type 0 where
  get_preference get_status delete_keep_awake : Request
  post_heartbeat : ℕ → Request
  post_start : ℕ → Request
  put_preference : String → Request

pub record Hook : Type 0 where
  pub status : KeepAwakeStatus
  pub mode : Option String
  pub last_heartbeat : ℕ
  pub last_mutation : ℕ
  pub activity_timer : Bool
  pub sent : List Request

-- `{ state: "idle", mode: "" }`
abbrev pub idle_status : KeepAwakeStatus
idle_status = record { state = idle; mode = ""; expires_at = none; remaining_sec = none }

unfoldable pub mount : Hook
mount = record {
  status = idle_status;
  mode = none;
  last_heartbeat = 0;
  last_mutation = 0;
  activity_timer = false;
  sent = get_preference ∷ [];
}

-- `"value" in data` is the outer option, and `data.value || ""` takes null for the empty text.
unfoldable pub load_preference : Option (Option String) → Hook → Hook
load_preference none h = h
load_preference (some none) h = record h { mode = some "" }
load_preference (some (some v)) h = record h { mode = some v }

-- A poll notes when it starts, and its reply counts if the effect is mounted and no start or stop
-- has come since.
unfoldable pub poll_begin : Hook → Hook
poll_begin h = record h { sent = get_status ∷ h.sent }

unfoldable pub poll_finish : ℕ → Bool → KeepAwakeStatus → Hook → Hook
poll_finish started_at mounted reply h =
    if mounted && leb h.last_mutation started_at then record h { status = reply } else h

unfoldable pub send_heartbeat : ℕ → Hook → Hook
send_heartbeat now h =
    if ltb now (h.last_heartbeat + 30000)
    then h
    else record h { last_heartbeat = now; sent = post_heartbeat now ∷ h.sent }

unfoldable pub heartbeat_reply : Phase → Hook → Hook
heartbeat_reply state h = record h { status = record (h.status) { state = state } }

-- The idle timer that it restarts does nothing when it fires.
unfoldable pub on_activity : ℕ → Hook → Hook
unfolding send_heartbeat
on_activity now h = send_heartbeat now (record h { activity_timer = true })

-- the effect on `mode`: heartbeats in the automatic mode alone
unfoldable pub auto_effect : ℕ → Hook → Hook
unfolding send_heartbeat
auto_effect now h = elim h.mode [
  | none ↦ h
  | some m ↦ if str_eq m "auto" then send_heartbeat now h else h
]

unfoldable pub start_begin : ℕ → ℕ → Hook → Hook
start_begin now duration_min h = record h {
  last_mutation = now;
  sent = post_start duration_min ∷ h.sent;
}

unfoldable pub start_finish : KeepAwakeStatus → Hook → Hook
start_finish reply h = record h { status = reply }

unfoldable pub stop : ℕ → Hook → Hook
stop now h = record h {
  last_mutation = now;
  status = idle_status;
  sent = delete_keep_awake ∷ h.sent;
}

-- `updateMode` up to the save, and from there on, whether the save succeeded or not
unfoldable pub update_mode_begin : String → Hook → Hook
update_mode_begin new_mode h = record h {
  mode = some new_mode;
  sent = put_preference new_mode ∷ h.sent;
}

unfoldable pub update_mode_saved : String → ℕ → Hook → Hook
unfolding stop
update_mode_saved new_mode now h =
    if str_eq new_mode "auto"
    then record h { last_heartbeat = 0; sent = post_heartbeat now ∷ h.sent }
    else if str_eq new_mode ""
    then stop now h
    else h
