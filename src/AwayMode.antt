-- ===== src/AwayMode.antt =====
-- web/src/hooks/useAwayMode.tsx: the away-mode status and its copy in the browser's local storage,
-- which outlives the connection. A handler that waits for a reply is split at the wait.
pub mod Storage
mod Examples
use sentry_usb.Base.{
  ℕ, Bool, true, false, ◌&&◌, Option, none, some, List, [], ◌∷◌, String, leb, if◌then◌else◌,
}

pub data Phase : Type 0 where
  idle active : Phase

abbrev pub is_idle : Phase → Bool
is_idle idle = true
is_idle active = false

pub record AwayModeStatus : Type 0 where
  pub state : Phase
  pub ap_ssid : Option String
  pub ap_ip : Option String
  pub enabled_at : Option String

-- what `getStoredAwayMode` reads back
pub record Stored : Type 0 where
  pub enabled_at : String
  pub ap_ssid : String
  pub ap_ip : String

pub record Hook : Type 0 where
  pub status : AwayModeStatus
  pub last_mutation : ℕ
  pub stored : Option Stored

abbrev pub idle_status : AwayModeStatus
idle_status = record { state = idle; ap_ssid = none; ap_ip = none; enabled_at = none }

-- The storage is what an earlier visit left.
unfoldable pub mount : Option Stored → Hook
mount left = record { status = idle_status; last_mutation = 0; stored = left }

-- `getStoredAwayMode`
unfoldable pub get_stored_away_mode : Hook → Option Stored
get_stored_away_mode h = h.stored

unfoldable pub poll_finish : ℕ → Bool → AwayModeStatus → Hook → Hook
poll_finish started_at mounted reply h =
    if mounted && leb h.last_mutation started_at
    then record h { status = reply; stored = if is_idle reply.state then none else h.stored }
    else h

unfoldable pub enable_begin : ℕ → Hook → Hook
enable_begin now h = record h { last_mutation = now }

abbrev pub or_text : Option String → String → String
or_text none d = d
or_text (some s) d = s

-- the reply to `enable`; `now_iso` is the text of the current time
unfoldable pub enable_finish : String → AwayModeStatus → Hook → Hook
enable_finish now_iso reply h = record h {
  status = reply;
  stored = some (record {
    enabled_at = or_text reply.enabled_at now_iso;
    ap_ssid = or_text reply.ap_ssid "";
    ap_ip = or_text reply.ap_ip "";
  });
}

unfoldable pub disable : ℕ → Hook → Hook
disable now h = record h { last_mutation = now; status = idle_status; stored = none }

pub data Event : Type 0 where
  polled : ℕ → Bool → AwayModeStatus → Event
  enabling : ℕ → Event
  enabled : String → AwayModeStatus → Event
  disabled : ℕ → Event

unfoldable pub step : Event → Hook → Hook
unfolding poll_finish enable_begin enable_finish disable
step (polled t m r) h = poll_finish t m r h
step (enabling now) h = enable_begin now h
step (enabled iso r) h = enable_finish iso r h
step (disabled now) h = disable now h

unfoldable pub run : List Event → Hook → Hook
run [] h = h
run (e ∷ es) h = run es (step e h)
