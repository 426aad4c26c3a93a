-- ===== src/AwayMode/Examples.antt =====
-- web/src/hooks/useAwayMode.tsx: an entry left by an earlier visit, and a poll overtaken.
use sentry_usb.Base.{◌≡◌, refl, true, none, some, List, [], ◌∷◌, arith}
use sentry_usb.AwayMode.{
  active, AwayModeStatus, idle_status, Hook, mount, Event, polled, enabling, enabled, disabled, run,
  step, get_stored_away_mode,
}
use sentry_usb.AwayMode.Storage.{settled_run-IsConsistent}

abbrev away : AwayModeStatus
away = record {
  state = active;
  ap_ssid = some "SentryUSB";
  ap_ip = none;
  enabled_at = some "2025-01-01T00:00:00Z";
}

abbrev left : Hook
left = mount (some (record { enabled_at = "2024"; ap_ssid = ""; ap_ip = "" }))

abbrev evening : List Event
evening = enabling 20 ∷ enabled "now" away ∷ polled 15 true idle_status ∷ disabled 90 ∷ []

settled_run-IsConsistent_example :
    get_stored_away_mode (run (polled 10 true idle_status ∷ evening) left) ≡ none
unfolding run step mount
settled_run-IsConsistent_example =
    settled_run-IsConsistent (polled 10 true idle_status) evening left (refl, omega arith)
      (tt, (tt, (refl, (tt, (tt, tt))))) refl
