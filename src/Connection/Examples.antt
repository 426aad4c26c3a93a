-- ===== src/Connection/Examples.antt =====
-- web/src/hooks/useConnectionStatus.tsx: three failed polls in a row.
use sentry_usb.Base.{◌≡◌, ◌≤◌, ◌↔◌, refl, true, false, List, [], ◌∷◌}
use sentry_usb.Ws.{initial}
use sentry_usb.Connection.{
  connected, disconnected, reconnecting, Event, polled, poll_failed, clicked, run, step, mount,
}
use sentry_usb.Connection.Failures.{latest, failures, success, failure, run-state_iff}

abbrev outage : List Event
outage = poll_failed true ∷ polled true false ∷ poll_failed true ∷ polled true true ∷ []

outage_shown :
    ((run initial outage).state ≡ disconnected)
    × ((run initial (clicked ∷ outage)).state ≡ reconnecting)
unfolding run step mount
outage_shown = (refl, refl)

run-state_iff_example :
    (((run initial outage).state ≡ connected) ↔ (latest outage ≡ success))
    × (((run initial outage).state ≡ disconnected)
        ↔ ((latest outage ≡ failure) × (3 ≤ failures outage)))
run-state_iff_example = run-state_iff initial outage
