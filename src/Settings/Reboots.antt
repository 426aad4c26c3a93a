-- ===== src/Settings/Reboots.antt =====
-- web/src/pages/Settings.tsx: how often `handleReboot` restarts the device.
use sentry_usb.Base.{ℕ, ◌+◌, ◌*◌, ◌≤◌, Bool, List, [], ◌∷◌, if◌then◌else◌, arith, filter_by, length}
use sentry_usb.Settings.Controls.{
  Reboot, Event, clicked, confirm_expired, button_reset, step, run, is_click, handle_reboot,
  handle_click, at_rest,
}

abbrev confirmed : Bool → ℕ
confirmed b = if b then 1 else 0

run-count :
    (es : List Event) (s : Reboot)
    → 2 * (run es s).reboots + confirmed (run es s).confirm_reboot
      ≤ 2 * s.reboots + confirmed s.confirm_reboot + length (filter_by is_click es)
unfolding step handle_reboot handle_click
run-count [] s = omega arith
run-count (clicked ∷ es) s = ground (arith, run-count es (step clicked s))
run-count (confirm_expired ∷ es) s = ground (arith, run-count es (step confirm_expired s))
run-count (button_reset ∷ es) s = ground (arith, run-count es (step button_reset s))

-- Whatever the order of clicks and timers, every request for a reboot takes two clicks of its own.
reboots-bound : (es : List Event) → 2 * (run es at_rest).reboots ≤ length (filter_by is_click es)
reboots-bound es = ground (arith, run-count es at_rest)
