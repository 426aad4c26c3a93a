-- ===== src/SetupProgress/Examples.antt =====
-- web/src/components/setup/SetupProgress.tsx: a log of a few lines, and one that stops.
use sentry_usb.Base.{
  ℕ, ◌+◌, ◌≤◌, ◌<◌, ◌≡◌, ◌⊎◌, refl, true, none, some, List, [], ◌∷◌, String, All, length,
}
use sentry_usb.Base.Text.{includes, has_prefix, concat}
use sentry_usb.SetupProgress.Estimate.{
  estimate_progress, highest_marker, matches, both_on_line, on_line, includes_any_case,
  has_prefix_any_case, stage_markers,
}
use sentry_usb.SetupProgress.Bounds.{IsBelow, is_worth, estimate_progress-max}
use sentry_usb.SetupProgress.Tracking.{mount, check_stale, lines_of, split_lines}
use sentry_usb.SetupProgress.Stale.{polled, checked, Event, run, end_time, last_growth, run-stale}

estimated :
    (estimate_progress "x: Mounting the backing file" ≡ 50)
    × (estimate_progress "Mounting\nbacking" ≡ 0)
    × (estimate_progress "Setup Completed" ≡ 100)
    × (lines_of "a\n\nb\n" ≡ "a" ∷ "b" ∷ [])
unfolding estimate_progress highest_marker matches both_on_line on_line includes_any_case
    has_prefix_any_case includes has_prefix lines_of split_lines
estimated = (refl, refl, refl, refl)

estimate_progress-max_example :
    All (IsBelow "cmdline.txt" (estimate_progress "cmdline.txt")) stage_markers
    × ((estimate_progress "cmdline.txt" ≡ 0)
        ⊎ (is_worth "cmdline.txt" stage_markers (estimate_progress "cmdline.txt") ≡ true))
    × (estimate_progress "cmdline.txt" ≤ 100)
    × ((t : String) → estimate_progress "cmdline.txt" ≤ estimate_progress (concat "cmdline.txt" t))
estimate_progress-max_example = estimate_progress-max "cmdline.txt"

abbrev events : List (ℕ × Event)
events = (0, polled (some "a\nb")) ∷ (3000, polled none) ∷ (400000, checked) ∷ []

run-stale_example :
    ((run 5 events (mount 5)).stale ≡ true → last_growth 5 0 5 events + 300000 < end_time 5 events)
    × ((now : ℕ)
        → last_growth 5 0 5 events + 300000 < now
        → 0 < length (run 5 events (mount 5)).log_lines
        → (check_stale now (run 5 events (mount 5))).stale ≡ true)
run-stale_example = run-stale 5 events
