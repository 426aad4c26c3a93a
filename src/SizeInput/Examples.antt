-- ===== src/SizeInput/Examples.antt =====
-- web/src/components/setup/steps/StorageStep.tsx: a size that is typed with other characters, and
-- a change of its unit.
use sentry_usb.Base.{◌≡◌, refl, List, [], ◌∷◌}
use sentry_usb.Base.Text.{concat, is_digit}
use sentry_usb.SizeInput.{
  megabytes, mount, numeric_val, digits_of, ends_with, handle_focus, handle_change, handle_blur,
  handle_unit_change, on_change, sync_unit, sync_local,
}
use sentry_usb.SizeInput.Committed.{
  Event, focus, blur, typed, unit_chosen, step, run, IsClean, run-IsClean,
}

abbrev events : List Event
events = focus ∷ typed "6x4 G" ∷ blur ∷ unit_chosen megabytes ∷ []

written : (run "30G" events (mount "32G")).raw ≡ "64M"
unfolding run step mount numeric_val digits_of ends_with handle_focus handle_change handle_blur
    handle_unit_change on_change sync_unit sync_local concat is_digit
written = refl

mounted-IsClean : IsClean (mount "32G")
unfolding mount numeric_val is_digit
mounted-IsClean = record { size = refl; local_digits = refl }

run-IsClean_example : IsClean (run "30G" events (mount "32G"))
unfolding is_digit
run-IsClean_example = run-IsClean "30G" events (mount "32G") refl mounted-IsClean
