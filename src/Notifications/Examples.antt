-- ===== src/Notifications/Examples.antt =====
-- web/src/pages/Notifications.tsx: switches, a filter and pages.
use sentry_usb.Base.{◌≡◌, refl, Bool, true, false, some, List, [], ◌∷◌}
use sentry_usb.Notifications.History.{
  Kind, archive_start, drives, update, Page, Settings, mount, load_history,
}
use sentry_usb.Notifications.Toggles.{Session, presses, accepted, toggled, presses-accepted}

abbrev shown : Page
unfolding mount load_history
shown = record mount { settings = some (λ k. true) }

abbrev all_on : Settings
all_on k = true

abbrev opened : Session
opened = record { page = shown; requests = [] }

abbrev pressed : List (Kind × Bool)
pressed = (drives, true) ∷ (update, false) ∷ (drives, true) ∷ (archive_start, true) ∷ []

presses-accepted_example :
    ((presses pressed opened).page.settings
      ≡ some (accepted all_on (presses pressed opened).requests))
    × ((k : Kind) → accepted all_on (presses pressed opened).requests k ≡ toggled k pressed true)
unfolding shown
presses-accepted_example = presses-accepted all_on pressed opened refl
