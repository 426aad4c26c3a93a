-- ===== src/Migration/Examples.antt =====
-- web/src/hooks/useMigrationStatus.tsx: a migration that is active from the first broadcast on.
use sentry_usb.Base.{true, none, some, List, [], ◌∷◌}
use sentry_usb.Migration.{Partial}
use sentry_usb.Migration.Delays.{Event, polled, broadcast}

abbrev half : Partial
half = record { active = some true; done = some 5; total = some 10; error = none; disk_full = none }

abbrev events : List Event
events = broadcast half ∷ polled none ∷ []
