-- ===== src/Community/Examples.antt =====
-- web/src/pages/Community.tsx: the way into the admin mode, with a modal that is closed too early.
use sentry_usb.Base.{◌≤◌, ◌≡◌, refl, true, List, [], ◌∷◌, filter_by, length, any}
use sentry_usb.Base.Text.{trim, trim_start, trim_end, is_space}
use sentry_usb.Community.Admin.{
  Event, clicked, typed, submitted, closed, replied, valid, step, handle_heading_click, open_prompt,
  validate_begin, validate_reply, reply_at, close_prompt, type_input, mount,
}
use sentry_usb.Community.Entering.{is_click, is_valid, run-admin}

abbrev events : List Event
events =
    clicked
    ∷ clicked
    ∷ clicked
    ∷ clicked
    ∷ clicked
    ∷ typed " 42 "
    ∷ submitted
    ∷ closed
    ∷ replied 0 valid
    ∷ []

run-admin_example : (5 ≤ length (filter_by is_click events)) × (any is_valid events ≡ true)
unfolding step handle_heading_click open_prompt validate_begin validate_reply reply_at close_prompt
    type_input mount trim trim_start trim_end is_space
run-admin_example = run-admin events refl
