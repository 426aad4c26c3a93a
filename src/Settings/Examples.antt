-- ===== src/Settings/Examples.antt =====
-- web/src/pages/Settings.tsx: a pairing, an update, a check for updates, and the other controls at
-- concrete values.
use sentry_usb.Base.{◌≡◌, refl, true, false, ◌&&◌, Option, none, some, List, [], ◌∷◌, String, any}
use sentry_usb.Base.Text.{trim, trim_start, trim_end, is_space}
use sentry_usb.Base.Dict.{get}
use sentry_usb.Base.Exec.{Answer, answered}
use sentry_usb.Settings.Ble.{BleState, paired, error, Ble, reply, receive, start_polling, cleanup}
use sentry_usb.Settings.Pairing.{IsIn, outcome, poll_all, poll_all-outcome}
use sentry_usb.Settings.Update.{
  Offer, CheckData, Update, done as complete_status, error as failed_status,
}
use sentry_usb.Settings.Install.{
  Install, handle_install_update, Message, ok, message, internet_replied, update_replied,
  start_fired, ticked, version_replied, Event, step, run,
}
use sentry_usb.Settings.Complete.{
  is_accepted, is_start, is_version, run-reconnected, receive_all, after_restart,
  failed_update-done,
}
use sentry_usb.Settings.RawConfig.{Editor, save_begin, add_entry}
use sentry_usb.Settings.SavedConfig.{distinct_keys, save-add_entry}
use sentry_usb.Settings.Ble
use sentry_usb.Settings.Update

abbrev statuses : List (Option String)
statuses = none ∷ some "keys_generated" ∷ some "paired" ∷ none ∷ []

poll_all-outcome_example :
    IsIn 0 (outcome 12 statuses) (poll_all 0 statuses (receive "waiting" none Ble.mount))
unfolding Ble.mount
poll_all-outcome_example = poll_all-outcome none Ble.mount statuses

abbrev newer : Offer
newer = record { version = "2"; release_url = "u"; release_notes = "n" }

abbrev found : CheckData
found = record {
  error_text = none;
  stable = some newer;
  latest = none;
  prerelease = none;
  revert_stable = none;
  current_version = some "1";
}

abbrev server : String → Answer CheckData
server url = answered found

abbrev broken_update : Message
broken_update = record { status = none; message = none; error_text = some "no space" }

abbrev events : List Event
events =
    internet_replied (ok true)
    ∷ update_replied (ok true)
    ∷ message broken_update
    ∷ start_fired
    ∷ ticked
    ∷ version_replied (some (some "2"))
    ∷ []

run-reconnected_example :
    any is_accepted events && any is_start events && any is_version events ≡ true
unfolding handle_install_update step Update.mount
run-reconnected_example = run-reconnected Update.mount events refl

abbrev accepted : Install
accepted = step (internet_replied (ok true)) (handle_install_update Update.mount)

failed_update-done_example :
    let j =
      step (message broken_update) (receive_all [] (step (update_replied (ok true)) accepted)) in
    (j.page.update_status ≡ failed_status)
    × ((run (after_restart (some "2")) j).page.update_status ≡ complete_status)
    × ((run (after_restart (some "2")) j).page.update_error ≡ some "no space")
unfolding handle_install_update step Update.mount
failed_update-done_example = failed_update-done accepted [] broken_update (some "2") refl refl refl

abbrev editor : Editor
editor = record {
  entries =
      ("A", record { value = "1"; active = true })
      ∷ ("B", record { value = "2"; active = false })
      ∷ [];
  saving = false;
  save_msg = none;
  new_key = " C ";
  new_val = "3";
}

save-add_entry_example :
    (get "B" (save_begin editor).1 ≡ none)
    × (get "C" (save_begin (add_entry editor)).1 ≡ some "3")
    × (distinct_keys (add_entry editor).entries ≡ true)
unfolding get trim trim_start trim_end is_space
save-add_entry_example = save-add_entry "B" editor refl refl
