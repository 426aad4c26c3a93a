-- ===== src/Settings/Controls.antt =====
-- web/src/pages/Settings.tsx: the button of an action, the toggle of the drives, and the reboot.
use sentry_usb.Base.{
  ℕ, ◌+◌, Bool, true, false, not, Option, none, some, List, [], ◌∷◌, String, str_eq, if◌then◌else◌,
}

pub data ActionState : Type 0 where
  idle loading success error : ActionState

abbrev pub is_loading : ActionState → Bool
is_loading loading = true
is_loading idle = false
is_loading success = false
is_loading error = false

-- What `onClick` comes to: a text or nothing, or an exception with its text, if it is an `Error`.
pub data Result : Type 0 where
  gave : Option String → Result
  failed : Option String → Result

pub record ActionButton : Type 0 where
  pub action_state : ActionState
  pub msg : String

unfoldable pub start : ActionButton → ActionButton
start b = record b { action_state = loading; msg = "" }

abbrev pub or_default : Option String → String → String
or_default none text = text
or_default (some t) text = t

abbrev is_confirm : Option String → Bool
is_confirm none = false
is_confirm (some t) = str_eq t "confirm"

unfoldable pub finish : String → String → Result → ActionButton → ActionButton
finish success_message error_message (gave t) b =
    if is_confirm t
    then record b { action_state = idle; msg = "" }
    else record b { action_state = success; msg = or_default t success_message }
finish success_message error_message (failed t) b = record b {
  action_state = error;
  msg = or_default t error_message;
}

-- the timer of five seconds
unfoldable pub reset : ActionButton → ActionButton
reset b = record b { action_state = idle; msg = "" }

-- `handleClick`, with what `onClick` comes to
unfoldable pub handle_click : String → String → Result → ActionButton → ActionButton
unfolding start finish
handle_click success_message error_message r b =
    if is_loading b.action_state then b else finish success_message error_message r (start b)

-- `UsbDriveToggle`: a reply is `none` if the request failed.
pub record UsbDriveToggle : Type 0 where
  pub toggle_state : ActionState
  pub connected : Option Bool
  pub toggles : ℕ

unfoldable pub poll : Bool → Option String → UsbDriveToggle → UsbDriveToggle
poll mounted none s = s
poll mounted (some drives_active) s =
    if mounted then record s { connected = some (str_eq drives_active "yes") } else s

unfoldable pub toggle_begin : UsbDriveToggle → UsbDriveToggle
toggle_begin s =
    if is_loading s.toggle_state
    then s
    else record s { toggle_state = loading; toggles = s.toggles + 1 }

unfoldable pub toggle_reply : Bool → Option String → UsbDriveToggle → UsbDriveToggle
unfolding poll
toggle_reply accepted status s =
    if accepted
    then poll true status (record s { toggle_state = success })
    else record s { toggle_state = error }

unfoldable pub toggle_reset : UsbDriveToggle → UsbDriveToggle
toggle_reset s = record s { toggle_state = idle }

-- `handleReboot` under its button. `reboots` counts the requests.
pub record Reboot : Type 0 where
  pub button : ActionButton
  pub confirm_reboot : Bool
  pub reboots : ℕ

abbrev pub at_rest : Reboot
at_rest = record {
  button = record { action_state = idle; msg = "" };
  confirm_reboot = false;
  reboots = 0;
}

unfoldable pub handle_reboot : Reboot → Option String × Reboot
handle_reboot s =
    if not s.confirm_reboot
    then (some "confirm", record s { confirm_reboot = true })
    else (some "Rebooting...", record s { confirm_reboot = false; reboots = s.reboots + 1 })

abbrev pub click : Reboot → Reboot
unfolding handle_reboot handle_click
click s =
    let r = handle_reboot s in
    let b = handle_click "Done!" "Failed" (gave r.0) s.button in
    if is_loading s.button.action_state then s else record r.1 { button = b }

-- A click, the timer of ten seconds, and that of the button.
pub data Event : Type 0 where
  clicked confirm_expired button_reset : Event

unfoldable pub step : Event → Reboot → Reboot
unfolding click reset
step clicked s = click s
step confirm_expired s = record s { confirm_reboot = false }
step button_reset s = record s { button = reset s.button }

abbrev pub run : List Event → Reboot → Reboot
run [] s = s
run (e ∷ es) s = run es (step e s)

abbrev pub is_click : Event → Bool
is_click clicked = true
is_click confirm_expired = false
is_click button_reset = false
