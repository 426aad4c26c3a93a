-- ===== src/Community/Admin.antt =====
-- web/src/pages/Community.tsx: the clicks on the heading, and the modal for the passcode.
use sentry_usb.Base.{
  ℕ, zero, suc, ◌+◌, Bool, true, false, ◌&&◌, Option, none, some, List, [], ◌∷◌, ◌++◌, ◌==◌, String,
  if◌then◌else◌, leb,
}
use sentry_usb.Base.Text.{trim, is_empty, truthy}

pub data View : Type 0 where
  wraps chimes : View

-- The modal is there while `show_passcode_prompt` is true, with its own fields; it is mounted anew each
-- time, and `opened` counts how often. `waiting` has the requests of `handleValidate` under way: the
-- modal that sent each, and the trimmed input. The timer of the clicks is set if `click_timer` is.
pub record Community : Type 0 where
  pub view : View
  pub admin_passcode : Option String
  pub show_passcode_prompt : Bool
  pub click_count : ℕ
  pub click_timer : Bool
  pub input : String
  pub error_text : Option String
  pub validating : Bool
  pub opened : ℕ
  pub waiting : List (ℕ × String)

unfoldable pub mount : Community
mount = record {
  view = wraps;
  admin_passcode = none;
  show_passcode_prompt = false;
  click_count = 0;
  click_timer = false;
  input = "";
  error_text = none;
  validating = false;
  opened = 0;
  waiting = [];
}

-- Opening the modal mounts it; it stays as it is if it is there already.
unfoldable pub open_prompt : Community → Community
open_prompt s = if s.show_passcode_prompt then s else record s {
  show_passcode_prompt = true;
  input = "";
  error_text = none;
  validating = false;
  opened = suc s.opened;
}

unfoldable pub handle_heading_click : Community → Community
unfolding open_prompt
handle_heading_click s =
    let counted = record s { click_count = s.click_count + 1; click_timer = true } in
    let reset = record counted { click_count = 0 } in
    if truthy s.admin_passcode
    then if leb 5 (s.click_count + 1) then record reset { admin_passcode = none } else counted
    else if leb 5 (s.click_count + 1)
    then open_prompt reset
    else counted

-- the timer of two seconds
unfoldable pub click_timeout : Community → Community
click_timeout s = if s.click_timer then record s { click_count = 0; click_timer = false } else s

-- the button that leaves the admin mode
unfoldable pub leave_admin : Community → Community
leave_admin s = record s { admin_passcode = none }

unfoldable pub type_input : String → Community → Community
type_input text s = record s { input = text }

-- `handleValidate` up to its wait. The button is off while the modal waits; the Enter key is not.
unfoldable pub validate_begin : Community → Community
unfolding trim
validate_begin s =
    let text = trim s.input in
    if is_empty text then s else record s {
      validating = true;
      error_text = none;
      waiting = s.waiting ++ (s.opened, text) ∷ [];
    }

pub data Validation : Type 0 where
  valid invalid unreachable : Validation

-- the changes of the modal's own fields, if it is still the one that is there
abbrev pub in_modal : ℕ → (Community → Community) → Community → Community
in_modal modal change s = if s.show_passcode_prompt && modal == s.opened then change s else s

-- `handleValidate` from the reply on. `onSuccess` belongs to the page and acts on it also when the
-- modal is closed by then, or another one is there.
unfoldable pub validate_reply : ℕ × String → Validation → Community → Community
validate_reply (modal, text) valid s = record s {
  admin_passcode = some text;
  show_passcode_prompt = false;
}
validate_reply (modal, text) invalid s =
    in_modal modal
      (λ t. record t { error_text = some "Invalid passcode"; input = ""; validating = false }) s
validate_reply (modal, text) unreachable s =
    in_modal modal (λ t. record t { error_text = some "Connection failed"; validating = false }) s

-- the request at a place of the list, and the others
abbrev pub pick : ℕ → List (ℕ × String) → Option ((ℕ × String) × List (ℕ × String))
pick i [] = none
pick zero (r ∷ rs) = some (r, rs)
pick (suc i) (r ∷ rs) = elim (pick i rs) [ none ↦ none | some (q, qs) ↦ some (q, r ∷ qs) ]

-- A reply comes to one of the requests under way, in any order.
unfoldable pub reply_at : ℕ → Validation → Community → Community
unfolding validate_reply
reply_at i v s = elim (pick i s.waiting) [
  | none ↦ s
  | some (request, rest) ↦ validate_reply request v (record s { waiting = rest })
]

unfoldable pub close_prompt : Community → Community
close_prompt s = record s { show_passcode_prompt = false }

-- The modal can be closed while it waits. Its field and its buttons are there only while it is.
pub data Event : Type 0 where
  clicked timed_out left closed submitted : Event
  typed : String → Event
  replied : ℕ → Validation → Event

unfoldable pub step : Event → Community → Community
unfolding handle_heading_click click_timeout leave_admin type_input validate_begin reply_at
    close_prompt
step clicked s = handle_heading_click s
step timed_out s = click_timeout s
step left s = leave_admin s
step closed s = close_prompt s
step submitted s = if s.show_passcode_prompt then validate_begin s else s
step (typed text) s = if s.show_passcode_prompt then type_input text s else s
step (replied i v) s = reply_at i v s

abbrev pub run : List Event → Community → Community
run [] s = s
run (e ∷ es) s = run es (step e s)
