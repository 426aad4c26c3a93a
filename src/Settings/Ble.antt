-- ===== src/Settings/Ble.antt =====
-- web/src/pages/Settings.tsx: `BlePairButton`. An interval and the timer that guards it are set
-- together and carry the same number.
use sentry_usb.Base.{
  ℕ, suc, ◌+◌, Bool, true, false, not, ◌&&◌, Option, none, some, String, str_eq, leb, ◌==◌,
  if◌then◌else◌,
}
use sentry_usb.Base.Text.{includes, is_empty}

pub data BleState : Type 0 where
  idle initiating waiting polling paired error : BleState

-- `counts n` is the variable `count` that the callbacks of interval `n` share; `next` is the number
-- of the interval that is set next. `requests` counts the requests for a pairing.
pub record Ble : Type 0 where
  pub ble_state : BleState
  pub ble_msg : String
  pub poll_ref : Option ℕ
  pub timeout_ref : Option ℕ
  pub counts : ℕ → ℕ
  pub next : ℕ
  pub requests : ℕ

unfoldable pub mount : Ble
mount = record {
  ble_state = idle;
  ble_msg = "";
  poll_ref = none;
  timeout_ref = none;
  counts = λ n. 0;
  next = 0;
  requests = 0;
}

abbrev pub is : String → Option String → Bool
is text none = false
is text (some status) = str_eq status text

abbrev pub show : BleState → String → Ble → Ble
show state text s = record s { ble_state = state; ble_msg = text }

-- The reply to the first request (`none`: it failed), and that to the full verification.
unfoldable pub quick_reply : Option String → Ble → Ble
quick_reply r s =
    if is "paired" r
    then show paired "Paired — click to re-pair" s
    else if is "keys_generated" r
    then show idle "" s
    else s

unfoldable pub full_reply : Option String → Ble → Ble
full_reply r s = if is "paired" r then show paired "Paired — click to re-pair" s else s

unfoldable pub cleanup : Ble → Ble
cleanup s = record s { poll_ref = none; timeout_ref = none }

unfoldable pub start_polling : Ble → Ble
unfolding cleanup
start_polling s =
    let t = cleanup s in
    record t {
      poll_ref = some s.next;
      timeout_ref = some s.next;
      counts = λ n. if n == s.next then 0 else s.counts n;
      next = suc s.next;
    }

abbrev pub is_timer : Option ℕ → ℕ → Bool
is_timer none n = false
is_timer (some m) n = m == n

-- The interval calls its function, which counts and asks for the status.
unfoldable pub tick : ℕ → Ble → Ble
tick n s =
    if is_timer s.poll_ref n
    then record s { counts = λ m. if m == n then suc (s.counts n) else s.counts m }
    else s

abbrev pub timed_out : String
timed_out =
    "Pairing timed out. Make sure you tapped your keycard on the center console, then try again."

-- The reply to a request of interval `n`: the status, or `none` if there is none.
unfoldable pub reply : ℕ → Option String → Ble → Ble
unfolding cleanup
reply n r s =
    if is "paired" r
    then cleanup (show paired "Successfully paired with car!" s)
    else if leb 12 (s.counts n)
    then cleanup (show error timed_out s)
    else s

-- The timer of 65 seconds. Its function was made in the first render: the state it reads is `idle`.
abbrev pub is_final : BleState → Bool
is_final paired = true
is_final error = true
is_final idle = false
is_final initiating = false
is_final waiting = false
is_final polling = false

unfoldable pub timeout : ℕ → Ble → Ble
unfolding cleanup
timeout n s =
    if is_timer s.timeout_ref n && not (is_final idle)
    then cleanup (show error "Pairing timed out. Please try again." s)
    else s

abbrev pub message_of : String → String
message_of e =
    if includes "maximum number of BLE" e
    then "Too many BLE devices active. Turn off Bluetooth on nearby phone keys and try again."
    else if includes "timed out" e
    then "BLE connection timed out. Make sure the Pi is near the car and try again."
    else e

abbrev or_text : Option String → String → String
or_text none text = text
or_text (some e) text = if is_empty e then text else e

-- a message of the server: its status and its error
unfoldable pub receive : String → Option String → Ble → Ble
unfolding cleanup start_polling
receive status e s =
    if str_eq status "pairing"
    then show initiating "Sending pairing request to car..." s
    else if str_eq status "error"
    then cleanup (show error (message_of (or_text e "Unknown error")) s)
    else if str_eq status "waiting"
    then start_polling (show waiting "Tap your keycard on the center console to confirm pairing." s)
    else s

-- `handlePair` up to its request, and what the request comes to (`none`: it was accepted)
unfoldable pub handle_pair : Ble → Ble
handle_pair s = record (show initiating "Sending pairing request..." s) {
  requests = s.requests + 1;
}

unfoldable pub pair_reply : Option String → Ble → Ble
pair_reply none s = s
pair_reply (some text) s = show error text s

unfoldable pub handle_reset : Ble → Ble
unfolding cleanup
handle_reset s = show idle "" (cleanup s)

-- `onClick`
unfoldable pub click : Ble → Ble
unfolding handle_pair handle_reset
click s = elim s.ble_state [
  | idle ↦ handle_pair s
  | paired ↦ handle_pair s
  | error ↦ handle_reset s
  | initiating ↦ s
  | waiting ↦ s
  | polling ↦ s
]
