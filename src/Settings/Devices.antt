-- ===== src/Settings/Devices.antt =====
-- web/src/pages/Settings.tsx: `MobileNotificationsSection`: the pairing code and the devices.
use sentry_usb.Base.{
  ℕ, ◌-◌, ◌/◌, Bool, true, false, not, Option, none, some, List, [], String, str_eq, leb,
  if◌then◌else◌, filter_by,
}
use sentry_usb.Base.Text.{is_empty}

pub record PairedDevice : Type 0 where
  pub id : Option String
  pub pairing_id : Option String
  pub device_name : String

pub data TestState : Type 0 where
  idle loading success error : TestState

-- Times are milliseconds.
pub record Devices : Type 0 where
  pub pairing_code : Option String
  pub expires_at : Option ℕ
  pub paired_devices : List PairedDevice
  pub is_loading : Bool
  pub devices_loading : Bool
  pub error_text : Option String
  pub countdown : ℕ
  pub test_state : TestState

unfoldable pub mount : Devices
mount = record {
  pairing_code = none;
  expires_at = none;
  paired_devices = [];
  is_loading = false;
  devices_loading = true;
  error_text = none;
  countdown = 0;
  test_state = idle;
}

-- `??`
abbrev pub or_else : Option String → Option String → Option String
or_else none other = other
or_else (some t) other = some t

abbrev pub or_empty : Option String → String
or_empty none = ""
or_empty (some t) = t

unfoldable pub device_pairing_id : PairedDevice → String
device_pairing_id d = or_empty (or_else d.id d.pairing_id)

-- The interval that counts down while a code is shown. Before the end the difference of the times
-- is rounded down, and after it the result is 0.
abbrev remaining : ℕ → ℕ → ℕ
remaining expires_at now = (expires_at - now) / 1000

unfoldable pub tick : ℕ → Devices → Devices
tick now s = elim s.expires_at [
  | none ↦ s
  | some t ↦
      if leb (remaining t now) 0
      then record s { countdown = remaining t now; pairing_code = none; expires_at = none }
      else record s { countdown = remaining t now }
]

-- the reply to `loadPairedDevices` (`none`: it failed or was not accepted)
unfoldable pub load_paired_devices : Option (List PairedDevice) → Devices → Devices
load_paired_devices none s = record s { devices_loading = false }
load_paired_devices (some devices) s = record s {
  paired_devices = devices;
  devices_loading = false;
}

-- The reply to `generateCode`: the code and its end, or a text for the error.
pub data CodeReply : Type 0 where
  code : String → ℕ → CodeReply
  failed : String → CodeReply

unfoldable pub generate_begin : Devices → Devices
generate_begin s = record s { is_loading = true; error_text = none }

unfoldable pub generate_reply : CodeReply → Devices → Devices
generate_reply (code c t) s = record s {
  pairing_code = some c;
  expires_at = some t;
  is_loading = false;
}
generate_reply (failed text) s = record s { error_text = some text; is_loading = false }

-- `removeDevice`, with whether the server accepted it
unfoldable pub remove_device : String → Bool → Devices → Devices
unfolding device_pairing_id
remove_device pairing_id accepted s =
    let left = filter_by (λ d. not (str_eq (device_pairing_id d) pairing_id)) s.paired_devices in
    if is_empty pairing_id then s else if accepted then record s { paired_devices = left } else s

unfoldable pub test_begin : Devices → Devices
test_begin s = record s { test_state = loading }

unfoldable pub test_reply : Bool → Devices → Devices
test_reply accepted s = record s { test_state = if accepted then success else error }

unfoldable pub test_reset : Devices → Devices
test_reset s = record s { test_state = idle }
