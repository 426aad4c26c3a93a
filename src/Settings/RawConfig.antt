-- ===== src/Settings/RawConfig.antt =====
-- web/src/pages/Settings.tsx: `RawConfigEditor`. An object of the program is a list of keys and
-- values, in the order of the keys.
use sentry_usb.Base.{Bool, true, false, Option, none, some, List, [], ◌∷◌, String, if◌then◌else◌}
use sentry_usb.Base.Text.{trim, is_empty}
use sentry_usb.Base.Dict.{put}

pub record Entry : Type 0 where
  pub value : String
  pub active : Bool

pub record Editor : Type 0 where
  pub entries : List (String × Entry)
  pub saving : Bool
  pub save_msg : Option String
  pub new_key : String
  pub new_val : String

unfoldable pub mount : List (String × Entry) → Editor
mount config = record {
  entries = config;
  saving = false;
  save_msg = none;
  new_key = "";
  new_val = "";
}

abbrev pub keep_active : String → Entry → List (String × String) → List (String × String)
keep_active key e rest = if e.active then put key e.value rest else rest

-- `configData`: the loop writes the active entries to an empty object, one after the other.
unfoldable pub config_data : List (String × Entry) → List (String × String) → List (String × String)
unfolding put
config_data [] written = written
config_data ((key, e) ∷ es) written = config_data es (keep_active key e written)

-- `handleSave` up to its request, and its reply (`none`: it was accepted)
unfoldable pub save_begin : Editor → Editor × List (String × String)
unfolding config_data
save_begin s = (record s { saving = true; save_msg = none }, config_data s.entries [])

unfoldable pub save_reply : Option String → Editor → Editor
save_reply none s = record s { save_msg = some "Saved successfully"; saving = false }
save_reply (some text) s = record s { save_msg = some text; saving = false }

-- the timer of the message
unfoldable pub clear_save_msg : Editor → Editor
clear_save_msg s = record s { save_msg = none }

unfoldable pub add_entry : Editor → Editor
unfolding put trim
add_entry s = if is_empty (trim s.new_key) then s else record s {
  entries = put (trim s.new_key) (record { value = s.new_val; active = true }) s.entries;
  new_key = "";
  new_val = "";
}
