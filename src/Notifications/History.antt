-- ===== src/Notifications/History.antt =====
-- web/src/pages/Notifications.tsx: the state of the page and its handlers, each split where it
-- waits. `requests` lists the history requests made, the latest first, as offset and filter.
use sentry_usb.Base.{
  ℕ, ◌+◌, ◌-◌, Bool, true, false, not, Option, none, some, List, [], ◌∷◌, String, str_eq,
  if◌then◌else◌, filter_by, ◌==◌,
}
use sentry_usb.Base.Int.{ℤ, pos, ◌-ℤ◌}

pub data Kind : Type 0 where
  archive_start archive_complete archive_error temperature keep_awake_failure update drives : Kind
  rtc_battery music_sync : Kind

-- `NotificationSettings`
abbrev pub Settings : Type 0
Settings = Kind → Bool

abbrev pub number : Kind → ℕ
number archive_start = 0
number archive_complete = 1
number archive_error = 2
number temperature = 3
number keep_awake_failure = 4
number update = 5
number drives = 6
number rtc_battery = 7
number music_sync = 8

-- `{ ...settings, [key]: !settings[key] }`
unfoldable pub flip : Kind → Settings → Settings
flip key settings k = if number k == number key then not (settings k) else settings k

-- the fields of an event that the handlers read
pub record NotificationEvent : Type 0 where
  pub id : String
  pub kind : String

pub record Page : Type 0 where
  pub events : List NotificationEvent
  pub total : ℤ
  pub loading : Bool
  pub settings : Option Settings
  pub saving_settings : Bool
  pub type_filter : String
  pub confirm_clear : Bool
  pub offset : ℕ
  pub requests : List (ℕ × String)

-- `loadHistory` up to its wait, and its reply (`none`: it failed)
unfoldable pub load_history : ℕ → String → Page → Page
load_history current_offset filter p = record p {
  loading = true;
  requests = (current_offset, filter) ∷ p.requests;
}

unfoldable pub history_reply : Option (List NotificationEvent × ℕ) → Page → Page
history_reply none p = record p { events = []; total = pos 0; loading = false }
history_reply (some (events, total)) p = record p {
  events = events;
  total = pos total;
  loading = false;
}

unfoldable pub settings_reply : Option Settings → Page → Page
settings_reply none p = record p { settings = some (λ k. true) }
settings_reply (some s) p = record p { settings = some s }

-- the state after the first render and its effect
unfoldable pub mount : Page
unfolding load_history
mount = load_history 0 "" (record {
  events = [];
  total = pos 0;
  loading = true;
  settings = none;
  saving_settings = false;
  type_filter = "";
  confirm_clear = false;
  offset = 0;
  requests = [];
})

-- `handleToggle` up to its wait: the settings that it sends, and its end, which has the
-- settings of before
unfoldable pub toggle_begin : Kind → Page → Page × Option Settings
unfolding flip
toggle_begin key p = elim p.settings [
  | none ↦ (p, none)
  | some s ↦ (record p { settings = some (flip key s); saving_settings = true }, some (flip key s))
]

unfoldable pub toggle_end : Option Settings → Bool → Page → Page
toggle_end before ok p =
    if ok
    then record p { saving_settings = false }
    else record p { settings = before; saving_settings = false }

-- `handleClearAll` on its first press, when its timer fires, and once the request has ended
unfoldable pub clear_all_begin : Page → Page × Bool
clear_all_begin p =
    if p.confirm_clear then (p, true) else (record p { confirm_clear = true }, false)

unfoldable pub clear_all_timeout : Page → Page
clear_all_timeout p = record p { confirm_clear = false }

unfoldable pub clear_all_reply : Bool → Page → Page
clear_all_reply thrown p =
    if thrown
    then record p { confirm_clear = false }
    else record p { events = []; total = pos 0; offset = 0; confirm_clear = false }

-- `handleDeleteOne` up to its wait, and when the request threw: it loads the page that was shown
-- when the button was pressed.
unfoldable pub delete_one : String → Page → Page
delete_one id p = record p {
  events = filter_by (λ e. not (str_eq e.id id)) p.events;
  total = p.total -ℤ pos 1;
}

unfoldable pub delete_one_failed : ℕ → String → Page → Page
unfolding load_history
delete_one_failed old_offset old_filter p = load_history old_offset old_filter p

-- `handleFilterChange`; a new filter makes a new `loadHistory`, so the effect runs again after
-- the render.
unfoldable pub handle_filter_change : String → Page → Page
unfolding load_history
handle_filter_change filter p =
    let shown = load_history 0 filter (record p { type_filter = filter; offset = 0 }) in
    if str_eq filter p.type_filter then shown else load_history 0 filter shown

pub data Direction : Type 0 where
  next prev : Direction

abbrev pub new_offset : Direction → ℕ → ℕ
new_offset next offset = offset + 50
new_offset prev offset = offset - 50

-- `handlePage`; subtraction stops at 0, as its `Math.max` does.
unfoldable pub handle_page : Direction → Page → Page
unfolding load_history
handle_page direction p =
    load_history (new_offset direction p.offset) p.type_filter
      (record p { offset = new_offset direction p.offset })
