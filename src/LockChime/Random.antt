-- ===== src/LockChime/Random.antt =====
-- web/src/pages/LockChime.tsx: the settings of the random mode.
use sentry_usb.Base.{
  ℕ, Bool, true, false, not, ◌||◌, Option, none, some, List, [], ◌∷◌, String, str_eq, if◌then◌else◌,
}
use sentry_usb.Base.Text.{is_empty}
use sentry_usb.Base.Exec.{Answer, answered, refused, unreachable}
use sentry_usb.LockChime.Library.{ToastKind, success, error}

pub record RandomConfig : Type 0 where
  pub enabled : Bool
  pub mode : String
  pub interval : String
  pub hour : ℕ
  pub day : ℕ
  pub has_rtc : Bool
  pub has_ble : Bool

-- the body of the request
pub record Body : Type 0 where
  pub enabled : Bool
  pub mode : String
  pub interval : String

-- `sent` has the bodies, the latest first.
pub record Random : Type 0 where
  pub random_cfg : RandomConfig
  pub random_loading : Bool
  pub saving_random : Bool
  pub random_expanded : Bool
  pub show_random_disclaimer : Bool
  pub pending_random_cfg : Option RandomConfig
  pub toast : Option (String × ToastKind)
  pub sent : List Body

unfoldable pub mount : Random
mount = record {
  random_cfg = record {
    enabled = false;
    mode = "on_connect";
    interval = "daily";
    hour = 3;
    day = 0;
    has_rtc = false;
    has_ble = false;
  };
  random_loading = true;
  saving_random = false;
  random_expanded = false;
  show_random_disclaimer = false;
  pending_random_cfg = none;
  toast = none;
  sent = [];
}

-- the reply to `fetchRandomConfig`
unfoldable pub fetch_random_config : Answer RandomConfig → Random → Random
fetch_random_config (answered cfg) s = record s { random_cfg = cfg; random_loading = false }
fetch_random_config (refused text) s = record s { random_loading = false }
fetch_random_config (unreachable text) s = record s { random_loading = false }

-- `handleSaveRandomConfig`: its request, and the answer, which says whether the mode is enabled
unfoldable pub save_begin : RandomConfig → Random → Random
save_begin cfg s = record s {
  saving_random = true;
  sent = record { enabled = cfg.enabled; mode = cfg.mode; interval = cfg.interval } ∷ s.sent;
}

unfoldable pub save_finish : RandomConfig → Answer Bool → Random → Random
save_finish cfg (answered enabled) s = record s {
  random_cfg = record cfg { enabled = enabled };
  toast = some (if cfg.enabled then "Random mode enabled" else "Random mode disabled", success);
  saving_random = false;
}
save_finish cfg (refused text) s = record s { toast = some (text, error); saving_random = false }
save_finish cfg (unreachable text) s = record s {
  toast = some (text, error);
  saving_random = false;
}

unfoldable pub handle_save_random_config : RandomConfig → Answer Bool → Random → Random
unfolding save_begin save_finish
handle_save_random_config cfg a s = save_finish cfg a (save_begin cfg s)

abbrev ask_first : RandomConfig → Random → Random
ask_first cfg s = record s { pending_random_cfg = some cfg; show_random_disclaimer = true }

-- the switch; `a` is the answer to the request that it may make
unfoldable pub toggle : Answer Bool → Random → Random
unfolding handle_save_random_config
toggle a s =
    if not s.random_cfg.enabled
    then ask_first (record s.random_cfg { enabled = true }) s
    else handle_save_random_config (record s.random_cfg { enabled = false }) a
        (record s { random_expanded = false })

-- the buttons of the modes
unfoldable pub choose_on_connect : Answer Bool → Random → Random
unfolding handle_save_random_config
choose_on_connect a s = handle_save_random_config (record s.random_cfg { mode = "on_connect" }) a s

abbrev or_daily : String → String
or_daily interval = if is_empty interval then "daily" else interval

unfoldable pub choose_scheduled : Random → Random
choose_scheduled s =
    if not s.random_cfg.has_rtc
    then record s {
      toast = some ("Scheduled mode requires a Pi with RTC (real-time clock)", error);
    }
    else if not (str_eq s.random_cfg.mode "scheduled")
    then ask_first
        (record s.random_cfg { mode = "scheduled"; interval = or_daily s.random_cfg.interval }) s
    else s

unfoldable pub choose_smart : Random → Random
choose_smart s =
    if not s.random_cfg.has_rtc || not s.random_cfg.has_ble
    then record s {
      toast = some (
        if not s.random_cfg.has_ble
            then "Smart mode requires a paired BLE key — pair your Pi in Settings first"
            else "Smart mode requires a Pi with RTC (real-time clock)",
        error,
      );
    }
    else if not (str_eq s.random_cfg.mode "smart")
    then ask_first
        (record s.random_cfg { mode = "smart"; interval = or_daily s.random_cfg.interval }) s
    else s

-- the choices of the interval, of the day and of the hour
unfoldable pub choose_interval : String → Answer Bool → Random → Random
unfolding handle_save_random_config
choose_interval interval a s =
    handle_save_random_config (record s.random_cfg { interval = interval }) a s

unfoldable pub choose_day : ℕ → Answer Bool → Random → Random
unfolding handle_save_random_config
choose_day day a s = handle_save_random_config (record s.random_cfg { day = day }) a s

unfoldable pub choose_hour : ℕ → Answer Bool → Random → Random
unfolding handle_save_random_config
choose_hour hour a s = handle_save_random_config (record s.random_cfg { hour = hour }) a s

-- the two buttons of the disclaimer
unfoldable pub accept_disclaimer : Answer Bool → Random → Random
unfolding handle_save_random_config
accept_disclaimer a s = elim s.pending_random_cfg [
  | none ↦ s
  | some cfg ↦
      record (handle_save_random_config cfg a (record s { show_random_disclaimer = false })) {
        pending_random_cfg = none;
      }
]

unfoldable pub cancel_disclaimer : Random → Random
cancel_disclaimer s = record s { show_random_disclaimer = false; pending_random_cfg = none }
