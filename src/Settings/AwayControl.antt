-- ===== src/Settings/AwayControl.antt =====
-- web/src/pages/Settings.tsx: `AwayModeControl`. What `parseInt` makes of a field is a parameter:
-- an integer, or none for NaN.
use sentry_usb.Base.{
  ℕ, ◌+◌, ◌*◌, ◌/◌, ◌%◌, Bool, true, false, Option, none, some, List, [], ◌∷◌, String, ltb,
  if◌then◌else◌, ◌==◌, any,
}
use sentry_usb.Base.Int.{ℤ, pos, negsuc, ◌+ℤ◌, minℤ, maxℤ, lebℤ}

-- `enabled` has the durations that `enable` was called with, the latest first.
pub record AwayControl : Type 0 where
  pub selected_duration : ℕ
  pub custom_hours : String
  pub custom_minutes : String
  pub use_custom : Bool
  pub enabling : Bool
  pub confirm_open : Bool
  pub enabled : List ℤ

unfoldable pub mount : AwayControl
mount = record {
  selected_duration = 240;
  custom_hours = "";
  custom_minutes = "";
  use_custom = false;
  enabling = false;
  confirm_open = false;
  enabled = [];
}

abbrev pub presets : List ℕ
presets = 60 ∷ 120 ∷ 240 ∷ 480 ∷ []

-- `… || 0`
abbrev or_zero : Option ℤ → ℤ
or_zero none = pos 0
or_zero (some n) = n

-- `h * 60`
abbrev pub times_60 : ℤ → ℤ
times_60 (pos n) = pos (n * 60)
times_60 (negsuc n) = negsuc (n * 60 + 59)

-- The buttons of the presets, of the custom duration, the two fields, and the buttons to enable,
-- to confirm and to cancel.
pub data Event : Type 0 where
  preset : ℕ → Event
  custom : Event
  hours_typed : String → Event
  minutes_typed : String → Event
  enable_clicked : Event
  confirmed : Event
  cancelled : Event
  ended : Event

module _ (parse_int : String → Option ℤ) where
  unfoldable pub get_custom_minutes : AwayControl → ℤ
  unfolding ◌+ℤ◌
  get_custom_minutes s =
      times_60 (or_zero (parse_int s.custom_hours)) +ℤ or_zero (parse_int s.custom_minutes)

  unfoldable pub duration_min : AwayControl → ℤ
  unfolding get_custom_minutes minℤ maxℤ
  duration_min s =
      if s.use_custom
      then minℤ (maxℤ (get_custom_minutes s) (pos 1)) (pos 1440)
      else pos s.selected_duration

  unfoldable pub handle_enable_click : AwayControl → AwayControl
  unfolding duration_min
  handle_enable_click s =
      if lebℤ (duration_min s) (pos 0) then s else record s { confirm_open = true }

  -- `handleConfirmEnable` up to `enable`, and its end
  unfoldable pub confirm_begin : AwayControl → AwayControl
  unfolding duration_min
  confirm_begin s = record s {
    confirm_open = false;
    enabling = true;
    enabled = duration_min s ∷ s.enabled;
  }

  unfoldable pub confirm_end : AwayControl → AwayControl
  confirm_end s = record s { enabling = false }

  unfoldable pub step : Event → AwayControl → AwayControl
  unfolding handle_enable_click confirm_begin confirm_end
  step (preset p) s =
      if any (λ q. q == p) presets
      then record s { selected_duration = p; use_custom = false }
      else s
  step custom s = record s { use_custom = true }
  step (hours_typed t) s = record s { custom_hours = t }
  step (minutes_typed t) s = record s { custom_minutes = t }
  step enable_clicked s = handle_enable_click s
  step confirmed s = if s.confirm_open then confirm_begin s else s
  step cancelled s = record s { confirm_open = false }
  step ended s = confirm_end s

  abbrev pub run : List Event → AwayControl → AwayControl
  run [] s = s
  run (e ∷ es) s = run es (step e s)

-- `formatRemaining`: the hours, if there are any, and the minutes that are shown
unfoldable pub format_remaining : ℕ → Option ℕ × ℕ
format_remaining sec =
    let h = sec / 3600 in let m = (sec % 3600) / 60 in (if ltb 0 h then some h else none, m)
