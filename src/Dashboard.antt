-- ===== src/Dashboard.antt =====
-- web/src/pages/Dashboard.tsx: what the dashboard shows of the device, of the archive and of the
-- processing of the drives, and the time that is left.
pub mod Eta
use sentry_usb.Base.{
  ℕ, ◌+◌, Bool, true, false, not, ◌&&◌, ◌||◌, Option, none, some, List, [], ◌∷◌, String, str_eq,
  if◌then◌else◌, ltb,
}
use Eta.{Sample, push_sample}

pub data TempColor : Type 0 where
  emerald amber red : TempColor

unfoldable pub get_temp_color : ℕ → TempColor
get_temp_color milli_c =
    if ltb milli_c 55000 then emerald else if ltb milli_c 70000 then amber else red

pub record ProcessProgress : Type 0 where
  pub current : ℕ
  pub total : ℕ

-- `status` and `drive_stats` are what is shown of the replies, as they come; `stored` is the entry
-- of the local storage.
pub record Dashboard : Type 0 where
  pub status : Option String
  pub error : Option String
  pub uptime : ℕ
  pub drive_stats : Option String
  pub archive_progress : Option ProcessProgress
  pub processing : Bool
  pub process_progress : Option ProcessProgress
  pub metric : Bool
  pub use_fahrenheit : Bool
  pub rtc_warning : Option String
  pub rusty_notice_dismissed : Bool
  pub stored : Option String
  pub archive_history : List Sample
  pub process_history : List Sample

abbrev is_true : Option String → Bool
is_true none = false
is_true (some t) = str_eq t "true"

unfoldable pub mount : Option String → Dashboard
mount stored = record {
  status = none;
  error = none;
  uptime = 0;
  drive_stats = none;
  archive_progress = none;
  processing = false;
  process_progress = none;
  metric = false;
  use_fahrenheit = false;
  rtc_warning = none;
  rusty_notice_dismissed = is_true stored;
  stored = stored;
  archive_history = [];
  process_history = [];
}

-- the storage may refuse the write
unfoldable pub dismiss_rusty_notice : Bool → Dashboard → Dashboard
dismiss_rusty_notice writable s = record s {
  rusty_notice_dismissed = true;
  stored = if writable then some "true" else s.stored;
}

-- `fetchStatus`: the reply with its uptime in whole seconds (`none`: it failed)
unfoldable pub status_reply : Bool → Option (String × ℕ) → Dashboard → Dashboard
status_reply mounted none s =
    if mounted then record s { error = some "Unable to connect to Sentry USB" } else s
status_reply mounted (some r) s =
    if mounted then record s { status = some r.0; uptime = r.1; error = none } else s

unfoldable pub uptime_tick : Dashboard → Dashboard
uptime_tick s = record s { uptime = s.uptime + 1 }

-- the reply of the drive status
pub record DriveStatus : Type 0 where
  pub running : Bool
  pub process_current : Option ℕ
  pub process_total : Option ℕ
  pub phase : String
  pub current : Option ℕ
  pub total : Option ℕ

abbrev or_zero : Option ℕ → ℕ
or_zero none = 0
or_zero (some n) = n

-- The progress of the processing: gone if nothing runs, kept if there is no total.
unfoldable pub polled_progress : DriveStatus → Option ProcessProgress → Option ProcessProgress
polled_progress d old = elim d.process_total [
  | none ↦ if d.running then old else none
  | some total ↦
      if not d.running
      then none
      else if ltb 0 total
      then some (record { current = or_zero d.process_current; total = total })
      else old
]

unfoldable pub polled_archive : DriveStatus → Option ProcessProgress
polled_archive d = elim d.total [
  | none ↦ none
  | some total ↦
      if str_eq d.phase "archiving"
      then some (record { current = or_zero d.current; total = total })
      else none
]

unfoldable pub stats_reply : Bool → Option (String × DriveStatus) → Dashboard → Dashboard
unfolding polled_progress polled_archive
stats_reply mounted none s = s
stats_reply mounted (some r) s =
    if mounted
    then record s {
      drive_stats = some r.0;
      processing = r.1.running;
      process_progress = polled_progress r.1 s.process_progress;
      archive_progress = polled_archive r.1;
    }
    else s

-- An entry of the configuration: a text, or a value that may be inactive.
pub data Entry : Type 0 where
  text : String → Entry
  setting : String → Bool → Entry

abbrev value_of : Option Entry → Option String
value_of none = none
value_of (some (text t)) = some t
value_of (some (setting t active)) = if active then some t else none

abbrev unit_or : String → Option String → Bool → Bool
unit_or unit none old = old
unit_or unit (some t) old = str_eq t unit

unfoldable pub config_reply : Option Entry → Option Entry → Dashboard → Dashboard
config_reply map_unit temperature_unit s = record s {
  metric = unit_or "km" (value_of map_unit) s.metric;
  use_fahrenheit = unit_or "F" (value_of temperature_unit) s.use_fahrenheit;
}

pub record RtcStatus : Type 0 where
  pub is_pi5 : Bool
  pub rtc_healthy : Bool
  pub battery_warning : Option String

unfoldable pub rtc_reply : Bool → RtcStatus → Dashboard → Dashboard
rtc_reply mounted r s = elim r.battery_warning [
  | none ↦ s
  | some warning ↦
      if mounted && r.is_pi5 && not r.rtc_healthy && not (str_eq warning "")
      then record s { rtc_warning = some warning }
      else s
]

-- A message on the processing; `true` says that the drive statistics are asked for again.
unfoldable pub receive : Bool → String → Option ℕ → Option ℕ → Dashboard → Dashboard × Bool
receive false status current total s = (s, false)
receive true status current total s =
    let counted = elim current as (λ x. Dashboard) [
      | none ↦ s
      | some c ↦ elim total as (λ x. Dashboard) [
        | none ↦ s
        | some t ↦ record s {
          processing = true;
          process_progress = some (record { current = c; total = t });
        }
      ]
    ] in
    if str_eq status "started"
    then (record s { processing = true; process_progress = none }, false)
    else if str_eq status "progress"
    then (counted, false)
    else if str_eq status "complete" || str_eq status "error"
    then (record s { processing = false; process_progress = none }, true)
    else (s, false)

-- The two effects that keep the samples, at a time in milliseconds.
unfoldable pub archive_effect : ℕ → Dashboard → Dashboard
unfolding push_sample
archive_effect now s = elim s.archive_progress [
  | none ↦ record s { archive_history = [] }
  | some p ↦ record s { archive_history = push_sample now p.current s.archive_history }
]

unfoldable pub process_effect : ℕ → Dashboard → Dashboard
unfolding push_sample
process_effect now s = elim s.process_progress [
  | none ↦ record s { process_history = [] }
  | some p ↦ record s { process_history = push_sample now p.current s.process_history }
]
