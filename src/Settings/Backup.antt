-- ===== src/Settings/Backup.antt =====
-- web/src/pages/Settings.tsx: `ConfigBackupSection`. A reply is `none` if the request failed.
use sentry_usb.Base.{ℕ, Bool, true, false, Option, none, some, List, [], ◌∷◌, String, if◌then◌else◌}
use sentry_usb.Base.Text.{is_empty}
use sentry_usb.Settings.Controls.{ActionState, idle, loading, success, error}

pub record BackupEntry : Type 0 where
  pub date : String
  pub timestamp : String
  pub location : String
  pub size : ℕ
  pub filename : String

pub data RestoreState : Type 0 where
  resting confirm restoring restored failed : RestoreState

pub record Last : Type 0 where
  pub date : String
  pub timestamp : String

pub record Restored : Type 0 where
  pub date : String
  pub hostname : String

-- `saved_location` is what was put on the server.
pub record Backup : Type 0 where
  pub backup_location : String
  pub last_backup : Option Last
  pub backup_state : ActionState
  pub loaded : Bool
  pub show_restore : Bool
  pub backups : List BackupEntry
  pub loading_backups : Bool
  pub restore_state : RestoreState
  pub selected_backup : Option BackupEntry
  pub restore_result : Option Restored
  pub saved_location : Option String

unfoldable pub mount : Backup
mount = record {
  backup_location = "archive";
  last_backup = none;
  backup_state = idle;
  loaded = false;
  show_restore = false;
  backups = [];
  loading_backups = false;
  restore_state = resting;
  selected_backup = none;
  restore_result = none;
  saved_location = none;
}

abbrev or_old : Option String → String → String
or_old none old = old
or_old (some v) old = if is_empty v then old else v

-- the replies to the two requests at the opening of the page
unfoldable pub location_reply : Option (Option String) → Backup → Backup
location_reply none s = s
location_reply (some v) s = record s { backup_location = or_old v s.backup_location }

unfoldable pub latest_reply : Option (List Last) → Backup → Backup
latest_reply none s = record s { loaded = true }
latest_reply (some []) s = record s { loaded = true }
latest_reply (some (b ∷ bs)) s = record s { last_backup = some b; loaded = true }

-- the effect that reads the list, and its reply
unfoldable pub list_begin : Backup → Backup
list_begin s = if s.show_restore then record s { loading_backups = true } else s

unfoldable pub list_reply : Option (List BackupEntry) → Backup → Backup
list_reply none s = record s { backups = []; loading_backups = false }
list_reply (some bs) s = record s { backups = bs; loading_backups = false }

-- `handleLocationChange`; what the request comes to is not looked at
unfoldable pub handle_location_change : String → Bool → Backup → Backup
handle_location_change loc reached s = record s {
  backup_location = loc;
  saved_location = if reached then some loc else s.saved_location;
}

unfoldable pub backup_begin : Backup → Backup
backup_begin s = record s { backup_state = loading }

-- the reply, at the time `now_iso`: the date of the backup
unfoldable pub backup_reply : String → Option String → Backup → Backup
backup_reply now_iso none s = record s { backup_state = error }
backup_reply now_iso (some date) s = record s {
  last_backup = some (record { date = date; timestamp = now_iso });
  backup_state = success;
}

unfoldable pub backup_reset : Backup → Backup
backup_reset s = record s { backup_state = idle }

-- the buttons that open and close the panel, and that of an entry
unfoldable pub close_restore : Backup → Backup
close_restore s = record s { show_restore = false; selected_backup = none; restore_state = resting }

unfoldable pub open_restore : Backup → Backup
open_restore s = record s { show_restore = true }

unfoldable pub cancel_restore : Backup → Backup
cancel_restore s = record s { restore_state = resting; selected_backup = none }

unfoldable pub finish_restore : Backup → Backup
finish_restore s = record s {
  restore_state = resting;
  selected_backup = none;
  restore_result = none;
  show_restore = false;
}

unfoldable pub select : BackupEntry → Backup → Backup
select b s = record s { selected_backup = some b; restore_state = confirm }

-- `handleRestore`: its start, the replies to its two requests, and its timer
unfoldable pub restore_begin : Backup → Backup
restore_begin s = elim s.selected_backup [
  | none ↦ s
  | some b ↦ record s { restore_state = restoring }
]

unfoldable pub restore_reply : Bool → Option Restored → Backup → Backup
restore_reply fetched none s = record s { restore_state = failed }
restore_reply fetched (some r) s =
    if fetched
    then record s { restore_result = some r; restore_state = restored }
    else record s { restore_state = failed }

unfoldable pub restore_reset : Backup → Backup
restore_reset s = record s { restore_state = resting; selected_backup = none }
