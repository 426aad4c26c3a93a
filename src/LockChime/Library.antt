-- ===== src/LockChime/Library.antt =====
-- web/src/pages/LockChime.tsx: `MyLibraryTab`: the list, the sound that plays, and the handlers. An
-- answer of the server is refused with the text that the handler makes of it. The text of an
-- exception is that of an `Error`.
use sentry_usb.Base.{
  ℕ, Bool, true, false, Option, none, some, List, [], String, str_eq, if◌then◌else◌,
}
use sentry_usb.Base.Text.{trim, is_empty, concat}
use sentry_usb.Base.Exec.{Answer, Done, Exec, ask, try_catch, finally_do, modify, when, ◌>>=◌, ◌>>◌}

pub record SoundEntry : Type 0 where
  pub name : String
  pub size : ℕ
  pub active : Bool

-- The reply to a request for the list.
pub record Listing : Type 0 where
  pub sounds : List SoundEntry
  pub active_name : String
  pub active_set : Bool

pub data ToastKind : Type 0 where
  success error : ToastKind

-- A file that waits for its name, with its size.
pub record Pending : Type 0 where
  pub file_name : String
  pub size : ℕ

pub record Library : Type 0 where
  pub listing : Listing
  pub is_loading : Bool
  pub playing_name : Option String
  pub uploading : Bool
  pub activating : Option String
  pub deleting : Option String
  pub clearing : Bool
  pub randomizing : Bool
  pub delete_confirm : Option String
  pub lib_page : ℕ
  pub pending_file : Option Pending
  pub pending_name : String
  pub toast : Option (String × ToastKind)

unfoldable pub mount : Library
mount = record {
  listing = record { sounds = []; active_name = ""; active_set = false };
  is_loading = true;
  playing_name = none;
  uploading = false;
  activating = none;
  deleting = none;
  clearing = false;
  randomizing = false;
  delete_confirm = none;
  lib_page = 1;
  pending_file = none;
  pending_name = "";
  toast = none;
}

unfoldable pub show_toast : String → ToastKind → Library → Library
show_toast msg kind s = record s { toast = some (msg, kind) }

-- the timer of the toast
unfoldable pub clear_toast : Library → Library
clear_toast s = record s { toast = none }

-- `fetchSounds`
unfoldable pub fetch_sounds : Answer Listing → Exec Library Done
unfolding ask modify try_catch finally_do show_toast ◌>>=◌
fetch_sounds listed =
    finally_do
      (try_catch (ask listed >>= λ l. modify (λ s. record s { listing = l }))
        (λ text. modify (show_toast "Failed to load sounds" error)))
      (λ s. record s { is_loading = false })

-- `togglePlay`, and the ends of playing: the sound ends, cannot be played, or its start is refused.
abbrev pub is_playing : String → Option String → Bool
is_playing name none = false
is_playing name (some playing) = str_eq playing name

unfoldable pub toggle_play : String → Library → Library
toggle_play name s = record s {
  playing_name = if is_playing name s.playing_name then none else some name;
}

unfoldable pub play_ended : Library → Library
play_ended s = record s { playing_name = none }

unfoldable pub play_failed : Library → Library
unfolding show_toast
play_failed s = show_toast "Could not play sound" error (record s { playing_name = none })

-- `cleanName.toLowerCase() === "lockchime"`, with the library's lower case
module _ (to_lower_case : String → String) where
  abbrev reserved : String → Bool
  reserved name = str_eq (to_lower_case name) "lockchime"

  unfoldable pub upload_body : Answer String → Answer Listing → Exec Library Done
  unfolding ask modify show_toast fetch_sounds ◌>>=◌ ◌>>◌
  upload_body uploaded listed = do
    name ← ask uploaded
    _ ← modify (show_toast (concat "Uploaded \"" (concat name "\"")) success)
    fetch_sounds listed

  -- The state after `handleUploadConfirm`.
  unfoldable pub handle_upload_confirm : Answer String → Answer Listing → Library → Library
  unfolding upload_body finally_do try_catch modify show_toast trim
  handle_upload_confirm uploaded listed s =
      let started = record s { uploading = true; pending_file = none; pending_name = "" } in
      let ended =
        finally_do
          (try_catch (upload_body uploaded listed) (λ text. modify (show_toast text error)))
          (λ t. record t { uploading = false }) started in
      let named =
        if reserved (trim s.pending_name)
        then show_toast "Name cannot be \"lockchime\" — please choose a different name" error s
        else ended.1 in
      elim s.pending_file [
        | none ↦ s
        | some f ↦ if is_empty (trim s.pending_name) then s else named
      ]

abbrev quoted : String → String → String
quoted name text = concat "\"" (concat name (concat "\"" text))

abbrev activated : String → Bool → String
activated name usb_rebound =
    if usb_rebound
    then quoted name " activated — USB re-enumerated, Tesla will use the new sound"
    else quoted name " is now your active lock sound"

unfoldable pub activate_body : String → Answer Bool → Answer Listing → Exec Library Done
unfolding ask modify show_toast fetch_sounds ◌>>=◌ ◌>>◌
activate_body name accepted listed = do
  usb_rebound ← ask accepted
  _ ← modify (show_toast (activated name usb_rebound) success)
  fetch_sounds listed

unfoldable pub handle_activate : String → Answer Bool → Answer Listing → Library → Library
unfolding activate_body finally_do try_catch modify show_toast
handle_activate name accepted listed s =
    let ended =
      finally_do
        (try_catch (activate_body name accepted listed) (λ text. modify (show_toast text error)))
        (λ t. record t { activating = none }) (record s { activating = some name }) in
    ended.1

unfoldable pub clear_body : Answer Done → Answer Listing → Exec Library Done
unfolding ask modify show_toast fetch_sounds ◌>>=◌ ◌>>◌
clear_body accepted listed = do
  _ ← ask accepted
  _ ← modify (show_toast "Active lock sound cleared" success)
  fetch_sounds listed

unfoldable pub handle_clear : Answer Done → Answer Listing → Library → Library
unfolding clear_body finally_do try_catch modify show_toast
handle_clear accepted listed s =
    let ended =
      finally_do (try_catch (clear_body accepted listed) (λ text. modify (show_toast text error)))
        (λ t. record t { clearing = false }) (record s { clearing = true }) in
    ended.1

-- `playing` is the sound that played in the render in which the handler was made.
unfoldable pub delete_body :
    String → Option String → Answer Done → Answer Listing → Exec Library Done
unfolding ask modify when show_toast fetch_sounds ◌>>=◌ ◌>>◌
delete_body name playing accepted listed = do
  _ ← ask accepted
  _ ← modify (show_toast (concat "Deleted " (quoted name "")) success)
  _ ← when (is_playing name playing) (modify (λ s. record s { playing_name = none }))
  fetch_sounds listed

unfoldable pub handle_delete : String → Answer Done → Answer Listing → Library → Library
unfolding delete_body finally_do try_catch modify show_toast
handle_delete name accepted listed s =
    let ended =
      finally_do
        (try_catch (delete_body name s.playing_name accepted listed)
          (λ text. modify (show_toast text error)))
        (λ t. record t { deleting = none })
        (record s { deleting = some name; delete_confirm = none }) in
    ended.1

-- the reply to `handleRandomizeNow`: the sound, and whether the drives were connected again
abbrev selected : String × Bool → String
selected r = concat "Randomly selected " (quoted r.0 (if r.1 then " — USB re-enumerated" else ""))

unfoldable pub randomize_body : Answer (String × Bool) → Answer Listing → Exec Library Done
unfolding ask modify show_toast fetch_sounds ◌>>=◌ ◌>>◌
randomize_body accepted listed = do
  r ← ask accepted
  _ ← modify (show_toast (selected r) success)
  fetch_sounds listed

unfoldable pub handle_randomize_now : Answer (String × Bool) → Answer Listing → Library → Library
unfolding randomize_body finally_do try_catch modify show_toast
handle_randomize_now accepted listed s =
    let ended =
      finally_do
        (try_catch (randomize_body accepted listed) (λ text. modify (show_toast text error)))
        (λ t. record t { randomizing = false }) (record s { randomizing = true }) in
    ended.1
