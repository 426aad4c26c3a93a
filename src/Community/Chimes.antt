-- ===== src/Community/Chimes.antt =====
-- web/src/pages/LockChime.tsx: `CommunityBrowse` and `CommunityUpload`: the shared sounds.
use sentry_usb.Base.{
  ℕ, ◌+◌, ◌-◌, ◌*◌, ◌/◌, Bool, true, false, Option, none, some, List, [], String, str_eq,
  if◌then◌else◌, min, max, ltb, length,
}
use sentry_usb.Base.Text.{trim, is_empty, truthy, concat, has_prefix}
use sentry_usb.Base.Exec.{Outcome, returned, threw, Answer, answered, refused, unreachable, Done}
use sentry_usb.LockChime.Library.{ToastKind, success, error}
use sentry_usb.LockChime.Selection.{
  Browser, AudioBuffer, AudioFile, max_duration_seconds, max_file_bytes, convert_to_wav,
}

pub record CommunitySound : Type 0 where
  pub code : String
  pub name : String

pub record Chimes : Type 0 where
  pub sounds : List CommunitySound
  pub total : ℕ
  pub page : ℕ
  pub is_loading : Bool
  pub error_text : Option String
  pub search : String
  pub sort : String
  pub downloading_code : Option String
  pub playing_code : Option String
  pub editing_sound : Option CommunitySound
  pub deleting_sound : Option CommunitySound
  pub toast : Option (String × ToastKind)
  pub passcode : Option String

unfoldable pub mount : Option String → Chimes
mount passcode = record {
  sounds = [];
  total = 0;
  page = 1;
  is_loading = true;
  error_text = none;
  search = "";
  sort = "newest";
  downloading_code = none;
  playing_code = none;
  editing_sound = none;
  deleting_sound = none;
  toast = none;
  passcode = passcode;
}

abbrev pub community_page_size : ℕ
community_page_size = 18

pub record Query : Type 0 where
  pub page : ℕ
  pub limit : ℕ
  pub search : Option String
  pub sort : Option String
  pub passcode : Option String

abbrev unless : Bool → String → Option String
unless b text = if b then none else some text

unfoldable pub query_of : Chimes → Query
query_of s = record {
  page = s.page;
  limit = community_page_size;
  search = unless (is_empty s.search) s.search;
  sort = unless (str_eq s.sort "newest") s.sort;
  passcode = if truthy s.passcode then s.passcode else none;
}

unfoldable pub total_pages : Chimes → ℕ
total_pages s = (s.total + (community_page_size - 1)) / community_page_size

-- `fetchSounds`: its start, and what its request comes to
unfoldable pub fetch_begin : Chimes → Chimes
fetch_begin s = record s { is_loading = true; error_text = none }

abbrev not_available : Chimes → Chimes
not_available s = record s {
  error_text = some "Community lock chimes are not available yet. Check back soon!";
  sounds = [];
  is_loading = false;
}

unfoldable pub fetch_reply : Answer (List CommunitySound × ℕ) → Chimes → Chimes
fetch_reply (answered r) s = record s { sounds = r.0; total = r.1; is_loading = false }
fetch_reply (refused text) s = not_available s
fetch_reply (unreachable text) s = not_available s

unfoldable pub set_search : String → Chimes → Chimes
set_search text s = record s { search = text; page = 1 }

unfoldable pub set_sort : String → Chimes → Chimes
set_sort sort s = record s { sort = sort; page = 1 }

unfoldable pub previous_page : Chimes → Chimes
previous_page s = record s { page = max 1 (s.page - 1) }

unfoldable pub next_page : Chimes → Chimes
unfolding total_pages
next_page s = record s { page = min (total_pages s) (s.page + 1) }

-- `togglePreview`, and the ends of playing
abbrev is_playing : String → Option String → Bool
is_playing code none = false
is_playing code (some playing) = str_eq playing code

unfoldable pub toggle_preview : String → Chimes → Chimes
toggle_preview code s = record s {
  playing_code = if is_playing code s.playing_code then none else some code;
}

unfoldable pub preview_ended : Chimes → Chimes
preview_ended s = record s { playing_code = none }

unfoldable pub preview_failed : Chimes → Chimes
preview_failed s = record s { playing_code = none; toast = some ("Could not play preview", error) }

unfoldable pub download_begin : CommunitySound → Chimes → Chimes
download_begin sound s = record s { downloading_code = some sound.code }

unfoldable pub download_reply : CommunitySound → Answer Done → Chimes → Chimes
download_reply sound (answered d) s = record s {
  toast = some (concat "Downloaded \"" (concat sound.name "\" to your library"), success);
  downloading_code = none;
}
download_reply sound (refused text) s = record s {
  toast = some (text, error);
  downloading_code = none;
}
download_reply sound (unreachable text) s = record s {
  toast = some (text, error);
  downloading_code = none;
}

-- `handleAdminEdit` and `handleAdminDelete`; nothing is asked without a passcode.
unfoldable pub handle_admin_edit : Answer Done → Chimes → Chimes
unfolding fetch_begin
handle_admin_edit r s =
    let done = elim r as (λ x. Chimes) [
      | answered d ↦
          fetch_begin (record s { toast = some ("Sound updated", success); editing_sound = none })
      | refused text ↦ record s { toast = some ("Edit failed", error) }
      | unreachable text ↦ record s { toast = some (text, error) }
    ] in
    if truthy s.passcode then done else s

unfoldable pub handle_admin_delete : Answer Done → Chimes → Chimes
unfolding fetch_begin
handle_admin_delete r s =
    let done = elim r as (λ x. Chimes) [
      | answered d ↦ fetch_begin (record s {
        toast = some ("Sound deleted from community", success);
        deleting_sound = none;
      })
      | refused text ↦ record s { toast = some ("Delete failed", error) }
      | unreachable text ↦ record s { toast = some (text, error) }
    ] in
    if truthy s.passcode then done else s

-- The result of a check or of an upload: the text of the refusal, or none.
abbrev pub Refusal : Type 0
Refusal = Option String

module _ {Sample : Type 0} (browser : Browser Sample) where
  abbrev pub check_decoded : Option (AudioBuffer Sample) → Refusal
  check_decoded none = some "Unsupported audio format"
  check_decoded (some audio) =
      if ltb (max_duration_seconds * audio.sample_rate) audio.frames
      then some "Sound is too long"
      else none

  -- `validateFile`
  unfoldable pub validate_file : AudioFile Sample → Refusal
  unfolding has_prefix
  validate_file file =
      if has_prefix "audio/" file.type
      then check_decoded file.decoded
      else some "Only audio files are supported"

  -- the end of an upload, which may also throw
  abbrev pub upload_reply : Answer Done → Outcome Refusal
  upload_reply (answered d) = returned none
  upload_reply (refused text) = returned (some text)
  upload_reply (unreachable text) = threw text

  -- with the bytes of the converted file, or none if the conversion throws
  abbrev pub upload_converted : Option (List ℕ) → Answer Done → Outcome Refusal
  upload_converted none r = returned (some "Failed to convert audio to WAV")
  upload_converted (some bytes) r =
      if ltb max_file_bytes (length bytes)
      then returned (some "Converted WAV is too large")
      else upload_reply r

  -- `handleUpload`, with the library's lower case
  unfoldable pub handle_upload :
      (String → String) → String → AudioFile Sample → Answer Done → Outcome Refusal
  unfolding convert_to_wav trim
  handle_upload to_lower_case name file r =
      if is_empty (trim name)
      then returned (some "Name is required")
      else if str_eq (to_lower_case (trim name)) "lockchime"
      then returned (some "Sound name cannot be \"lockchime\"")
      else upload_converted (convert_to_wav browser file.decoded_again) r
