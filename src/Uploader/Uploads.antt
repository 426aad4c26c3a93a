-- ===== src/Uploader/Uploads.antt =====
-- web/src/components/upload/MultiFileUploader.tsx: the uploads. `onUpload` is a parameter; the
-- steps that it reports while it runs are `on_step`.
use sentry_usb.Base.{
  ℕ, suc, Bool, true, false, not, ◌&&◌, Option, none, some, List, [], ◌∷◌, String, ◌==◌,
  if◌then◌else◌, length, find,
}
use sentry_usb.Base.Text.{is_empty}
use sentry_usb.Uploader.Files.{
  FileEntry, Status, pending, uploading, done, error, Uploader, is_id, map_entry,
}

-- What `onUpload` comes to: a result, or an exception with its text.
pub data Upload : Type 0 where
  success : Upload
  failure : String → Upload
  thrown : String → Upload

abbrev pub is_pending : Status → Bool
is_pending pending = true
is_pending s = false

abbrev pub can_upload : Status → Bool
can_upload pending = true
can_upload error = true
can_upload s = false

unfoldable pub set_outcome : Upload → FileEntry → FileEntry
set_outcome success f = record f { status = done; error_text = none }
set_outcome (failure text) f = record f { status = error; error_text = some text }
set_outcome (thrown text) f = record f {
  status = error;
  error_text = some (if is_empty text then "Upload failed" else text);
}

-- `uploadSingle` up to its wait: the entry that is given to `onUpload`, if it goes on
unfoldable pub upload_single_begin : String → Uploader → Uploader × Option FileEntry
upload_single_begin id u = elim (find (is_id id) u.files) [
  | none ↦ (u, none)
  | some entry ↦
      if can_upload entry.status
      then (
        record u {
          files = map_entry id (λ f. record f { status = uploading; error_text = none }) u.files;
          expanded_id = some id;
          current_step = none;
        },
        some entry,
      )
      else (u, none)
]

unfoldable pub on_step : String → Uploader → Uploader
on_step step u = record u { current_step = some step }

abbrev pub id_of : Option FileEntry → Option String
id_of none = none
id_of (some f) = some f.id

abbrev pub expanded_after : String → Upload → Uploader → Option String
expanded_after id success u = id_of (find (λ f. not (is_id id f) && is_pending f.status) u.files)
expanded_after id o u = u.expanded_id

unfoldable pub upload_single_finish : String → Upload → Uploader → Uploader
upload_single_finish id o u = record u {
  files = map_entry id (set_outcome o) u.files;
  expanded_id = expanded_after id o u;
  current_step = none;
}

-- the ids that `uploadAll` goes through
abbrev pub is_ready_pending : (FileEntry → Bool) → FileEntry → Bool
is_ready_pending is_entry_ready f = is_pending f.status && is_entry_ready f

abbrev pub ready_ids : (FileEntry → Bool) → List FileEntry → List String
ready_ids is_entry_ready [] = []
ready_ids is_entry_ready (f ∷ fs) =
    if is_ready_pending is_entry_ready f
    then f.id ∷ ready_ids is_entry_ready fs
    else ready_ids is_entry_ready fs

-- A round of the loop of `uploadAll` before and after its wait.
unfoldable pub round_begin : ℕ → ℕ → FileEntry → Uploader → Uploader
round_begin i total entry u = record u {
  upload_progress = some (suc i, total);
  files = map_entry entry.id (λ f. record f { status = uploading }) u.files;
  expanded_id = some entry.id;
  current_step = none;
}

unfoldable pub round_finish : FileEntry → Upload → Uploader → Uploader
unfolding set_outcome
round_finish entry o u = record u {
  files = map_entry entry.id (set_outcome o) u.files;
  current_step = none;
}

-- The loop when nothing else happens while it waits.
unfoldable pub upload_loop : (FileEntry → Upload) → ℕ → ℕ → List String → Uploader → Uploader
unfolding round_begin round_finish
upload_loop on_upload i total [] u = u
upload_loop on_upload i total (id ∷ ids) u =
    upload_loop on_upload (suc i) total ids (elim (find (is_id id) u.files) [
      | none ↦ u
      | some entry ↦ round_finish entry (on_upload entry) (round_begin i total entry u)
    ])

-- `uploadAll`: with nothing ready it returns at once.
unfoldable pub upload_all : (FileEntry → Bool) → (FileEntry → Upload) → Uploader → Uploader
unfolding upload_loop
upload_all is_entry_ready on_upload u =
    let ids = ready_ids is_entry_ready u.files in
    let total = length ids in
    let begun = record u { uploading_all = true; upload_progress = some (0, total) } in
    let ended = upload_loop on_upload 0 total ids begun in
    if total == 0
    then u
    else record ended { uploading_all = false; upload_progress = none; expanded_id = none }
