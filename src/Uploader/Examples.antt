-- ===== src/Uploader/Examples.antt =====
-- web/src/components/upload/MultiFileUploader.tsx: three files of which one is not ready, and a
-- fourth that finds no room.
use sentry_usb.Base.{
  ℕ, ◌≤◌, ◌≡◌, ◌⊎◌, refl, Bool, false, not, Option, none, some, List, [], ◌∷◌, ◌++◌, map, String,
  str_eq, arith, if◌then◌else◌, length, All, filter_by,
}
use sentry_usb.Uploader.Files.{
  File, FileEntry, Uploader, mount, new_entry, strip_extension, scan_extension, add_begin,
  validate_all, add_finish,
}
use sentry_usb.Uploader.Uploads.{Upload, success, failure, ready_ids, upload_all}
use sentry_usb.Uploader.Outcomes.{outcome, upload_all-files}
use sentry_usb.Uploader.Limit.{IsNew, is_good, failures, room_for, files_of, add_files-added}

stripped :
    (strip_extension "Model.3.wav" ≡ "Model.3")
    × (strip_extension "a.b/c" ≡ "a.b/c")
    × (strip_extension "end." ≡ "end.")
    × (strip_extension ".png" ≡ "")
unfolding strip_extension scan_extension
stripped = (refl, refl, refl, refl)

abbrev entry : String → FileEntry
entry name = new_entry name (record { name = name; content = "" })

abbrev listed : Uploader
listed = record mount { files = entry "a" ∷ entry "b" ∷ entry "c" ∷ [] }

abbrev but_b : FileEntry → Bool
but_b f = not (str_eq f.id "b")

abbrev only_a : FileEntry → Upload
only_a f = if str_eq f.id "a" then success else failure "too large"

upload_all-files_example :
    ((upload_all but_b only_a listed).files ≡ map (outcome but_b only_a) listed.files)
    × (ready_ids but_b (upload_all but_b only_a listed).files ≡ [])
    × (((ready_ids but_b listed.files ≡ []) × (upload_all but_b only_a listed ≡ listed))
        ⊎ (((upload_all but_b only_a listed).uploading_all ≡ false)
            × ((upload_all but_b only_a listed).upload_progress ≡ none)
            × ((upload_all but_b only_a listed).expanded_id ≡ none)))
unfolding new_entry
upload_all-files_example =
    upload_all-files but_b only_a listed ((refl, (refl, tt)), ((refl, tt), (tt, tt)))

abbrev no_wav : File → Option String
no_wav f = if str_eq f.name "x.wav" then some "too long" else none

abbrev ids : ℕ → String
ids n = "id"

abbrev offered : List File
offered =
    record { name = "x.wav"; content = "" }
    ∷ record { name = "y.wav"; content = "" }
    ∷ record { name = "z.wav"; content = "" }
    ∷ []

-- "b" is removed while the three files are checked
abbrev after : Uploader
after = record mount { files = entry "a" ∷ entry "c" ∷ [] }

add_files-added_example :
    let checked = validate_all no_wav ids 0 (add_begin 5 offered listed).1 in
    let done = add_finish checked after in
    let room = room_for 5 listed.files offered in
    (done.files ≡ after.files ++ checked.0)
    × (files_of done.files ≡ files_of after.files ++ filter_by (λ f. is_good (no_wav f)) room)
    × All IsNew checked.0
    × (done.errors ≡ after.errors ++ failures no_wav room)
    × (length done.files ≤ 5)
add_files-added_example =
    add_files-added 5 no_wav ids 0 offered listed after (omega arith) (omega arith)
