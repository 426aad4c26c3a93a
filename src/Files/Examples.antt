-- ===== src/Files/Examples.antt =====
-- web/src/pages/Files.tsx: the music drive with its root folder, and a way through it.
use sentry_usb.Base.{◌≡◌, refl, true, false, some, List, [], ◌∷◌, String, inl}
use sentry_usb.Base.Text.{concat}
use sentry_usb.Files.Browser.{
  FileEntry, Browser, mount, drive, DriveTab, entries, fetch_end, parent_of,
}
use sentry_usb.Files.Paths.{child}
use sentry_usb.Files.Within.{
  Move, fetching, fetched, opened, up, switched, move, IsConfined, run, run-IsConfined,
}

parents :
    (parent_of "/a/b" ≡ "/a")
    × (parent_of "/a" ≡ "")
    × (parent_of "a" ≡ "")
    × (parent_of "/a/" ≡ "/a")
unfolding parent_of
parents = (refl, refl, refl, refl)

abbrev music : DriveTab
music = drive "Music" "/fs/Music"

abbrev folder : String → String → FileEntry
folder name path = record { name = name; path = path; is_dir = true; size = 0 }

abbrev at_music : Browser
unfolding mount
at_music = record mount { active_drive = some music; current_path = "/fs/Music" }

at_music-IsConfined : IsConfined music at_music
unfolding at_music
at_music-IsConfined = record { active = refl; based = refl; rooted = inl refl; within = inl refl }

abbrev moves : List Move
moves =
    fetching
    ∷ fetched false (entries (folder "Music" "/fs/Music/Music" ∷ []))
    ∷ opened (folder "B" "/fs/Music/Music/B")
    ∷ up
    ∷ up
    ∷ switched (drive "Wraps" "/mutable/Wraps")
    ∷ []

run-IsConfined_example : (k : DriveTab) × IsConfined k (run moves at_music)
unfolding at_music child concat move fetch_end
run-IsConfined_example =
    run-IsConfined moves music at_music at_music-IsConfined
      (tt, ((refl, tt), (refl, (tt, (tt, (refl, tt))))))
