-- ===== src/Files/Browser.antt =====
-- web/src/pages/Files.tsx: the drives, the path that is shown, and the requests for a directory.
use sentry_usb.Base.{
  ℕ, Bool, true, false, not, ◌&&◌, ◌||◌, Option, none, some, List, [], ◌∷◌, ◌++◌, String, str_eq,
  ltb, ◌==◌, if◌then◌else◌, find,
}
use sentry_usb.Base.Text.{is_empty, utf16_length}
use Prim.Native.Char.{code}
use Prim.Native.String.{[], ◌∷◌}

pub record FileEntry : Type 0 where
  pub name : String
  pub path : String
  pub is_dir : Bool
  pub size : ℕ

pub record DriveTab : Type 0 where
  pub id : String
  pub base : String

abbrev pub drive : String → String → DriveTab
drive id base = record { id = id; base = base }

abbrev pub all_drives : List DriveTab
all_drives =
    drive "USB Drive" "/mutable"
    ∷ drive "TeslaCam" "/mutable/TeslaCam"
    ∷ drive "Lock Sounds" "/mutable/LockChime"
    ∷ drive "Wraps" "/mutable/Wraps"
    ∷ drive "License Plates" "/mutable/LicensePlate"
    ∷ drive "Music" "/var/www/html/fs/Music"
    ∷ drive "LightShow" "/var/www/html/fs/LightShow"
    ∷ drive "Boombox" "/var/www/html/fs/Boombox"
    ∷ []

pub record Config : Type 0 where
  pub has_cam : Bool
  pub has_music : Bool
  pub has_lightshow : Bool
  pub has_boombox : Bool

pub record Browser : Type 0 where
  pub drives : List DriveTab
  pub active_drive : Option DriveTab
  pub current_path : String
  pub files : List FileEntry
  pub loading : Bool
  pub error : Option String
  pub selected : List String
  pub effective_base : String
  pub search : String

unfoldable pub mount : Browser
mount = record {
  drives = [];
  active_drive = none;
  current_path = "";
  files = [];
  loading = true;
  error = none;
  selected = [];
  effective_base = "";
  search = "";
}

abbrev pub when : Bool → DriveTab → List DriveTab
when b d = if b then d ∷ [] else []

-- the tabs that `loadConfig` shows
unfoldable pub visible_drives : Config → List DriveTab
visible_drives cfg =
    drive "USB Drive" "/mutable"
    ∷ (when cfg.has_cam (drive "TeslaCam" "/mutable/TeslaCam")
        ++ drive "Lock Sounds" "/mutable/LockChime"
          ∷ drive "Wraps" "/mutable/Wraps"
          ∷ drive "License Plates" "/mutable/LicensePlate"
          ∷ (when cfg.has_music (drive "Music" "/var/www/html/fs/Music")
              ++ when cfg.has_lightshow (drive "LightShow" "/var/www/html/fs/LightShow")
              ++ when cfg.has_boombox (drive "Boombox" "/var/www/html/fs/Boombox")))

-- `loadConfig` once its request has ended (`none`: it failed, and all the tabs are shown)
abbrev pub show_first : List DriveTab → Browser → Browser
show_first [] b = b
show_first (d ∷ ds) b = record b { drives = d ∷ ds; active_drive = some d; current_path = d.base }

unfoldable pub load_config : Option Config → Browser → Browser
unfolding visible_drives
load_config none b = show_first all_drives b
load_config (some cfg) b = show_first (visible_drives cfg) b

unfoldable pub fetch_begin : Browser → Browser
fetch_begin b = record b { loading = true; error = none; selected = [] }

-- What a request for a directory comes to: entries, an error status with the text of its body
-- if it has one, or an exception.
pub data Listing : Type 0 where
  entries : List FileEntry → Listing
  refused : Option String → Listing
  unreachable : Listing

abbrev pub refusal : Option String → String
refusal none = "Failed to load directory"
refusal (some text) = if is_empty text then "Failed to load directory" else text

-- the folder of the drive's own name, if the base of the drive was asked for without a search
abbrev pub root_folder : DriveTab → List FileEntry → Option FileEntry
root_folder d listed = find (λ e. e.is_dir && str_eq e.name d.id) listed

abbrev pub auto_folder : Option DriveTab → String → Bool → List FileEntry → Option FileEntry
auto_folder none path searched listed = none
auto_folder (some d) path searched listed =
    if str_eq path d.base && not searched then root_folder d listed else none

-- The end of `fetchFiles`: the drive, the path and whether there was a search are those of the
-- call.
unfoldable pub fetch_end : Option DriveTab → String → Bool → Listing → Browser → Browser
fetch_end asked path searched (entries listed) b = elim (auto_folder asked path searched listed) [
  | none ↦ record b { files = listed; loading = false }
  | some e ↦ record b { effective_base = e.path; current_path = e.path }
]
fetch_end asked path searched (refused text) b = record b {
  error = some (refusal text);
  files = [];
  loading = false;
}
fetch_end asked path searched unreachable b = record b {
  error = some "Unable to connect";
  files = [];
  loading = false;
}

unfoldable pub handle_search_change : String → Browser → Browser
handle_search_change value b = record b { search = value }

unfoldable pub navigate : FileEntry → Browser → Browser
navigate e b = if e.is_dir then record b { current_path = e.path } else b

abbrev pub has_slash : String → Bool
has_slash [] = false
has_slash (c ∷ s) = code c == 47 || has_slash s

-- `path.split("/").slice(0, -1).join("/")`
unfoldable pub parent_of : String → String
parent_of [] = []
parent_of (c ∷ s) = let rest = parent_of s in if has_slash s then c ∷ rest else []

abbrev pub or_else : String → String → String
or_else a b = if is_empty a then b else a

-- `goUp`
unfoldable pub go_up : Browser → Browser
unfolding parent_of utf16_length
go_up b = elim b.active_drive [
  | none ↦ b
  | some d ↦
      let base = or_else b.effective_base d.base in
      let parent = parent_of b.current_path in
      if is_empty base
      then b
      else if str_eq b.current_path base
      then b
      else if ltb (utf16_length parent) (utf16_length base)
      then b
      else record b { current_path = or_else parent base }
]

unfoldable pub switch_drive : DriveTab → Browser → Browser
switch_drive d b = record b {
  active_drive = some d;
  effective_base = "";
  search = "";
  current_path = d.base;
}

-- `handleDelete`: the paths that it deletes, before it fetches the directory again
unfoldable pub handle_delete : Bool → Browser → List String
handle_delete confirmed b = if confirmed then b.selected else []
