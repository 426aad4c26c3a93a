-- ===== src/Drives.antt =====
-- web/src/pages/Drives.tsx: the tags of the drives, the slider along the route of the selected
-- drive, and the checks of the archive status. The map is left out.
pub mod Tags
pub mod Slider
pub mod Process
pub mod Listing
mod Examples
use sentry_usb.Base.{
  ℕ, zero, suc, ◌+◌, ◌-◌, Bool, true, false, not, ◌&&◌, ◌||◌, Option, none, some, List, [], ◌∷◌,
  ◌++◌, map, String, str_eq, leb, ◌==◌, if◌then◌else◌, any, filter_by, length,
}
use sentry_usb.Base.Text.{trim, is_empty}

-- a drive of the list, and the selected one with how many points its route has
pub record Drive : Type 0 where
  pub id : ℕ
  pub start_time : String
  pub tags : List String

pub record Detail : Type 0 where
  pub points : ℕ
  pub tags : List String

pub record Drives : Type 0 where
  pub drives : List Drive
  pub selected_id : Option ℕ
  pub selected_drive : Option Detail
  pub all_tags : List String
  pub slider_idx : ℕ
  pub slider_playing : Bool
  pub processing : Bool
  pub importing : Bool
  pub archiving : Bool
  -- how often the drives were loaded again
  pub loads : ℕ

abbrev pub has_tag : String → List String → Bool
has_tag t [] = false
has_tag t (s ∷ ss) = str_eq s t || has_tag t ss

-- `s.add(t)` on a `Set` in insertion order, and `new Set(prev)` with more added
unfoldable pub add_all : List String → List String → List String
add_all set [] = set
add_all set (t ∷ ts) = add_all (if has_tag t set then set else set ++ t ∷ []) ts

unfoldable pub merge_tags : List String → List String → List String
unfolding add_all
merge_tags prev tags =
    let s = add_all (add_all [] prev) tags in if length s == length prev then prev else s

abbrev pub retag : List String → Option Detail → Option Detail
retag tags none = none
retag tags (some d) = some (record d { tags = tags })

abbrev pub is_selected : ℕ → Option ℕ → Bool
is_selected id none = false
is_selected id (some k) = k == id

-- `saveTags` up to its wait; nothing follows the reply.
unfoldable pub save_tags : ℕ → List String → Drives → Drives
unfolding merge_tags
save_tags drive_id tags s = record s {
  drives = map (λ d. if d.id == drive_id then record d { tags = tags } else d) s.drives;
  selected_drive =
      if is_selected drive_id s.selected_id then retag tags s.selected_drive else s.selected_drive;
  all_tags = merge_tags s.all_tags tags;
}

unfoldable pub add_tag_to_drive : ℕ → List String → String → Drives → Drives
unfolding save_tags trim
add_tag_to_drive drive_id current_tags tag s =
    let trimmed = trim tag in
    if is_empty trimmed || has_tag trimmed current_tags
    then s
    else save_tags drive_id (current_tags ++ trimmed ∷ []) s

unfoldable pub remove_tag_from_drive : ℕ → List String → String → Drives → Drives
unfolding save_tags
remove_tag_from_drive drive_id current_tags tag s =
    save_tags drive_id (filter_by (λ t. not (str_eq t tag)) current_tags) s

unfoldable pub handle_slider : ℕ → Drives → Drives
handle_slider idx s = record s { slider_idx = idx }

-- `toggleSliderPlay`
unfoldable pub toggle_slider_play : Drives → Drives
unfolding handle_slider
toggle_slider_play s =
    if s.slider_playing then record s { slider_playing = false } else elim s.selected_drive [
      | none ↦ s
      | some d ↦
          let started = if leb (d.points - 1) s.slider_idx then handle_slider 0 s else s in
          if d.points == 0 then s else record started { slider_playing = true }
    ]

-- a tick of its interval, with the drive that was selected when it was set
unfoldable pub slider_tick : Detail → Drives → Drives
slider_tick d s =
    if s.slider_playing
    then if leb d.points (suc s.slider_idx)
      then record s { slider_playing = false; slider_idx = d.points - 1 }
      else record s { slider_idx = suc s.slider_idx }
    else s

-- the effect on the selected drive
unfoldable pub on_selected : Drives → Drives
on_selected s = record s { slider_playing = false }

pub record ArchiveStatus : Type 0 where
  pub archiving : Bool
  pub running : Bool
  pub importing : Bool

-- `checkArchive` once its request has ended
abbrev pub reload : Bool → Bool → ℕ → ℕ
reload before now loads = if before && not now then suc loads else loads

unfoldable pub check_archive : Option ArchiveStatus → Drives → Drives
check_archive none s = s
check_archive (some a) s = record s {
  archiving = a.archiving;
  processing = a.running;
  importing = a.importing;
  loads = reload s.importing a.importing (reload s.processing a.running s.loads);
}
