-- ===== src/Wizard/Changes.antt =====
-- web/src/components/setup/SetupWizard.tsx: `DESTRUCTIVE_SIZE_KEYS`, `normalizeSizeValue` and
-- `detectDestructiveChanges`.
use Prim.Native.Char.{code}
use Prim.Native.String
use Prim.Native.String.{String, [], ◌∷◌}
use mathlib.Core.List.{List}
use sentry_usb.Base.{◌||◌, Option, none, some, str_eq, ◌==◌, if◌then◌else◌}
use sentry_usb.Base.Dict.{get}
use sentry_usb.Base.Text.{is_empty, trim}
use sentry_usb.Wizard.Validation.{FormData, or_default, or_else, holds}

abbrev pub destructive_size_keys : List (String × String)
destructive_size_keys =
    List.◌∷◌ ("CAM_SIZE", "Dashcam drive (clips & snapshots)")
      (List.◌∷◌ ("MUSIC_SIZE", "Music drive")
        (List.◌∷◌ ("LIGHTSHOW_SIZE", "Lightshow drive")
          (List.◌∷◌ ("BOOMBOX_SIZE", "Boombox drive")
            (List.◌∷◌ ("WRAPS_SIZE", "Wraps drive") List.[]))))

pub record DestructiveChange : Type 0 where
  pub key : String
  pub label : String
  pub reason : String

-- `val.replace(/G$/i, "")`
unfoldable pub strip_unit : String → String
strip_unit [] = []
strip_unit (c ∷ []) = if code c == b'G' || code c == b'g' then [] else c ∷ []
strip_unit (c ∷ d ∷ s) = c ∷ strip_unit (d ∷ s)

unfoldable pub normalize_size_value : Option String → String
unfolding strip_unit
normalize_size_value none = "0"
normalize_size_value (some val) =
    if is_empty val then "0" else or_else (some (trim (strip_unit val))) "0"

infixr 60 ◌<>◌
abbrev pub ◌<>◌ : String → String → String
s <> t = String.◌++◌ s t

-- the loop over the size keys
unfoldable pub size_changes : FormData → FormData → List (String × String) → List DestructiveChange
size_changes current original List.[] = List.[]
size_changes current original (List.◌∷◌ (key, label) table) =
    let new_val = normalize_size_value (get key current) in
    let old_val = normalize_size_value (get key original) in
    let rest = size_changes current original table in
    if str_eq new_val old_val
    then rest
    else List.◌∷◌
        (record {
          key = key;
          label = label;
          reason =
              "Size changed from "
              <> or_else (some old_val) "0"
              <> "G to "
              <> new_val
              <> "G — drive image will be recreated";
        })
        rest

-- `USE_EXFAT ?? "true"`
abbrev pub use_exfat : FormData → String
use_exfat form = or_default (get "USE_EXFAT" form) "true"

abbrev pub file_system : FormData → String
file_system form = if holds form "USE_EXFAT" "true" then "exFAT" else "FAT32"

unfoldable pub detect_destructive_changes : FormData → Option FormData → List DestructiveChange
detect_destructive_changes current none = List.[]
detect_destructive_changes current (some original) =
    if str_eq (use_exfat current) (use_exfat original)
    then size_changes current original destructive_size_keys
    else List.◌∷◌
        (record {
          key = "USE_EXFAT";
          label = "All drives";
          reason =
              "Filesystem type changed from "
              <> file_system original
              <> " to "
              <> file_system current
              <> " — all drive images will be recreated";
        })
        List.[]
