-- ===== src/Viewer/Groups.antt =====
-- web/src/pages/Viewer.tsx: `groupByTimestamp`: the files of a clip, by their time and camera. The
-- order of `localeCompare` is the browser's.
use Prim.Native.String.{String, [], ◌∷◌}
use mathlib.Core.List.{List, [] as nil, ◌∷◌ as cons, map}
use sentry_usb.Base.{Option, none, some, str_eq, if◌then◌else◌}
use sentry_usb.Base.Text.{is_empty, concat}
use sentry_usb.Base.Dict.{get, put}

-- The text before a suffix, if the text ends with it.
abbrev prepend : String → Option String → Option String
prepend c none = none
prepend c (some s) = some (concat c s)

unfoldable pub strip_suffix : String → String → Option String
unfolding concat
strip_suffix suffix [] = if is_empty suffix then some "" else none
strip_suffix suffix (c ∷ s) =
    let rest = strip_suffix suffix s in
    if str_eq (c ∷ s) suffix then some "" else prepend (c ∷ "") rest

abbrev pub cameras : List String
cameras = cons "front" (
    cons "back"
      (cons "left_repeater" (cons "right_repeater" (cons "left_pillar" (cons "right_pillar" nil)))))

-- `f.match(…)`: the time and the camera
abbrev with_camera : String → Option String → Option (String × String) → Option (String × String)
with_camera cam none other = other
with_camera cam (some ts) other = if is_empty ts then other else some (ts, cam)

unfoldable pub match_camera : List String → String → Option (String × String)
unfolding strip_suffix concat
match_camera nil f = none
match_camera (cons cam cams) f =
    with_camera cam (strip_suffix (concat "-" (concat cam ".mp4")) f) (match_camera cams f)

pub record ClipSet : Type 0 where
  pub timestamp : String
  pub files : List (String × String)

abbrev or_empty : Option (List (String × String)) → List (String × String)
or_empty none = nil
or_empty (some files) = files

abbrev add_file :
    Option (String × String)
    → String
    → List (String × List (String × String))
    → List (String × List (String × String))
add_file none path groups = groups
add_file (some m) path groups = put m.0 (put m.1 path (or_empty (get m.0 groups))) groups

-- the loop, over the groups that there are
unfoldable pub add_files :
    String
    → List String
    → List (String × List (String × String))
    → List (String × List (String × String))
unfolding match_camera put get concat
add_files base_path nil groups = groups
add_files base_path (cons f fs) groups =
    add_files base_path fs
      (add_file (match_camera cameras f) (concat base_path (concat "/" f)) groups)

abbrev clip_of : String × List (String × String) → ClipSet
clip_of g = record { timestamp = g.0; files = g.1 }

module _
    (sort_by_key : List (String × List (String × String))
      → List (String × List (String × String))) where
  unfoldable pub group_by_timestamp : List String → String → List ClipSet
  unfolding add_files
  group_by_timestamp files base_path = map clip_of (sort_by_key (add_files base_path files nil))
