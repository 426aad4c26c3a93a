-- ===== src/Viewer/Library.antt =====
-- web/src/pages/Viewer.tsx: the groups of clips, by category. The request handlers are split at
-- the wait; the category is the one that was active when the request was made.
use sentry_usb.Base.{
  Bool, true, false, not, Option, none, some, List, [], ◌∷◌, ◌++◌, map, String, str_eq,
  if◌then◌else◌, filter_by, find,
}

pub record ClipEntry : Type 0 where
  pub date : String
  pub path : String
  pub files : List String

pub record ClipGroup : Type 0 where
  pub name : String
  pub clips : List ClipEntry
  pub has_more : Bool

pub record Library : Type 0 where
  pub groups : List ClipGroup
  pub loading : Bool
  pub loading_more : Bool
  pub active_category : String
  pub selected_clip : Option ClipEntry
  pub delete_confirm : Option String

unfoldable pub mount : Library
mount = record {
  groups = [];
  loading = true;
  loading_more = false;
  active_category = "RecentClips";
  selected_clip = none;
  delete_confirm = none;
}

-- `groups.find((g) => g.name === category)`
abbrev pub find_group : String → List ClipGroup → Option ClipGroup
find_group category groups = find (λ g. str_eq g.name category) groups

-- the effect on the category: its request begins, and its reply arrives (`none`: it failed)
unfoldable pub fetch_begin : String → Library → Library
fetch_begin category l = record l { active_category = category; loading = true }

unfoldable pub fetch_reply : String → Option (List ClipGroup) → Library → Library
fetch_reply category none l = record l { loading = false }
fetch_reply category (some reply) l = record l {
  groups = filter_by (λ g. not (str_eq g.name category)) l.groups ++ reply;
  loading = false;
}

abbrev pub last_clip : List ClipEntry → Option ClipEntry
last_clip [] = none
last_clip (c ∷ []) = some c
last_clip (c ∷ d ∷ cs) = last_clip (d ∷ cs)

-- `loadMoreClips`: the date that the next page is asked from, if a request is made
unfoldable pub load_more_begin : Library → Library × Option String
load_more_begin l = elim (find_group l.active_category l.groups) [
  | none ↦ (l, none)
  | some g ↦
      if g.has_more
      then elim (last_clip g.clips) [
        | none ↦ (l, none)
        | some c ↦ (record l { loading_more = true }, some c.date)
      ]
      else (l, none)
]

abbrev pub append_page : String → ClipGroup → ClipGroup → ClipGroup
append_page category new_group g =
    if str_eq g.name category
    then record g { clips = g.clips ++ new_group.clips; has_more = new_group.has_more }
    else g

unfoldable pub load_more_reply : String → Option (List ClipGroup) → Library → Library
load_more_reply category none l = record l { loading_more = false }
load_more_reply category (some reply) l = elim (find_group category reply) [
  | none ↦ record l { loading_more = false }
  | some new_group ↦ record l {
    groups = map (append_page category new_group) l.groups;
    loading_more = false;
  }
]

abbrev pub drop_clip : String → String → ClipGroup → ClipGroup
drop_clip category date g =
    if str_eq g.name category
    then record g { clips = filter_by (λ c. not (str_eq c.date date)) g.clips }
    else g

abbrev pub deselect : String → Option ClipEntry → Option ClipEntry
deselect date none = none
deselect date (some c) = if str_eq c.date date then none else some c

-- `handleDeleteClip` once its request has ended; an exception leaves everything as it is.
unfoldable pub delete_reply : Bool → String → ClipEntry → Library → Library
delete_reply thrown category clip l = if thrown then l else record l {
  groups = map (drop_clip category clip.date) l.groups;
  selected_clip = deselect clip.date l.selected_clip;
  delete_confirm = none;
}
