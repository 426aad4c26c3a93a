-- ===== src/Files/Within.antt =====
-- web/src/pages/Files.tsx: the path that is shown stays within the drive.
use sentry_usb.Base.{
  ◌≡◌, refl, sym, ap, ◌∙◌, subst, Bool, true, false, ◌&&◌, some, List, [], ◌∷◌, String, str_eq,
  eq_iff, arith, ltb, find, Bool-cases, Option-cases, inl, inr, All,
}
use sentry_usb.Base.Text.{is_empty, utf16_length}
use sentry_usb.Files.Browser.{
  FileEntry, DriveTab, Browser, Listing, entries, refused, unreachable, root_folder, auto_folder,
  fetch_begin, fetch_end, handle_search_change, navigate, has_slash, parent_of, or_else, go_up,
  switch_drive,
}
use Prim.Native.String.{[], ◌∷◌}
use sentry_usb.Files.Paths.{
  child, parent_of-child, IsWithin, child_other, parent_of-IsWithin, IsWithin-length,
  has_text_of_longer, child_below, child_not_empty,
}

abbrev pub base_of : DriveTab → Browser → String
base_of d b = or_else b.effective_base d.base

-- The drive is the active one, the effective base lies within its base, and the path that is
-- shown within the effective base.
pub record IsConfined (d : DriveTab) (b : Browser) : Type 0 where
  pub active : b.active_drive ≡ some d
  pub based : is_empty (base_of d b) ≡ false
  pub rooted : IsWithin d.base (base_of d b)
  pub within : IsWithin (base_of d b) b.current_path

-- `goUp` stays at the base, and below it goes to the parent.
go_up_below :
    (d : DriveTab) (b : Browser) (r : String)
    → b.active_drive ≡ some d
    → is_empty (base_of d b) ≡ false
    → b.current_path ≡ child (base_of d b) r
    → go_up b ≡ record b { current_path = parent_of b.current_path }
unfolding go_up
go_up_below d b r active based e =
    let base = base_of d b in
    let parent = parent_of b.current_path in
    let inside : IsWithin base parent =
      subst (λ p. IsWithin base (parent_of p)) (sym e) (parent_of-IsWithin base r) in
    let le = IsWithin-length base parent inside in
    let filled = has_text_of_longer base parent based le in
    let other : str_eq b.current_path base ≡ false =
      ap (λ p. str_eq p base) e ∙ child_other base r in
    let long : ltb (utf16_length parent) (utf16_length base) ≡ false = ground (arith, le) in
    rw (active, based, other, long, filled) refl

-- Going into a folder of the directory that is shown, and up again, leads back, when the path
-- is confined to the drive.
navigate-go_up :
    (d : DriveTab) (b : Browser) (e : FileEntry)
    → IsConfined d b
    → e.is_dir ≡ true
    → e.path ≡ child b.current_path e.name
    → has_slash e.name ≡ false
    → go_up (navigate e b) ≡ b
unfolding navigate
navigate-go_up d b e c dir p h =
    let inside = child_below (base_of d b) b.current_path e.name c.within in
    let up =
      go_up_below d (record b { current_path = e.path }) inside.0 c.active c.based (p ∙ inside.1) in
    let back : parent_of e.path ≡ b.current_path =
      ap parent_of p ∙ parent_of-child b.current_path e.name h in
    rw dir (up ∙ ap (λ q. record b { current_path = q }) back)

-- What the user and the server do to the path.
pub data Move : Type 0 where
  fetching : Move
  fetched : Bool → Listing → Move
  searching : String → Move
  opened : FileEntry → Move
  up : Move
  switched : DriveTab → Move

unfoldable pub move : Move → Browser → Browser
unfolding fetch_begin fetch_end handle_search_change navigate go_up switch_drive
move fetching b = fetch_begin b
move (fetched searched listing) b = fetch_end b.active_drive b.current_path searched listing b
move (searching value) b = handle_search_change value b
move (opened e) b = navigate e b
move up b = go_up b
move (switched d) b = switch_drive d b

-- an entry of a directory, as the server lists it
abbrev pub IsEntryOf : String → FileEntry → Type 0
IsEntryOf path e = e.path ≡ child path e.name

-- What the server lists are entries of the directory, and a drive has a base.
abbrev pub IsListed : Browser → Move → Type 0
IsListed b fetching = Unit
IsListed b (fetched searched (entries listed)) = All (IsEntryOf b.current_path) listed
IsListed b (fetched searched l) = Unit
IsListed b (searching value) = Unit
IsListed b (opened e) = IsEntryOf b.current_path e
IsListed b up = Unit
IsListed b (switched d) = is_empty d.base ≡ false

abbrev pub IsValid : List Move → Browser → Type 0
unfolding move
IsValid [] b = Unit
IsValid (m ∷ ms) b = IsListed b m × IsValid ms (move m b)

unfoldable pub run : List Move → Browser → Browser
run [] b = b
run (m ∷ ms) b = run ms (move m b)

go_up_at_base :
    (d : DriveTab) (b : Browser)
    → b.active_drive ≡ some d
    → is_empty (base_of d b) ≡ false
    → b.current_path ≡ base_of d b
    → go_up b ≡ b
unfolding go_up
go_up_at_base d b active based e =
    let same : str_eq b.current_path (base_of d b) ≡ true =
      (eq_iff b.current_path (base_of d b)).1 e in
    rw (active, based, same) refl

go_up-IsConfined : (d : DriveTab) (b : Browser) → IsConfined d b → IsConfined d (go_up b)
go_up-IsConfined d b c = elim c.within [
  | inl e ↦ subst (IsConfined d) (sym (go_up_at_base d b c.active c.based e)) c
  | inr (r, e) ↦ subst (IsConfined d) (sym (go_up_below d b r c.active c.based e)) (record {
    active = c.active;
    based = c.based;
    rooted = c.rooted;
    within =
        subst (λ p. IsWithin (base_of d b) (parent_of p)) (sym e)
          (parent_of-IsWithin (base_of d b) r);
  })
]

navigate-IsConfined :
    (d : DriveTab) (b : Browser) (e : FileEntry)
    → IsConfined d b
    → IsEntryOf b.current_path e
    → IsConfined d (navigate e b)
unfolding navigate
navigate-IsConfined d b e c p = elim (Bool-cases e.is_dir) [
  | inl dir ↦ rw dir (record {
    active = c.active;
    based = c.based;
    rooted = c.rooted;
    within =
        let inside = child_below (base_of d b) b.current_path e.name c.within in
        inr (inside.0, p ∙ inside.1);
  })
  | inr file ↦ rw file c
]

find-All :
    (p : FileEntry → Bool) (path : String) (listed : List FileEntry) (e : FileEntry)
    → All (IsEntryOf path) listed
    → find p listed ≡ some e
    → IsEntryOf path e
find-All p path [] e h f = cc
find-All p path (x ∷ xs) e (hx, h) f = elim (Bool-cases (p x)) [
  | inl here ↦
      let found : find p (x ∷ xs) ≡ some x = rw here refl in
      let same : x ≡ e = cc in subst (IsEntryOf path) same hx
  | inr later ↦
      let found : find p (x ∷ xs) ≡ find p xs = rw later refl in
      find-All p path xs e h (sym found ∙ f)
]

auto_folder-some :
    (d : DriveTab) (path : String) (searched : Bool) (listed : List FileEntry) (e : FileEntry)
    → auto_folder (some d) path searched listed ≡ some e
    → (path ≡ d.base) × (root_folder d listed ≡ some e)
auto_folder-some d path searched listed e h = ground (arith, h, eq_iff path d.base)

fetch_end-IsConfined :
    (d : DriveTab) (b : Browser) (searched : Bool) (listed : List FileEntry)
    → IsConfined d b
    → All (IsEntryOf b.current_path) listed
    → IsConfined d (fetch_end (some d) b.current_path searched (entries listed) b)
unfolding fetch_end
fetch_end-IsConfined d b searched listed c h =
    elim (Option-cases (auto_folder (some d) b.current_path searched listed)) [
      | inl nothing ↦
          rw (nothing, fetch_end)
            (record { active = c.active; based = c.based; rooted = c.rooted; within = c.within })
      | inr (e, folder) ↦
          let found = auto_folder-some d b.current_path searched listed e folder in
          let p : e.path ≡ child d.base e.name =
            find-All (λ x. x.is_dir && str_eq x.name d.id) b.current_path listed e h found.1
            ∙ ap (λ q. child q e.name) found.0 in
          let filled : is_empty e.path ≡ false = ap is_empty p ∙ child_not_empty d.base e.name in
          let chosen : base_of d (record b { effective_base = e.path; current_path = e.path })
              ≡ e.path =
            rw filled refl in
          rw (folder, fetch_end)
            (record {
              active = c.active;
              based = ap is_empty chosen ∙ filled;
              rooted = subst (IsWithin d.base) (sym chosen) (inr (e.name, p));
              within = inl (sym chosen);
            })
    ]

move-IsConfined :
    (m : Move) (d : DriveTab) (b : Browser)
    → IsConfined d b
    → IsListed b m
    → (k : DriveTab) × IsConfined k (move m b)
unfolding move fetch_begin handle_search_change switch_drive fetch_end
move-IsConfined fetching d b c h =
    (d, record { active = c.active; based = c.based; rooted = c.rooted; within = c.within })
move-IsConfined (fetched searched (entries listed)) d b c h = (
  d,
  subst (λ o. IsConfined d (fetch_end o b.current_path searched (entries listed) b)) (sym c.active)
      (fetch_end-IsConfined d b searched listed c h),
)
move-IsConfined (fetched searched (refused text)) d b c h =
    (d, record { active = c.active; based = c.based; rooted = c.rooted; within = c.within })
move-IsConfined (fetched searched unreachable) d b c h =
    (d, record { active = c.active; based = c.based; rooted = c.rooted; within = c.within })
move-IsConfined (searching value) d b c h =
    (d, record { active = c.active; based = c.based; rooted = c.rooted; within = c.within })
move-IsConfined (opened e) d b c h = (d, navigate-IsConfined d b e c h)
move-IsConfined up d b c h = (d, go_up-IsConfined d b c)
move-IsConfined (switched k) d b c h =
    (k, record { active = refl; based = h; rooted = inl refl; within = inl refl })

-- From a path that is confined to its drive on, as long as the listings that arrive are those of
-- the directory that is shown: the path stays within the effective base and that within the base
-- of the active drive, so going up never leaves the drive.
pub run-IsConfined :
    (ms : List Move) (d : DriveTab) (b : Browser)
    → IsConfined d b
    → IsValid ms b
    → (k : DriveTab) × IsConfined k (run ms b)
unfolding run IsValid
run-IsConfined [] d b c v = (d, c)
run-IsConfined (m ∷ ms) d b c (h, v) =
    let one = move-IsConfined m d b c h in run-IsConfined ms one.0 (move m b) one.1 v
