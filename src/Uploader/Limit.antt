-- ===== src/Uploader/Limit.antt =====
-- web/src/components/upload/MultiFileUploader.tsx: what `addFiles` adds, and the limit of files.
use sentry_usb.Base.{
  ℕ, suc, ◌-◌, ◌≤◌, ◌≡◌, refl, sym, ap, subst, ◌∙◌, Bool, true, false, Bool-cases, Option-cases,
  Option, none, some, List, [], ◌∷◌, ◌++◌, String, arith, leb, length, All, length-append,
  length-take, inl, inr, filter_by, map, take,
}
use sentry_usb.Uploader.Files.{
  File, FileEntry, pending, Message, file_error, Uploader, validate_all, new_entry, strip_extension,
  add_begin, add_finish,
}

abbrev pub is_good : Option String → Bool
is_good none = true
is_good (some e) = false

-- the messages of the files that fail the check, in order
abbrev pub failures : (File → Option String) → List File → List Message
failures check [] = []
failures check (f ∷ fs) = elim (check f) [
  | none ↦ failures check fs
  | some e ↦ file_error f.name e ∷ failures check fs
]

-- the files that an addition to a list of so many files still has room for
abbrev pub room_for : ℕ → List FileEntry → List File → List File
room_for max_files files incoming = take (max_files - length files) incoming

abbrev pub files_of : List FileEntry → List File
files_of entries = map (λ e. e.file) entries

-- a new entry: pending, and named as its file without the extension
abbrev pub IsNew : FileEntry → Type 0
IsNew e = (e.status ≡ pending) × (e.name ≡ strip_extension e.file.name) × (e.error_text ≡ none)

validate_all-files :
    (check : File → Option String) (ids : ℕ → String) (n : ℕ) (fs : List File)
    → (files_of (validate_all check ids n fs).0 ≡ filter_by (λ f. is_good (check f)) fs)
      × ((validate_all check ids n fs).1 ≡ failures check fs)
      × All IsNew (validate_all check ids n fs).0
unfolding validate_all new_entry
validate_all-files check ids n [] = (refl, refl, tt)
validate_all-files check ids n (f ∷ fs) =
    let good = validate_all-files check ids (suc n) fs in
    let bad = validate_all-files check ids n fs in
    elim (Option-cases (check f)) [
      | inl passed ↦
          let e : validate_all check ids n (f ∷ fs) ≡ (
            new_entry (ids n) f ∷ (validate_all check ids (suc n) fs).0,
            (validate_all check ids (suc n) fs).1,
          ) =
            rw (passed, validate_all) refl in
          let kept : filter_by (λ g. is_good (check g)) (f ∷ fs)
              ≡ f ∷ filter_by (λ g. is_good (check g)) fs =
            rw passed refl in
          let silent : failures check (f ∷ fs) ≡ failures check fs = rw (passed, failures) refl in
          (
            ap (λ r. files_of r.0) e ∙ ap (λ l. f ∷ l) good.0 ∙ sym kept,
            ap (λ r. r.1) e ∙ good.1 ∙ sym silent,
            subst (λ r. All IsNew r.0) (sym e) ((refl, refl, refl), good.2),
          )
      | inr (m, failed) ↦
          let e : validate_all check ids n (f ∷ fs) ≡ (
            (validate_all check ids n fs).0,
            file_error f.name m ∷ (validate_all check ids n fs).1,
          ) =
            rw (failed, validate_all) refl in
          let left : filter_by (λ g. is_good (check g)) (f ∷ fs)
              ≡ filter_by (λ g. is_good (check g)) fs =
            rw failed refl in
          let told : failures check (f ∷ fs) ≡ file_error f.name m ∷ failures check fs =
            rw (failed, failures) refl in
          (
            ap (λ r. files_of r.0) e ∙ bad.0 ∙ sym left,
            ap (λ r. r.1) e ∙ ap (λ l. file_error f.name m ∷ l) bad.1 ∙ sym told,
            subst (λ r. All IsNew r.0) (sym e) bad.2,
          )
    ]

add_begin-room :
    (max_files : ℕ) (incoming : List File) (u : Uploader)
    → (add_begin max_files incoming u).1 ≡ room_for max_files u.files incoming
unfolding add_begin
add_begin-room max_files incoming u = elim (Bool-cases (leb max_files (length u.files))) [
  | inl full ↦
      let no_room : max_files - length u.files ≡ 0 = ground (arith, full) in rw (full, no_room) refl
  | inr open_room ↦ rw open_room refl
]

map-append : (xs ys : List FileEntry) → files_of (xs ++ ys) ≡ files_of xs ++ files_of ys
map-append [] ys = refl
map-append (x ∷ xs) ys = ap (λ l. x.file ∷ l) (map-append xs ys)

length-filter : (p : File → Bool) (fs : List File) → length (filter_by p fs) ≤ length fs
length-filter p [] = omega arith
length-filter p (f ∷ fs) = ground (arith, length-filter p fs)

length-files_of : (es : List FileEntry) → length (files_of es) ≡ length es
length-files_of [] = refl
length-files_of (e ∷ es) = ap suc (length-files_of es)

-- An addition of files that begins at one state and ends at another, whatever happened while it
-- waited for the checks: the files that it adds are exactly those that pass the check among the first
-- ones that there was room for when it began, in their order, behind those that are there by then,
-- each as a new entry; the messages of those that fail are added to the messages. If the list
-- has not become longer in between, it is within the limit.
pub add_files-added :
    (max_files : ℕ) (check : File → Option String) (ids : ℕ → String) (n : ℕ) (incoming : List File)
    (before after : Uploader)
    → length before.files ≤ max_files
    → length after.files ≤ length before.files
    → let checked = validate_all check ids n (add_begin max_files incoming before).1 in
      let done = add_finish checked after in
      let room = room_for max_files before.files incoming in
      (done.files ≡ after.files ++ checked.0)
      × (files_of done.files ≡ files_of after.files ++ filter_by (λ f. is_good (check f)) room)
      × All IsNew checked.0
      × (done.errors ≡ after.errors ++ failures check room)
      × (length done.files ≤ max_files)
unfolding add_finish
add_files-added max_files check ids n incoming before after h shorter =
    let begun = add_begin-room max_files incoming before in
    let room = room_for max_files before.files incoming in
    let checked = validate_all check ids n (add_begin max_files incoming before).1 in
    let facts = validate_all-files check ids n (add_begin max_files incoming before).1 in
    let added : files_of checked.0 ≡ filter_by (λ f. is_good (check f)) room =
      facts.0 ∙ ap (filter_by (λ f. is_good (check f))) begun in
    (
      refl,
      map-append after.files checked.0 ∙ ap (λ l. files_of after.files ++ l) added,
      facts.2,
      ap (λ l. after.errors ++ l) (facts.1 ∙ ap (failures check) begun),
      omega (
        arith,
        h,
        shorter,
        length-append after.files checked.0,
        length-files_of checked.0,
        ap length added,
        length-filter (λ f. is_good (check f)) room,
        length-take (max_files - length before.files) incoming,
      ),
    )
