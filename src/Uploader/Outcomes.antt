-- ===== src/Uploader/Outcomes.antt =====
-- web/src/components/upload/MultiFileUploader.tsx: what uploading all files comes to.
use sentry_usb.Base.{
  ℕ, suc, ◌≡◌, refl, sym, ap, ◌∙◌, subst, ◌⊎◌, Bool, true, false, none, some, List, [], ◌∷◌, ◌++◌,
  map, String, str_eq, eq_iff, arith, if◌then◌else◌, ◌==◌, ◌&&◌, length, find, All, Bool-cases, inl,
  inr,
}
use sentry_usb.Uploader.Files.{FileEntry, uploading, Uploader, is_id, map_entry}
use sentry_usb.Uploader.Uploads.{
  is_pending, Upload, success, failure, thrown, set_outcome, ready_ids, is_ready_pending,
  round_begin, round_finish, upload_loop, upload_all,
}

-- no entry of the list has the id
abbrev pub IsUnused : String → List FileEntry → Type 0
IsUnused id files = All (λ f. str_eq f.id id ≡ false) files

-- the ids of the entries differ
abbrev pub IsDistinct : List FileEntry → Type 0
IsDistinct [] = Unit
IsDistinct (f ∷ fs) = IsUnused f.id fs × IsDistinct fs

map_entry_unused :
    (id : String) (change : FileEntry → FileEntry) (fs : List FileEntry)
    → IsUnused id fs
    → map_entry id change fs ≡ fs
map_entry_unused id change [] h = refl
map_entry_unused id change (f ∷ fs) (u, h) = ground (arith, map_entry_unused id change fs h)

-- An entry with an id of its own is found, and is the only one that a change of that id meets.
find_middle :
    (before after : List FileEntry) (x : FileEntry)
    → IsUnused x.id before
    → find (is_id x.id) (before ++ x ∷ after) ≡ some x
find_middle [] after x h = ground (arith, eq_iff x.id x.id)
find_middle (b ∷ bs) after x (u, h) = ground (arith, find_middle bs after x h)

map_entry_middle :
    (before after : List FileEntry) (x : FileEntry) (change : FileEntry → FileEntry) (id : String)
    → x.id ≡ id
    → IsUnused id before
    → IsUnused id after
    → map_entry id change (before ++ x ∷ after) ≡ before ++ change x ∷ after
map_entry_middle [] after x change id e h k =
    ground (arith, eq_iff x.id id, map_entry_unused id change after k)
map_entry_middle (b ∷ bs) after x change id e (u, h) k =
    ground (arith, map_entry_middle bs after x change id e h k)

set_outcome_uploading :
    (o : Upload) (f : FileEntry) → set_outcome o (record f { status = uploading }) ≡ set_outcome o f
unfolding set_outcome
set_outcome_uploading success f = refl
set_outcome_uploading (failure text) f = refl
set_outcome_uploading (thrown text) f = refl

-- A round of the loop changes its entry alone.
round-files :
    (i total : ℕ) (o : Upload) (u : Uploader) (before after : List FileEntry) (x : FileEntry)
    → u.files ≡ before ++ x ∷ after
    → IsUnused x.id before
    → IsUnused x.id after
    → (round_finish x o (round_begin i total x u)).files ≡ before ++ set_outcome o x ∷ after
unfolding round_finish round_begin
round-files i total o u before after x e h k =
    ap
      (λ fs.
        map_entry x.id (set_outcome o) (map_entry x.id (λ f. record f { status = uploading }) fs))
      e
    ∙ ap (map_entry x.id (set_outcome o))
        (map_entry_middle before after x (λ f. record f { status = uploading }) x.id refl h k)
    ∙ map_entry_middle before after (record x { status = uploading }) (set_outcome o) x.id refl h k
    ∙ ap (λ y. before ++ y ∷ after) (set_outcome_uploading o x)

abbrev pub outcome : (FileEntry → Bool) → (FileEntry → Upload) → FileEntry → FileEntry
unfolding set_outcome
outcome is_entry_ready on_upload f =
    if is_ready_pending is_entry_ready f then set_outcome (on_upload f) f else f

set_outcome-id : (o : Upload) (f : FileEntry) → (set_outcome o f).id ≡ f.id
unfolding set_outcome
set_outcome-id success f = refl
set_outcome-id (failure text) f = refl
set_outcome-id (thrown text) f = refl

IsUnused-before :
    (x : FileEntry) (before after : List FileEntry)
    → All (λ b. IsUnused b.id (x ∷ after)) before
    → IsUnused x.id before
IsUnused-before x [] after h = tt
IsUnused-before x (b ∷ bs) after ((u, k), h) =
    (ground (arith, eq_iff x.id b.id, eq_iff b.id x.id), IsUnused-before x bs after h)

IsUnused-beyond :
    (x y : FileEntry) (before after : List FileEntry)
    → y.id ≡ x.id
    → IsUnused x.id after
    → All (λ b. IsUnused b.id (x ∷ after)) before
    → All (λ b. IsUnused b.id after) (before ++ y ∷ [])
IsUnused-beyond x y [] after e k h = (subst (λ id. IsUnused id after) (sym e) k, tt)
IsUnused-beyond x y (b ∷ bs) after e k ((u, j), h) = (j, IsUnused-beyond x y bs after e k h)

append_snoc :
    (before after : List FileEntry) (y : FileEntry)
    → before ++ y ∷ after ≡ (before ++ y ∷ []) ++ after
append_snoc [] after y = refl
append_snoc (b ∷ bs) after y = ap (λ r. b ∷ r) (append_snoc bs after y)

-- The loop over the ids of the entries behind some others.
upload_loop-files :
    (ready : FileEntry → Bool) (up : FileEntry → Upload) (i total : ℕ)
    (before after : List FileEntry) (u : Uploader)
    → u.files ≡ before ++ after
    → IsDistinct after
    → All (λ b. IsUnused b.id after) before
    → (upload_loop up i total (ready_ids ready after) u).files
      ≡ before ++ map (outcome ready up) after
unfolding upload_loop
upload_loop-files ready up i total before [] u e d a = e
upload_loop-files ready up i total before (x ∷ after) u e (unused, d) a =
    let h = IsUnused-before x before after a in
    elim (Bool-cases (is_ready_pending ready x)) [
      | inl chosen ↦
          let y = set_outcome (up x) x in
          let found : find (is_id x.id) u.files ≡ some x =
            ap (find (is_id x.id)) e ∙ find_middle before after x h in
          rw (chosen, found, upload_loop)
            (upload_loop-files ready up (suc i) total (before ++ y ∷ []) after
                (round_finish x (up x) (round_begin i total x u))
                (round-files i total (up x) u before after x e h unused
                  ∙ append_snoc before after y)
                d (IsUnused-beyond x y before after (set_outcome-id (up x) x) unused a)
              ∙ sym (append_snoc before (map (outcome ready up) after) y))
      | inr passed ↦ rw passed (
          upload_loop-files ready up i total (before ++ x ∷ []) after u
            (e ∙ append_snoc before after x) d (IsUnused-beyond x x before after refl unused a)
          ∙ sym (append_snoc before (map (outcome ready up) after) x))
    ]

none_ready :
    (ready : FileEntry → Bool) (up : FileEntry → Upload) (fs : List FileEntry)
    → length (ready_ids ready fs) ≡ 0
    → map (outcome ready up) fs ≡ fs
unfolding outcome
none_ready ready up [] h = refl
none_ready ready up (f ∷ fs) h = elim (Bool-cases (is_ready_pending ready f)) [
  | inl chosen ↦
      let e : length (ready_ids ready (f ∷ fs)) ≡ suc (length (ready_ids ready fs)) =
        rw chosen refl in
      ground (arith, e, h)
  | inr passed ↦
      let e : length (ready_ids ready (f ∷ fs)) ≡ length (ready_ids ready fs) = rw passed refl in
      rw passed (ap (λ r. f ∷ r) (none_ready ready up fs (sym e ∙ h)))
]

length-zero : (ids : List String) → length ids ≡ 0 → ids ≡ []
length-zero [] h = refl
length-zero (x ∷ ids) h = ground arith

set_outcome-status : (o : Upload) (f : FileEntry) → is_pending (set_outcome o f).status ≡ false
unfolding set_outcome
set_outcome-status success f = refl
set_outcome-status (failure text) f = refl
set_outcome-status (thrown text) f = refl

outcome_not_ready :
    (ready : FileEntry → Bool) (up : FileEntry → Upload) (f : FileEntry)
    → is_ready_pending ready (outcome ready up f) ≡ false
unfolding outcome
outcome_not_ready ready up f = elim (Bool-cases (is_ready_pending ready f)) [
  | inl chosen ↦
      let y = set_outcome (up f) f in
      rw chosen (ap (λ p. p && ready y) (set_outcome-status (up f) f))
  | inr passed ↦ rw passed passed
]

ready_ids-outcomes :
    (ready : FileEntry → Bool) (up : FileEntry → Upload) (fs : List FileEntry)
    → ready_ids ready (map (outcome ready up) fs) ≡ []
ready_ids-outcomes ready up [] = refl
ready_ids-outcomes ready up (f ∷ fs) =
    rw (outcome_not_ready ready up f) (ready_ids-outcomes ready up fs)

-- With ids that differ, uploading all files uploads exactly the pending ones that are ready, each
-- as it stands in the list, marks each with its outcome, and leaves every other file as it was
-- and the order as well; then no pending file is ready. With none ready nothing changes, and
-- otherwise the progress and the marks of the run are gone at the end.
pub upload_all-files :
    (ready : FileEntry → Bool) (up : FileEntry → Upload) (u : Uploader)
    → IsDistinct u.files
    → ((upload_all ready up u).files ≡ map (outcome ready up) u.files)
      × (ready_ids ready (upload_all ready up u).files ≡ [])
      × (((ready_ids ready u.files ≡ []) × (upload_all ready up u ≡ u))
          ⊎ (((upload_all ready up u).uploading_all ≡ false)
              × ((upload_all ready up u).upload_progress ≡ none)
              × ((upload_all ready up u).expanded_id ≡ none)))
unfolding upload_all
upload_all-files ready up u d =
    let n = length (ready_ids ready u.files) in
    let looped =
      upload_loop-files ready up 0 n [] u.files
        (record u { uploading_all = true; upload_progress = some (0, n) }) refl d tt in
    elim (Bool-cases (n == 0)) [
      | inl zero_ready ↦
          let unchanged : upload_all ready up u ≡ u = rw zero_ready refl in
          let z : n ≡ 0 = ground (arith, zero_ready) in
          let nil = length-zero (ready_ids ready u.files) z in
          (
            ap (λ v. v.files) unchanged ∙ sym (none_ready ready up u.files z),
            ap (λ v. ready_ids ready v.files) unchanged ∙ nil,
            inl (nil, unchanged),
          )
      | inr some_ready ↦
          let files : (upload_all ready up u).files ≡ map (outcome ready up) u.files =
            rw some_ready looped in
          (
            files,
            ap (ready_ids ready) files ∙ ready_ids-outcomes ready up u.files,
            inr (rw some_ready refl, rw some_ready refl, rw some_ready refl),
          )
    ]
