-- ===== src/Drives/Tags.antt =====
-- web/src/pages/Drives.tsx: adding a tag and taking it away again.
use sentry_usb.Base.{
  ℕ, ◌≡◌, refl, sym, ap, ◌∙◌, false, not, List, [], ◌∷◌, ◌++◌, map, String, str_eq, eq_iff, arith,
  ◌==◌, if◌then◌else◌, filter_by, All, Bool-cases, inl, inr,
}
use sentry_usb.Base.Text.{trim, is_empty}
use sentry_usb.Drives.{Drive, Drives, has_tag, save_tags, add_tag_to_drive, remove_tag_from_drive}

-- every drive of the id has the tags
abbrev pub IsTagged : ℕ → List String → List Drive → Type 0
IsTagged id tags drives = All (λ d. d.id ≡ id → d.tags ≡ tags) drives

filter_by_absent :
    (t : String) (tags : List String)
    → has_tag t tags ≡ false
    → filter_by (λ s. not (str_eq s t)) (tags ++ t ∷ []) ≡ tags
filter_by_absent t [] h = ground (arith, eq_iff t t)
filter_by_absent t (s ∷ tags) h = ground (arith, h, filter_by_absent t tags)

abbrev set_tags : ℕ → List String → Drive → Drive
set_tags id tags d = if d.id == id then record d { tags = tags } else d

set_tags_twice :
    (id : ℕ) (more tags : List String) (d : Drive)
    → (d.id ≡ id → d.tags ≡ tags)
    → set_tags id tags (set_tags id more d) ≡ d
set_tags_twice id more tags d k = elim (Bool-cases (d.id == id)) [
  | inl same ↦
      let e : d.id ≡ id = ground (arith, same) in
      rw (same, same) (ap (λ ts. record d { tags = ts }) (sym (k e)))
  | inr other ↦ rw (other, other) refl
]

map-set_tags_twice :
    (id : ℕ) (more tags : List String) (drives : List Drive)
    → IsTagged id tags drives
    → map (set_tags id tags) (map (set_tags id more) drives) ≡ drives
map-set_tags_twice id more tags [] h = refl
map-set_tags_twice id more tags (d ∷ ds) (k, h) =
    ap (λ e. e ∷ map (set_tags id tags) (map (set_tags id more) ds))
      (set_tags_twice id more tags d k)
    ∙ ap (λ es. d ∷ es) (map-set_tags_twice id more tags ds h)

-- Adding a tag that is not blank and that the drive does not have yet, and taking it away again:
-- the drives are as before, and in between every drive of the id has the trimmed tag last.
add-remove_tag :
    (id : ℕ) (tags : List String) (tag : String) (s : Drives)
    → IsTagged id tags s.drives
    → is_empty (trim tag) ≡ false
    → has_tag (trim tag) tags ≡ false
    → ((add_tag_to_drive id tags tag s).drives
        ≡ map (λ d. if d.id == id then record d { tags = tags ++ trim tag ∷ [] } else d) s.drives)
      × ((remove_tag_from_drive id
            (tags ++ trim tag ∷ [])
            (trim tag)
            (add_tag_to_drive id tags tag s)).drives
          ≡ s.drives)
unfolding add_tag_to_drive remove_tag_from_drive save_tags
add-remove_tag id tags tag s h filled fresh =
    let added : add_tag_to_drive id tags tag s ≡ save_tags id (tags ++ trim tag ∷ []) s =
      rw (filled, fresh) refl in
    (
      ap (λ v. v.drives) added,
      ap (λ v. (remove_tag_from_drive id (tags ++ trim tag ∷ []) (trim tag) v).drives) added
          ∙ ap (λ ts. map (set_tags id ts) (map (set_tags id (tags ++ trim tag ∷ [])) s.drives))
              (filter_by_absent (trim tag) tags fresh)
          ∙ map-set_tags_twice id (tags ++ trim tag ∷ []) tags s.drives h,
    )
