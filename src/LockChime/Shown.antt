-- ===== src/LockChime/Shown.antt =====
-- web/src/pages/LockChime.tsx: which sounds the pages and the rows show.
use native.Mathlib.Nat.{mod-add-div', mod-lt}
use sentry_usb.Base.{
  ℕ, zero, suc, ◌+◌, ◌-◌, ◌*◌, ◌/◌, ◌%◌, ◌≤◌, ◌<◌, true, false, ◌||◌, List, [], ◌∷◌, ◌++◌, take,
  length, min, ltb, ◌==◌, ◌≡◌, refl, arith, ap, length-take, ◌∙◌,
}
use sentry_usb.LockChime.Library.{Library, SoundEntry}
use sentry_usb.LockChime.Pages.{
  drop, lib_total_pages, safe_page, sounds_of_page, page_sounds, full_rows,
}

module _ {ℓ} {A : Type ℓ} where
  length-drop : (n : ℕ) (xs : List A) → length (drop n xs) ≡ length xs - n
  length-drop zero xs = omega arith
  length-drop (suc n) [] = omega arith
  length-drop (suc n) (x ∷ xs) = omega (arith, length-drop n xs)

  take-add : (m n : ℕ) (xs : List A) → take m xs ++ take n (drop m xs) ≡ take (m + n) xs
  take-add zero n xs = let e : 0 + n ≡ n = omega arith in rw e refl
  take-add (suc m) zero [] = let e : suc m + 0 ≡ suc m = omega arith in rw e refl
  take-add (suc m) (suc n) [] = let e : suc m + suc n ≡ suc (m + suc n) = omega arith in rw e refl
  take-add (suc m) n (x ∷ xs) =
      let e : suc m + n ≡ suc (m + n) = omega arith in rw e (ap (λ l. x ∷ l) (take-add m n xs))

  take_all : (n : ℕ) (xs : List A) → length xs ≤ n → take n xs ≡ xs
  take_all zero [] h = refl
  take_all zero (x ∷ xs) h = ground (arith, h)
  take_all (suc n) [] h = refl
  take_all (suc n) (x ∷ xs) h = ap (λ l. x ∷ l) (take_all n xs (omega (arith, h)))

-- the sounds of the first pages, one after the other
abbrev pub first_pages : ℕ → List SoundEntry → List SoundEntry
first_pages zero sounds = []
first_pages (suc n) sounds = first_pages n sounds ++ sounds_of_page (suc n) sounds

first_pages-take : (n : ℕ) (sounds : List SoundEntry) → first_pages n sounds ≡ take (n * 15) sounds
unfolding sounds_of_page
first_pages-take zero sounds = refl
first_pages-take (suc n) sounds =
    let start : (suc n - 1) * 15 ≡ n * 15 = omega arith in
    let next : suc n * 15 ≡ n * 15 + 15 = omega arith in
    rw (start, next, first_pages-take n sounds) (take-add (n * 15) 15 sounds)

-- The pages of the library, from the first to the last, have every sound once and in order; and
-- whatever page number is set, of at least 1, the page that is shown has a sound if there is one, and
-- at most 15.
pub pages_complete :
    (s : Library)
    → 1 ≤ s.lib_page
    → 1 ≤ length s.listing.sounds
    → (first_pages (lib_total_pages s.listing.sounds) s.listing.sounds ≡ s.listing.sounds)
      × (1 ≤ length (page_sounds s))
      × (length (page_sounds s) ≤ 15)
unfolding lib_total_pages page_sounds safe_page sounds_of_page
pages_complete s p h =
    let sounds = s.listing.sounds in
    let total = lib_total_pages sounds in
    let page = min s.lib_page total in
    let start = (page - 1) * 15 in
    let counted : length (take 15 (drop start sounds)) ≡ min 15 (length sounds - start) =
      length-take 15 (drop start sounds) ∙ ap (min 15) (length-drop start sounds) in
    let inside : start < length sounds = ground (arith, h, p) in
    (
      first_pages-take total sounds ∙ take_all (total * 15) sounds (omega arith),
      omega (arith, counted, inside),
      omega (arith, counted),
    )

module _ {ℓ} {A : Type ℓ} where
  take-drop : (n : ℕ) (xs : List A) → take n xs ++ drop n xs ≡ xs
  take-drop zero xs = refl
  take-drop (suc n) [] = refl
  take-drop (suc n) (x ∷ xs) = ap (λ l. x ∷ l) (take-drop n xs)

  -- If there is at least one full row, the grid shows the full rows alone: the items behind
  -- them, as many as the remainder of the length by the columns, are left out.
  full_rows-rest :
      (cols : ℕ) (items : List A)
      → 1 ≤ cols
      → cols ≤ length items
      → (full_rows cols items ++ drop ((length items / cols) * cols) items ≡ items)
        × (length (drop ((length items / cols) * cols) items) ≡ length items % cols)
  unfolding full_rows
  full_rows-rest cols items c h =
      let count = (length items / cols) * cols in
      let split : length items % cols + count ≡ length items = mod-add-div' (length items) cols in
      let less : length items % cols < cols = mod-lt (length items) (omega (arith, c)) in
      let some_row : ltb 0 count ≡ true = ground (arith, split, less, h) in
      let none_empty : ((cols == 0) || (length items == 0)) ≡ false = ground (arith, c, h) in
      rw (none_empty, some_row)
        (take-drop count items, length-drop count items ∙ omega (arith, split))
